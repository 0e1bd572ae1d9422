-- ===== src/Numpy/Reference.antt =====
-- A concrete value of the array library's interface, which shows that its promises can be met:
-- insertion sorts, and no `np.bitwise_count`, as before version 2.0.
use mathlib.Core.List.Permᴰ
use memory_tiering.Prelude.{
  ℕ, zero, suc, ◌+◌, ◌≤◌, ◌<◌, ◌≡◌, refl, inl, inr, List, [], ◌∷◌, Bool, true, false, not, ◌&&◌,
  ◌||◌, Option, none, some, Permᴰ, ltb, leb, ◌==◌, if◌then◌else◌, length, contains, count_if,
  count_if-perm, All, All-weaken, Sorted, Sorted-weaken, Bool-cases, arith, sum_by, sum_by-perm,
}
use memory_tiering.Prelude.Int.{ℤ, pos, ltb_ℤ, pos_part, neg_part}
use memory_tiering.Numpy.{Numpy, RowLe}

eq_of_parts : (a b : ℤ) → pos_part a + neg_part b ≡ pos_part b + neg_part a → a ≡ b
eq_of_parts a b h = ground arith

module _ {A : Type 0} (second : A → ℕ) (first : A → ℤ) where
  row_le : A → A → Bool
  row_le a b =
      ltb_ℤ (first a) (first b) || (not (ltb_ℤ (first b) (first a)) && leb (second a) (second b))

  row_le_sound : (a b : A) → row_le a b ≡ true → RowLe second first a b
  unfolding row_le
  row_le_sound a b h = elim (Bool-cases (ltb_ℤ (first a) (first b))) [
    | inl e ↦ inl (ground arith)
    | inr e ↦ inr (eq_of_parts (first a) (first b) (ground arith), ground arith)
  ]

  row_le_total : (a b : A) → row_le a b ≡ false → RowLe second first b a
  unfolding row_le
  row_le_total a b h = elim (Bool-cases (ltb_ℤ (first b) (first a))) [
    | inl e ↦ inl (ground arith)
    | inr e ↦ inr (eq_of_parts (first b) (first a) (ground arith), ground arith)
  ]

  RowLe-trans :
      (a b c : A) → RowLe second first a b → RowLe second first b c → RowLe second first a c
  RowLe-trans a b c (inl p) (inl q) = inl (omega arith)
  RowLe-trans a b c (inl p) (inr (e, q)) = inl (rw (← e) p)
  RowLe-trans a b c (inr (e, p)) (inl q) = inl (rw e q)
  RowLe-trans a b c (inr (e, p)) (inr (d, q)) = inr (rw (e, d), omega arith)

  insert_row : A → List A → List A
  insert_row x [] = x ∷ []
  insert_row x (y ∷ ys) = if row_le x y then x ∷ y ∷ ys else y ∷ insert_row x ys

  unfoldable pub sort_rows : List A → List A
  unfolding insert_row row_le
  sort_rows [] = []
  sort_rows (x ∷ xs) = insert_row x (sort_rows xs)

  insert_row-perm : (x : A) (ys : List A) → Permᴰ (insert_row x ys) (x ∷ ys)
  unfolding insert_row
  insert_row-perm x [] = Permᴰ.cons refl Permᴰ.nil
  insert_row-perm x (y ∷ ys) = elim (Bool-cases (row_le x y)) [
    | inl e ↦ rw e (Permᴰ.refl (x ∷ y ∷ ys))
    | inr e ↦ rw e (Permᴰ.trans (Permᴰ.cons refl (insert_row-perm x ys)) (Permᴰ.swap refl refl))
  ]

  pub sort_rows-perm : (xs : List A) → Permᴰ (sort_rows xs) xs
  unfolding sort_rows
  sort_rows-perm [] = Permᴰ.nil
  sort_rows-perm (x ∷ xs) =
      Permᴰ.trans (insert_row-perm x (sort_rows xs)) (Permᴰ.cons refl (sort_rows-perm xs))

  insert_row-All :
      (a x : A) (ys : List A)
      → RowLe second first a x
      → All (RowLe second first a) ys
      → All (RowLe second first a) (insert_row x ys)
  unfolding insert_row
  insert_row-All a x [] p h = (p, tt)
  insert_row-All a x (y ∷ ys) p h = elim (Bool-cases (row_le x y)) [
    | inl e ↦ rw e (p, h)
    | inr e ↦ rw e (h.0, insert_row-All a x ys p h.1)
  ]

  insert_row-Sorted :
      (x : A) (ys : List A)
      → Sorted (RowLe second first) ys
      → Sorted (RowLe second first) (insert_row x ys)
  unfolding insert_row
  insert_row-Sorted x [] h = (tt, tt)
  insert_row-Sorted x (y ∷ ys) h = elim (Bool-cases (row_le x y)) [
    | inl e ↦
        let le = row_le_sound x y e in
        rw e ((le, All-weaken _ _ (λ z q. RowLe-trans x y z le q) ys h.0), h)
    | inr e ↦ rw e (insert_row-All y x ys (row_le_total x y e) h.0, insert_row-Sorted x ys h.1)
  ]

  pub sort_rows-Sorted : (xs : List A) → Sorted (RowLe second first) (sort_rows xs)
  unfolding sort_rows
  sort_rows-Sorted [] = tt
  sort_rows-Sorted (x ∷ xs) = insert_row-Sorted x (sort_rows xs) (sort_rows-Sorted xs)

insert_value : ℕ → List ℕ → List ℕ
insert_value x [] = x ∷ []
insert_value x (y ∷ ys) =
    if ltb x y then x ∷ y ∷ ys else if x == y then y ∷ ys else y ∷ insert_value x ys

unfoldable pub distinct_values : List ℕ → List ℕ
unfolding insert_value
distinct_values [] = []
distinct_values (x ∷ xs) = insert_value x (distinct_values xs)

insert_value-All :
    (a x : ℕ) (ys : List ℕ) → a < x → All (λ y. a < y) ys → All (λ y. a < y) (insert_value x ys)
unfolding insert_value
insert_value-All a x [] p h = (p, tt)
insert_value-All a x (y ∷ ys) p h = elim (Bool-cases (ltb x y)) [
  | inl e ↦ rw e (p, h)
  | inr e ↦ elim (Bool-cases (x == y)) [
    | inl d ↦ rw (e, d) h
    | inr d ↦ rw (e, d) (h.0, insert_value-All a x ys p h.1)
  ]
]

insert_value-Sorted : (x : ℕ) (ys : List ℕ) → Sorted ◌<◌ ys → Sorted ◌<◌ (insert_value x ys)
unfolding insert_value
insert_value-Sorted x [] h = (tt, tt)
insert_value-Sorted x (y ∷ ys) h = elim (Bool-cases (ltb x y)) [
  | inl e ↦
      let lt : x < y = ground arith in
      rw e ((lt, All-weaken (λ z. y < z) (λ z. x < z) (λ z q. omega arith) ys h.0), h)
  | inr e ↦ elim (Bool-cases (x == y)) [
    | inl d ↦ rw (e, d) h
    | inr d ↦ rw (e, d) (insert_value-All y x ys (ground arith) h.0, insert_value-Sorted x ys h.1)
  ]
]

insert_value-contains :
    (x a : ℕ) (ys : List ℕ) → contains (insert_value x ys) a ≡ ((x == a) || contains ys a)
unfolding insert_value contains
insert_value-contains x a [] = refl
insert_value-contains x a (y ∷ ys) = ground (arith, insert_value-contains x a ys)

pub distinct_values-Sorted : (xs : List ℕ) → Sorted ◌<◌ (distinct_values xs)
unfolding distinct_values
distinct_values-Sorted [] = tt
distinct_values-Sorted (x ∷ xs) =
    insert_value-Sorted x (distinct_values xs) (distinct_values-Sorted xs)

pub distinct_values-contains :
    (xs : List ℕ) (a : ℕ) → contains (distinct_values xs) a ≡ contains xs a
unfolding distinct_values contains
distinct_values-contains [] a = refl
distinct_values-contains (x ∷ xs) a =
    rw (insert_value-contains x a (distinct_values xs), distinct_values-contains xs a)

abbrev ascending : List ℕ → List ℕ
ascending xs = sort_rows (λ x. 0) (λ x. pos x) xs

nth : List ℕ → ℕ → ℕ
nth [] k = 0
nth (x ∷ xs) zero = x
nth (x ∷ xs) (suc k) = nth xs k

unfoldable pub kth_value : List ℕ → ℕ → ℕ
unfolding nth sort_rows
kth_value xs k = nth (ascending xs) k

nth-ge : (x : ℕ) (xs : List ℕ) (k : ℕ) → k < length xs → All (λ y. x ≤ y) xs → x ≤ nth xs k
unfolding nth
nth-ge x [] k l h = absurd (omega arith)
nth-ge x (y ∷ ys) zero l h = h.0
nth-ge x (y ∷ ys) (suc k) l h = nth-ge x ys k (omega arith) h.1

none_below : (x : ℕ) (xs : List ℕ) → All (λ y. x ≤ y) xs → count_if (λ y. ltb y x) xs ≡ 0
unfolding count_if
none_below x [] h = refl
none_below x (y ∷ ys) h = ground (arith, none_below x ys h.1)

nth_low :
    (xs : List ℕ) (k : ℕ) → Sorted ◌≤◌ xs → k < length xs → count_if (λ x. ltb x (nth xs k)) xs ≤ k
unfolding nth count_if
nth_low [] k s l = absurd (omega arith)
nth_low (x ∷ xs) zero s l = ground (arith, none_below x xs s.0)
nth_low (x ∷ xs) (suc k) s l = ground (arith, nth_low xs k s.1 (omega arith))

nth_high :
    (xs : List ℕ) (k : ℕ) → Sorted ◌≤◌ xs → k < length xs → k < count_if (λ x. leb x (nth xs k)) xs
unfolding nth count_if
nth_high [] k s l = absurd (omega arith)
nth_high (x ∷ xs) zero s l = ground arith
nth_high (x ∷ xs) (suc k) s l =
    ground (arith, nth_high xs k s.1 (omega arith), nth-ge x xs k (omega arith) s.0)

ascending-Sorted : (xs : List ℕ) → Sorted ◌≤◌ (ascending xs)
ascending-Sorted xs =
    Sorted-weaken (RowLe (λ x. 0) (λ x. pos x)) ◌≤◌ (λ a b h. ground arith) (ascending xs)
      (sort_rows-Sorted (λ x. 0) (λ x. pos x) xs)

length-sum : (xs : List ℕ) → length xs ≡ sum_by (λ x. 1) xs
unfolding sum_by
length-sum [] = refl
length-sum (x ∷ xs) = omega (arith, length-sum xs)

length-ascending : (xs : List ℕ) → length (ascending xs) ≡ length xs
length-ascending xs = omega (
  arith,
  length-sum xs,
  length-sum (ascending xs),
  sum_by-perm (λ (x : ℕ). 1) (sort_rows-perm (λ x. 0) (λ x. pos x) xs),
)

pub kth_value-low :
    (xs : List ℕ) (k : ℕ) → k < length xs → count_if (λ x. ltb x (kth_value xs k)) xs ≤ k
unfolding kth_value
kth_value-low xs k l = omega (
  arith,
  count_if-perm (λ x. ltb x (nth (ascending xs) k)) (sort_rows-perm (λ x. 0) (λ x. pos x) xs),
  nth_low (ascending xs) k (ascending-Sorted xs) (omega (arith, length-ascending xs)),
)

pub kth_value-high :
    (xs : List ℕ) (k : ℕ) → k < length xs → k < count_if (λ x. leb x (kth_value xs k)) xs
unfolding kth_value
kth_value-high xs k l = omega (
  arith,
  count_if-perm (λ x. leb x (nth (ascending xs) k)) (sort_rows-perm (λ x. 0) (λ x. pos x) xs),
  nth_high (ascending xs) k (ascending-Sorted xs) (omega (arith, length-ascending xs)),
)

pub none-ne-some : (f : ℕ → ℕ) → ◌≡◌ {A = Option (ℕ → ℕ)} none (some f) → ⊥
none-ne-some f e = cc

pub by_key-Sorted :
    {A : Type 0} (key : A → ℕ) (rows : List A)
    → Sorted (λ a b. key a ≤ key b) (sort_rows (λ x. 0) (λ x. pos (key x)) rows)
by_key-Sorted key rows =
    Sorted-weaken (RowLe (λ x. 0) (λ x. pos (key x))) (λ a b. key a ≤ key b) (λ a b h. ground arith)
      (sort_rows (λ x. 0) (λ x. pos (key x)) rows)
      (sort_rows-Sorted (λ x. 0) (λ x. pos (key x)) rows)

abbrev pub reference : Numpy
reference = record {
  lexsort = sort_rows;
  lexsort_perm = sort_rows-perm;
  lexsort_sorted = sort_rows-Sorted;
  argsort = λ key. sort_rows (λ x. 0) (λ x. pos (key x));
  argsort_perm = λ key. sort_rows-perm (λ x. 0) (λ x. pos (key x));
  argsort_sorted = by_key-Sorted;
  unique = distinct_values;
  unique_sorted = distinct_values-Sorted;
  unique_contains = distinct_values-contains;
  kth = kth_value;
  kth_low = kth_value-low;
  kth_high = kth_value-high;
  bitwise_count = none;
  bitwise_count_bits = λ f e. absurd (none-ne-some f e);
}
