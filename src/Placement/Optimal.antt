-- ===== src/Placement/Optimal.antt =====
-- The choice of pages: its size, and that no other set of pages within the capacity catches more.
use memory_tiering.Prelude.{
  ℕ, ◌≤◌, ◌≡◌, refl, inl, inr, List, [], ◌∷◌, Bool, true, false, map, ltb, ◌==◌, ==_refl,
  Bool-cases, if◌then◌else◌, filter, take, length, length-take, length-to_set-le, contains,
  contains-to_set, to_set, count_if, count_if-filter-le, All, All-weaken, Sorted, Sorted-weaken,
  sum_by, sum_by-filter-perm, count_if-perm, sum_by-filter_split, sum_by-filter_self,
  sum_by-filter-filter, sum_by-filter-le-take, sum_by-filter_ext, sum_by-filter_none,
  count_if-or-le, count_if_none, arith,
}
use memory_tiering.Prelude.Int.{ℤ, neg}
use memory_tiering.Numpy.{Numpy, RowLe}
use memory_tiering.Placement.{Scored, best, choose}

module _ {A : Type 0} where
  -- No two rows have the same key.
  abbrev pub Distinct : (A → ℕ) → List A → Type 0
  Distinct key = Sorted (λ a b. (key a == key b) ≡ false)

  count-key-le_one :
      (key : A → ℕ) (x : ℕ) (rows : List A)
      → Distinct key rows
      → count_if (λ r. x == key r) rows ≤ 1
  unfolding count_if
  count-key-le_one key x [] d = omega arith
  count-key-le_one key x (r ∷ rows) d = elim (Bool-cases (x == key r)) [
    | inl e ↦ omega (
      arith,
      le_one e,
      count_if_none (λ r. x == key r) rows (All-weaken _ _ (λ b h. ground arith) rows d.0),
    )
    | inr e ↦ rw e (omega (arith, count-key-le_one key x rows d.1))
  ]
    where
      le_one : (x == key r) ≡ true → (if x == key r then 1 else 0) ≤ 1
      le_one e = ground arith

  -- Distinct keys: a list of keys meets at most as many rows as it is long.
  pub count-contains-le :
      (key : A → ℕ) (xs : List ℕ) (rows : List A)
      → Distinct key rows
      → count_if (λ r. contains xs (key r)) rows ≤ length xs
  unfolding contains
  count-contains-le key [] rows d = rw (count_if_none (λ _. false) rows (falses rows)) (omega arith)
    where
      falses : (rows : List A) → All (λ _. ◌≡◌ {A = Bool} false false) rows
      falses [] = tt
      falses (r ∷ rows) = (refl, falses rows)
  count-contains-le key (x ∷ xs) rows d = omega (
    arith,
    count_if-or-le (λ r. x == key r) (λ r. contains xs (key r)) rows,
    count-key-le_one key x rows d,
    count-contains-le key xs rows d,
  )

  contains-map_self :
      (key : A → ℕ) (ys : List ℕ) (rows : List A)
      → ((a : ℕ) → contains (map key rows) a ≡ true → contains ys a ≡ true)
      → All (λ r. contains ys (key r) ≡ true) rows
  unfolding contains
  contains-map_self key ys [] h = tt
  contains-map_self key ys (r ∷ rows) h = (
    h (key r) (ground (arith, ==_refl (key r))),
    contains-map_self key ys rows (λ a e. h a (ground arith)),
  )

module _ (np : Numpy) {A : Type 0} (key f : A → ℕ) (first : A → ℤ) (rows : List A)
    (falls : (a b : A) → RowLe key first a b → f b ≤ f a) where
  abbrev descending : List A
  descending = np.lexsort key first rows

  descends : Sorted (λ a b. f b ≤ f a) descending
  descends = Sorted-weaken (RowLe key first) _ falls descending (np.lexsort_sorted key first rows)

  -- Whatever at most `k` rows carry, the first `k` of the descending order carry as much.
  pub filter-le-top :
      (p : A → Bool) (k : ℕ)
      → count_if p rows ≤ k
      → sum_by f (filter p rows) ≤ sum_by f (take k descending)
  filter-le-top p k h =
      let perm = np.lexsort_perm key first rows in
      omega (
        arith,
        sum_by-filter-perm f p perm,
        sum_by-filter-le-take f p k descending descends (rw (count_if-perm p perm) h),
      )

  -- The rows whose key is among the keys of the first `k` carry at least what those `k` do.
  pub top-le-filter :
      (k : ℕ)
      → sum_by f (take k descending)
        ≤ sum_by f (filter (λ r. contains (map key (take k descending)) (key r)) rows)
  top-le-filter k =
      let perm = np.lexsort_perm key first rows in
      let top = take k descending in
      let q = λ (r : A). contains (map key top) (key r) in
      omega (
        arith,
        sum_by-filter-perm f q perm,
        sum_by-filter_split f q k descending,
        sum_by-filter_self f q top (contains-map_self key (map key top) top (λ a e. e)),
      )

pub length-map {ℓ κ} :
    {A : Type ℓ} {B : Type κ} (f : A → B) (xs : List A) → length (map f xs) ≡ length xs
length-map f [] = refl
length-map f (x ∷ xs) = omega (arith, length-map f xs)

-- At most `capacity` pages are chosen.
pub length-choose-le :
    (np : Numpy) (rows : List Scored) (capacity : ℕ) → length (choose np rows capacity) ≤ capacity
unfolding choose best
length-choose-le np rows capacity = elim (Bool-cases (capacity == 0)) [
  | inl e ↦ rw e (omega arith)
  | inr e ↦ rw e (
      let sorted = np.lexsort (λ s. s.page) (λ s. neg s.score) (filter (λ s. ltb 0 s.score) rows) in
      omega (
        arith,
        length-to_set-le (map (λ (s : Scored). s.page) (take capacity sorted)),
        length-map (λ (s : Scored). s.page) (take capacity sorted),
        length-take capacity sorted,
      ))
]

-- The score of the rows whose page is in a set.
abbrev pub caught : List ℕ → List Scored → ℕ
caught pages rows = sum_by (λ s. s.score) (filter (λ s. contains pages s.page) rows)

caught_nothing : (rows : List Scored) → caught [] rows ≡ 0
unfolding contains
caught_nothing rows = sum_by-filter_none (λ s. s.score) _ rows (λ s. refl)

-- Of all sets of at most `capacity` pages, the chosen one catches the most score, when no page
-- stands in two rows.
pub caught-le-choose :
    (np : Numpy) (rows : List Scored) (capacity : ℕ) (pages : List ℕ)
    → Distinct (λ s. s.page) rows
    → length pages ≤ capacity
    → caught pages rows ≤ caught (choose np rows capacity) rows
unfolding choose best
caught-le-choose np rows capacity [] d h = rw (caught_nothing rows) (omega arith)
caught-le-choose np rows capacity (p ∷ ps) d h = elim (Bool-cases (capacity == 0)) [
  | inl e ↦ absurd (ground arith)
  | inr e ↦ rw e (
      let valid = filter (λ (s : Scored). ltb 0 s.score) rows in
      let page = λ (s : Scored). s.page in
      let score = λ (s : Scored). s.score in
      let q = λ (s : Scored). contains (p ∷ ps) s.page in
      let top = map page (take capacity (np.lexsort page (λ s. neg s.score) valid)) in
      omega (
        arith,
        count-contains-le page (p ∷ ps) rows d,
        count_if-filter-le q (λ s. ltb 0 s.score) rows,
        filter-le-top np page score (λ s. neg s.score) valid falls q capacity
            (omega (
              arith,
              count-contains-le page (p ∷ ps) rows d,
              count_if-filter-le q (λ s. ltb 0 s.score) rows,
            )),
        top-le-filter np page score (λ s. neg s.score) valid falls capacity,
        no_score q rows,
        no_score (λ s. contains top s.page) rows,
        sum_by-filter_ext score (λ s. contains (to_set top) s.page) (λ s. contains top s.page) rows
            (λ s. contains-to_set top s.page),
      ))
]
  where
    falls : (a b : Scored) → RowLe (λ s. s.page) (λ s. neg s.score) a b → b.score ≤ a.score
    falls a b h = ground arith

    no_score :
        (q : Scored → Bool) (rows : List Scored)
        → sum_by (λ s. s.score) (filter q (filter (λ s. ltb 0 s.score) rows))
          ≡ sum_by (λ s. s.score) (filter q rows)
    no_score q rows =
        sum_by-filter-filter (λ s. s.score) q (λ s. ltb 0 s.score) rows (λ s e. ground arith)
