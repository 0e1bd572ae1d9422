-- ===== src/Prelude/Sums.antt =====
-- Sums over lists, and what permutations, filters and prefixes do to them.
use Prim.Native.Nat.{ℕ, zero, suc, ◌+◌, ◌≤◌}
use mathlib.Core.Path.{◌≡◌, refl, sym, ap, ◌∙◌}
use mathlib.Core.Logic.{inl, inr}
use mathlib.Core.Bool.{Bool, true, false, ◌||◌}
use mathlib.Core.List.{List, [], ◌∷◌, ◌++◌, Permᴰ}
use native.Mathlib.Omega.{arith}
use memory_tiering.Prelude.Tests.{if◌then◌else◌, Bool-cases}
use memory_tiering.Prelude.Lists.{take, drop, take-append-drop, filter, count_if, All, Sorted}

module _ {ℓ} {A : Type ℓ} where
  unfoldable pub sum_by : (A → ℕ) → List A → ℕ
  sum_by f [] = 0
  sum_by f (x ∷ xs) = f x + sum_by f xs

  pub sum_by-append : (f : A → ℕ) (xs ys : List A) → sum_by f (xs ++ ys) ≡ sum_by f xs + sum_by f ys
  unfolding sum_by
  sum_by-append f [] ys = omega arith
  sum_by-append f (x ∷ xs) ys = omega (arith, sum_by-append f xs ys)

  pub sum_by-perm : (f : A → ℕ) {xs ys : List A} → Permᴰ xs ys → sum_by f xs ≡ sum_by f ys
  unfolding sum_by
  sum_by-perm f Permᴰ.nil = refl
  sum_by-perm f (Permᴰ.cons e p) = omega (arith, ap f e, sum_by-perm f p)
  sum_by-perm f (Permᴰ.swap e d) = omega (arith, ap f e, ap f d)
  sum_by-perm f (Permᴰ.trans p q) = sum_by-perm f p ∙ sum_by-perm f q

  -- A filtered sum is the sum that counts the other rows as nothing.
  abbrev masked : (A → ℕ) → (A → Bool) → A → ℕ
  masked f p x = if p x then f x else 0

  sum_by-filter :
      (f : A → ℕ) (p : A → Bool) (xs : List A) → sum_by f (filter p xs) ≡ sum_by (masked f p) xs
  unfolding sum_by filter
  sum_by-filter f p [] = refl
  sum_by-filter f p (x ∷ xs) = ground (arith, sum_by-filter f p xs)

  count_if-sum : (p : A → Bool) (xs : List A) → count_if p xs ≡ sum_by (masked (λ x. 1) p) xs
  unfolding sum_by count_if
  count_if-sum p [] = refl
  count_if-sum p (x ∷ xs) = omega (arith, count_if-sum p xs)

  pub sum_by-filter-perm :
      (f : A → ℕ) (p : A → Bool) {xs ys : List A}
      → Permᴰ xs ys
      → sum_by f (filter p xs) ≡ sum_by f (filter p ys)
  sum_by-filter-perm f p {xs} {ys} h =
      omega (arith, sum_by-filter f p xs, sum_by-filter f p ys, sum_by-perm (masked f p) h)

  pub count_if-perm : (p : A → Bool) {xs ys : List A} → Permᴰ xs ys → count_if p xs ≡ count_if p ys
  count_if-perm p {xs} {ys} h =
      omega (arith, count_if-sum p xs, count_if-sum p ys, sum_by-perm (masked (λ x. 1) p) h)

  pub sum_by-filter-append :
      (f : A → ℕ) (p : A → Bool) (xs ys : List A)
      → sum_by f (filter p (xs ++ ys)) ≡ sum_by f (filter p xs) + sum_by f (filter p ys)
  sum_by-filter-append f p xs ys = omega (
    arith,
    sum_by-filter f p (xs ++ ys),
    sum_by-filter f p xs,
    sum_by-filter f p ys,
    sum_by-append (masked f p) xs ys,
  )

  pub sum_by-filter-le :
      (f : A → ℕ) (p : A → Bool) (xs : List A) → sum_by f (filter p xs) ≤ sum_by f xs
  unfolding sum_by filter
  sum_by-filter-le f p [] = omega arith
  sum_by-filter-le f p (x ∷ xs) = ground (arith, sum_by-filter-le f p xs)

  -- A test that every row passes changes no sum.
  pub sum_by-filter_self :
      (f : A → ℕ) (p : A → Bool) (xs : List A)
      → All (λ x. p x ≡ true) xs
      → sum_by f (filter p xs) ≡ sum_by f xs
  unfolding sum_by filter
  sum_by-filter_self f p [] h = refl
  sum_by-filter_self f p (x ∷ xs) h = ground (arith, sum_by-filter_self f p xs)

  -- Rows that carry nothing may be dropped first.
  pub sum_by-filter-filter :
      (f : A → ℕ) (p q : A → Bool) (xs : List A)
      → ((x : A) → q x ≡ false → f x ≡ 0)
      → sum_by f (filter p (filter q xs)) ≡ sum_by f (filter p xs)
  unfolding sum_by filter
  sum_by-filter-filter f p q [] h = refl
  sum_by-filter-filter f p q (x ∷ xs) h = elim (Bool-cases (q x)) [
    | inl e ↦ ground (arith, sum_by-filter-filter f p q xs)
    | inr e ↦ ground (arith, h x e, sum_by-filter-filter f p q xs)
  ]

  pub sum_by-take-suc-le :
      (f : A → ℕ) (x : A) (k : ℕ) (xs : List A)
      → All (λ y. f y ≤ f x) xs
      → sum_by f (take (suc k) xs) ≤ f x + sum_by f (take k xs)
  unfolding sum_by take
  sum_by-take-suc-le f x k [] h = omega arith
  sum_by-take-suc-le f x zero (y ∷ ys) h = omega (arith, h.0)
  sum_by-take-suc-le f x (suc k) (y ∷ ys) h = omega (arith, sum_by-take-suc-le f x k ys h.1)

  -- Among selections of at most `k` rows of a descending list, the first `k` carry the most.
  pub sum_by-filter-le-take :
      (f : A → ℕ) (p : A → Bool) (k : ℕ) (xs : List A)
      → Sorted (λ a b. f b ≤ f a) xs
      → count_if p xs ≤ k
      → sum_by f (filter p xs) ≤ sum_by f (take k xs)
  unfolding sum_by filter take count_if
  sum_by-filter-le-take f p k [] s h = omega arith
  sum_by-filter-le-take f p zero (x ∷ xs) s h =
      ground (arith, sum_by-filter-le-take f p zero xs s.1)
  sum_by-filter-le-take f p (suc k) (x ∷ xs) s h = ground (
    arith,
    sum_by-filter-le-take f p k xs s.1,
    sum_by-filter-le-take f p (suc k) xs s.1,
    sum_by-take-suc-le f x k xs s.0,
  )

  pub sum_by-filter_ext :
      (f : A → ℕ) (p q : A → Bool) (xs : List A)
      → ((x : A) → p x ≡ q x)
      → sum_by f (filter p xs) ≡ sum_by f (filter q xs)
  unfolding sum_by filter
  sum_by-filter_ext f p q [] h = refl
  sum_by-filter_ext f p q (x ∷ xs) h = rw (h x) (elim (Bool-cases (q x)) [
    | inl e ↦ rw e (omega (arith, sum_by-filter_ext f p q xs h))
    | inr e ↦ rw e (sum_by-filter_ext f p q xs h)
  ])

  pub sum_by-filter_none :
      (f : A → ℕ) (p : A → Bool) (xs : List A)
      → ((x : A) → p x ≡ false)
      → sum_by f (filter p xs) ≡ 0
  unfolding sum_by filter
  sum_by-filter_none f p [] h = refl
  sum_by-filter_none f p (x ∷ xs) h = rw (h x) (sum_by-filter_none f p xs h)

  pub count_if-or-le :
      (p q : A → Bool) (xs : List A) → count_if (λ x. p x || q x) xs ≤ count_if p xs + count_if q xs
  unfolding count_if
  count_if-or-le p q [] = omega arith
  count_if-or-le p q (x ∷ xs) = ground (arith, count_if-or-le p q xs)

  pub count_if_none : (p : A → Bool) (xs : List A) → All (λ x. p x ≡ false) xs → count_if p xs ≡ 0
  unfolding count_if
  count_if_none p [] h = refl
  count_if_none p (x ∷ xs) h = ground (arith, count_if_none p xs h.1)

  pub sum_by-filter_split :
      (f : A → ℕ) (p : A → Bool) (k : ℕ) (xs : List A)
      → sum_by f (filter p xs) ≡ sum_by f (filter p (take k xs)) + sum_by f (filter p (drop k xs))
  sum_by-filter_split f p k xs =
      ap (λ l. sum_by f (filter p l)) (sym (take-append-drop k xs))
      ∙ sum_by-filter-append f p (take k xs) (drop k xs)
