-- ===== src/Numpy.antt =====
-- The array library that src/analysis calls, as an interface: the operations whose code is not in
-- this repository, with what their documentation promises. Index arrays returned by `np.lexsort`
-- are used at once to reorder rows, so `lexsort` returns the reordered rows.

pub mod Reference
use memory_tiering.Prelude.{
  Bool, true, ◌*◌, ℕ, ◌+◌, ◌%◌, ◌/◌, ◌≤◌, ◌<◌, ◌^◌, ◌≡◌, ◌⊎◌, List, Option, some, Permᴰ, length,
  contains, count_if, ltb, leb, Sorted,
}
use memory_tiering.Prelude.Int.{ℤ, ◌<ℤ◌}
use memory_tiering.Prelude.{zero, suc}

-- The order of `np.lexsort((second, first))`: the last key is the primary one.
abbrev pub RowLe : {A : Type 0} → (A → ℕ) → (A → ℤ) → A → A → Type 0
RowLe second first a b = (first a <ℤ first b) ⊎ ((first a ≡ first b) × (second a ≤ second b))

-- The number of ones among the lowest `w` binary digits.
unfoldable pub bit_count : ℕ → ℕ → ℕ
bit_count zero x = 0
bit_count (suc w) x = x % 2 + bit_count w (x / 2)

pub record Numpy : Type 1 where
  pub lexsort : {A : Type 0} → (A → ℕ) → (A → ℤ) → List A → List A
  pub lexsort_perm :
      {A : Type 0} (second : A → ℕ) (first : A → ℤ) (rows : List A)
      → Permᴰ (lexsort second first rows) rows
  pub lexsort_sorted :
      {A : Type 0} (second : A → ℕ) (first : A → ℤ) (rows : List A)
      → Sorted (RowLe second first) (lexsort second first rows)
  -- `np.argsort`: ascending by the key, in no set order among equal keys.
  pub argsort : {A : Type 0} → (A → ℕ) → List A → List A
  pub argsort_perm : {A : Type 0} (key : A → ℕ) (rows : List A) → Permᴰ (argsort key rows) rows
  pub argsort_sorted :
      {A : Type 0} (key : A → ℕ) (rows : List A) → Sorted (λ a b. key a ≤ key b) (argsort key rows)
  -- `np.unique`: the distinct values, ascending.
  pub unique : List ℕ → List ℕ
  pub unique_sorted : (xs : List ℕ) → Sorted ◌<◌ (unique xs)
  pub unique_contains : (xs : List ℕ) (a : ℕ) → contains (unique xs) a ≡ contains xs a
  -- `np.partition(xs, k)[k]`: the value at place `k` of the ascending order.
  pub kth : List ℕ → ℕ → ℕ
  pub kth_low : (xs : List ℕ) (k : ℕ) → k < length xs → count_if (λ x. ltb x (kth xs k)) xs ≤ k
  pub kth_high : (xs : List ℕ) (k : ℕ) → k < length xs → k < count_if (λ x. leb x (kth xs k)) xs
  -- `np.bitwise_count`, which versions before 2.0 lack.
  pub bitwise_count : Option (ℕ → ℕ)
  pub bitwise_count_bits :
      (f : ℕ → ℕ) → bitwise_count ≡ some f → (x : ℕ) → x < 2 ^ 64 → f x ≡ bit_count 64 x

-- The test `a / s <= f / s + 1e-12` on float64 numbers. It is no more permissive than the exact one
-- with the rounding of its two quotients and of the sum, which for quotients up to 1 is below 1e-15.
pub record Float64 : Type 0 where
  pub cdf_le : ℕ → ℕ → ℕ → Bool
  pub cdf_le_bound :
      (a f s : ℕ)
      → 0 < s
      → a ≤ s
      → f ≤ s
      → cdf_le a f s ≡ true
      → a * 10 ^ 15 ≤ f * 10 ^ 15 + 1001 * s
