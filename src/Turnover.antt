-- ===== src/Turnover.antt =====
-- src/analysis/hotset_turnover.py: how much of the hot set of a window is still hot in the next.
-- A quotient is kept as its two sides, and the means over windows are left out: the result is the
-- list of the values that they are taken of.
pub mod Laws
use memory_tiering.Prelude.{
  ℕ, ◌+◌, ◌-◌, ◌%◌, ◌^◌, ltb, ◌≡◌, List, [], ◌∷◌, ◌++◌, Bool, true, false, Option, some, none, map,
  ◌==◌, if◌then◌else◌, filter, take, length, contains, to_set, sum_by,
}
use memory_tiering.Prelude.Int.{ℤ, pos, negsuc}
use memory_tiering.Numpy.{Numpy}
use memory_tiering.Trace.{Record, accesses, in_epoch}
use memory_tiering.Trace.Load.{PagesFile, Loaded, load_pages}

pub record Ratio : Type 0 where
  pub num : ℕ
  pub den : ℕ

-- `x.astype(np.int64)` of a number below 2 ^ 64.
unfoldable pub int64 : ℕ → ℤ
int64 x = if ltb x (2 ^ 63) then pos x else negsuc (2 ^ 64 - 1 - x)

-- `-x` in int64, for the accesses of a record.
unfoldable pub hotness : Record → ℤ
unfolding int64
hotness r = int64 ((2 ^ 64 - accesses r) % 2 ^ 64)

-- Page numbers of the k hottest pages; `none` is the ValueError of a k that is not positive.
unfoldable pub top_k_of_epoch : Numpy → List Record → ℕ → Option (List ℕ)
unfolding hotness
top_k_of_epoch np recs k =
    if length recs == 0
    then some []
    else if k == 0
    then none
    else some (map (λ r. r.page) (take k (np.lexsort (λ r. r.page) hotness recs)))

-- A quotient of two int64 sums.
pub record Quotient : Type 0 where
  pub num : ℤ
  pub den : ℤ

-- What one pair of neighbouring windows adds to the four lists.
pub record Change : Type 0 where
  pub retention : Ratio
  pub jaccard : Ratio
  pub coverage : Option Quotient
  pub concentration : Option Quotient

-- The sum of an int64 array, which wraps.
unfoldable pub int64_sum : List Record → ℤ
unfolding int64
int64_sum rows = int64 (sum_by accesses rows % 2 ^ 64)

-- The accesses of a window that fall in given pages: `acc_b[np.isin(rb['page'], pages)].sum()`.
unfoldable pub landed : List ℕ → List Record → ℤ
unfolding int64_sum
landed pages rows = int64_sum (filter (λ r. contains pages r.page) rows)

unfoldable pub is_zero : ℤ → Bool
is_zero (pos n) = n == 0
is_zero (negsuc n) = false

unfoldable pub share : List ℕ → List Record → Option Quotient
unfolding landed int64_sum is_zero
share pages rows =
    if is_zero (int64_sum rows)
    then none
    else some (record { num = landed pages rows; den = int64_sum rows })

unfoldable pub change : List ℕ → List ℕ → List Record → Change
unfolding share
change pa pb rb =
    let sa = to_set pa in
    let sb = to_set pb in
    let inter = length (filter (contains sb) sa) in
    record {
      retention = record { num = inter; den = length sa };
      jaccard = record { num = inter; den = length (to_set (sa ++ sb)) };
      coverage = share pa rb;
      concentration = share pb rb;
    }

add_change : List ℕ → List ℕ → List Record → Option (List Change) → Option (List Change)
add_change [] pb rb rest = rest
add_change (p ∷ pa) [] rb rest = rest
add_change (p ∷ pa) (q ∷ pb) rb none = none
add_change (p ∷ pa) (q ∷ pb) rb (some cs) = some (change (p ∷ pa) (q ∷ pb) rb ∷ cs)

-- The loop over neighbouring windows; the first ValueError ends it.
unfoldable pub changes : Numpy → ℕ → List Record → ℕ → List ℕ → Option (List Change)
unfolding add_change
changes np k recs a [] = some []
changes np k recs a (b ∷ later) =
    let rest = changes np k recs b later in
    elim (top_k_of_epoch np (in_epoch recs a) k) [
      | none ↦ none
      | some pa ↦ elim (top_k_of_epoch np (in_epoch recs b) k) [
        | none ↦ none
        | some pb ↦ add_change pa pb (in_epoch recs b) rest
      ]
    ]

pub data Analysis : Type 0 where
  refused : Loaded → Analysis
  value_error nothing : Analysis
  insufficient : ℕ → Analysis
  turnover : ℕ → List Change → Analysis

analyse_changes : ℕ → Option (List Change) → Analysis
analyse_changes n none = value_error
analyse_changes n (some []) = nothing
analyse_changes n (some (c ∷ cs)) = turnover n (c ∷ cs)

analyse_epochs : Numpy → ℕ → List Record → List ℕ → Analysis
analyse_epochs np k recs [] = insufficient 0
analyse_epochs np k recs (a ∷ []) = insufficient 1
analyse_epochs np k recs (a ∷ b ∷ later) =
    analyse_changes (length (a ∷ b ∷ later)) (changes np k recs a (b ∷ later))

analyse_records : Numpy → ℕ → Loaded → Analysis
analyse_records np k (Loaded.loaded recs) =
    if length recs == 0
    then nothing
    else analyse_epochs np k recs (np.unique (map (λ r. r.epoch) recs))
analyse_records np k e = refused e

unfoldable pub analyse : Numpy → PagesFile → ℕ → Analysis
unfolding analyse_records analyse_epochs analyse_changes
analyse np file k = analyse_records np k (load_pages file true false)
