-- ===== src/Curves.antt =====
-- src/analysis/hotskew.py: the curves and shares of a run (`Run`), and the same curve from its summary.
-- A quotient is kept as its two sides, and a nan is `none`. A line of the summary is what Python's
-- string functions find in it.
pub mod Summary
pub mod Laws
pub mod Shares
use memory_tiering.Prelude.{
  ℕ, ◌+◌, ◌-◌, ◌*◌, ◌≡◌, List, [], ◌∷◌, ◌++◌, Bool, true, false, Option, some, none, map, ltb, leb,
  ◌==◌, if◌then◌else◌, length, sum_by, count_if, take, drop,
}
use mathlib.Core.List.{reverse}
use memory_tiering.Prelude.Int.{pos}
use memory_tiering.Numpy.{Numpy}
use memory_tiering.Trace.{Record, accesses, popcount64, in_epoch}
use memory_tiering.Turnover.{Ratio}

abbrev pub fig4_n : List ℕ
fig4_n = 4 ∷ 8 ∷ 16 ∷ 32 ∷ 48 ∷ []

unfoldable pub unique_words : Numpy → List Record → List ℕ
unique_words np recs = map (λ r. popcount64 np r.mask) recs

-- The rows that `_top_k_mask` keeps of one epoch, and of all.
unfoldable pub top_k_rows : Numpy → ℕ → List Record → List Record
top_k_rows np k rows =
    if ltb k (length rows) then take k (reverse (np.argsort accesses rows)) else rows

unfoldable pub top_k_of : Numpy → ℕ → List Record → List ℕ → List Record
unfolding top_k_rows
top_k_of np k recs [] = []
top_k_of np k recs (e ∷ es) = top_k_rows np k (in_epoch recs e) ++ top_k_of np k recs es

unfoldable pub top_k_mask : Numpy → ℕ → List Record → List Record
unfolding top_k_of
top_k_mask np k recs = top_k_of np k recs (np.unique (map (λ r. r.epoch) recs))

-- `float((uw <= n).mean())`
unfoldable pub at_most : List ℕ → ℕ → Option Ratio
at_most uw n =
    if length uw == 0
    then none
    else some (record { num = count_if (λ u. leb u n) uw; den = length uw })

unfoldable pub population : Numpy → Option ℕ → List Record → List Record
unfolding top_k_mask
population np none recs = recs
population np (some k) recs = top_k_mask np k recs

-- The curve at the points of `ns`.
unfoldable pub figure4_cdf : Numpy → List Record → List ℕ → Option ℕ → List (Option Ratio)
unfolding at_most unique_words population
figure4_cdf np recs ns top_k = map (at_most (unique_words np (population np top_k recs))) ns

unfoldable pub density : Numpy → List Record → List Ratio
unfolding unique_words
density np recs = map (λ u. record { num = u; den = 64 }) (unique_words np recs)

-- `np.sort(w)[-k:]` of a row; `-0` is 0, so for `k = 0` it is the whole row.
unfoldable pub hottest : Numpy → ℕ → List ℕ → List ℕ
hottest np k words =
    let sorted = np.argsort (λ c. c) words in
    if k == 0 then sorted else drop (length words - k) sorted

unfoldable pub top_word_share : Numpy → ℕ → List Record → Option Ratio
unfolding hottest
top_word_share np k recs =
    let part = sum_by (λ r. sum_by (λ c. c) (hottest np k r.words)) recs in
    let total = sum_by (λ r. sum_by (λ c. c) r.words) recs in
    if total == 0 then none else some (record { num = part; den = total })

-- `1.0 - uw.mean() / WORDS_PER_PAGE`
unfoldable pub wasted_migration_bytes : Numpy → List Record → Option Ratio
unfolding unique_words
wasted_migration_bytes np recs =
    let uw = unique_words np recs in
    if length uw == 0
    then none
    else some (record { num = 64 * length uw - sum_by (λ u. u) uw; den = 64 * length uw })
