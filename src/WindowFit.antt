-- ===== src/WindowFit.antt =====
-- src/analysis/window_fit.py: the windows merged, and the merge factors with the least error. A quotient
-- is kept as its two sides and compared by cross-multiplication; the published values are in thousandths.
pub mod Main
pub mod Laws
pub mod Fits
pub mod Loading
use Prim.Native.Nat.{bit_or}
use Prim.Native.String.{String}
use text.Mathlib.Text.{◌==◌ as str_eq}
use memory_tiering.Prelude.{
  ℕ, zero, suc, ◌+◌, ◌-◌, ◌*◌, ◌/◌, List, [], ◌∷◌, Bool, true, false, Option, some, none, map, ltb,
  leb, ◌==◌, if◌then◌else◌, ◌&&◌, length, sum_by, count_if,
}
use memory_tiering.Prelude.Int.{pos}
use memory_tiering.Numpy.{Numpy}
use memory_tiering.Trace.{Record, popcount64}
use memory_tiering.Turnover.{Ratio}

unfoldable pub same_key : ℕ → Record → Record → Bool
same_key m a b = (a.epoch / m == b.epoch / m) && (a.page == b.page)

-- `np.bitwise_or.at(merged, idx, masks)` over runs of equal keys, `mask` being the last run's so far.
unfoldable pub merge_runs : ℕ → ℕ → Record → List Record → List ℕ
unfolding same_key
merge_runs m mask last [] = mask ∷ []
merge_runs m mask last (r ∷ rs) =
    let more = merge_runs m (bit_or mask r.mask) r rs in
    let fresh = merge_runs m r.mask r rs in if same_key m last r then more else mask ∷ fresh

unfoldable pub merged_masks : ℕ → List Record → List ℕ
unfolding merge_runs
merged_masks m [] = []
merged_masks m (r ∷ rs) = merge_runs m r.mask r rs

-- The words of each merged page: `uw`.
unfoldable pub merged_words : Numpy → ℕ → List Record → List ℕ
unfolding merged_masks
merged_words np m recs =
    map (popcount64 np) (merged_masks m (np.lexsort (λ r. r.page) (λ r. pos (r.epoch / m)) recs))

pub data Cdf : Type 0 where
  value_error no_cdf : Cdf
  -- `uw`, of which the curve at `n` is the share of values up to `n`.
  of_words : List ℕ → Cdf

unfoldable pub cdf_at_merge : Numpy → List Record → ℕ → Cdf
unfolding merged_words
cdf_at_merge np recs m =
    if ltb m 1
    then value_error
    else if length recs == 0
    then no_cdf
    else if length (merged_words np m recs) == 0
    then no_cdf
    else of_words (merged_words np m recs)

abbrev pub Table : Type 0
Table = List (String × List ℕ)

-- `M5_TEXT_P16` and `M5_TEXT_P47`, in thousandths.
unfoldable pub m5_text_p16 : Table
m5_text_p16 =
    ("redis", 860 ∷ [])
    ∷ ("memcached", 760 ∷ [])
    ∷ ("cachelib", 740 ∷ [])
    ∷ ("liblinear", 150 ∷ [])
    ∷ ("gapbs-bc", 40 ∷ [])
    ∷ ("gapbs-bfs", 170 ∷ [])
    ∷ ("gapbs-cc", 200 ∷ [])
    ∷ ("gapbs-tc", 120 ∷ [])
    ∷ []

unfoldable pub m5_text_p47 : Table
m5_text_p47 = ("gapbs-pr", 20 ∷ []) ∷ ("gapbs-sssp", 110 ∷ []) ∷ []

-- `M5_FIGURE4` at 4, 8, 16, 32 and 48 words, in thousandths.
unfoldable pub m5_figure4 : Table
m5_figure4 =
    ("liblinear", 60 ∷ 100 ∷ 150 ∷ 250 ∷ 380 ∷ [])
    ∷ ("gapbs-bc", 5 ∷ 20 ∷ 40 ∷ 90 ∷ 145 ∷ [])
    ∷ ("gapbs-bfs", 50 ∷ 110 ∷ 170 ∷ 260 ∷ 345 ∷ [])
    ∷ ("gapbs-cc", 60 ∷ 125 ∷ 200 ∷ 290 ∷ 385 ∷ [])
    ∷ ("gapbs-pr", 0 ∷ 0 ∷ 5 ∷ 10 ∷ 20 ∷ [])
    ∷ ("gapbs-sssp", 5 ∷ 15 ∷ 25 ∷ 70 ∷ 110 ∷ [])
    ∷ ("gapbs-tc", 20 ∷ 50 ∷ 120 ∷ 265 ∷ 520 ∷ [])
    ∷ ("cactuBSSN_r", 5 ∷ 10 ∷ 25 ∷ 45 ∷ 75 ∷ [])
    ∷ ("fotonik3d_r", 5 ∷ 90 ∷ 95 ∷ 110 ∷ 120 ∷ [])
    ∷ ("mcf_r", 5 ∷ 5 ∷ 10 ∷ 30 ∷ 75 ∷ [])
    ∷ ("roms_r", 15 ∷ 30 ∷ 80 ∷ 190 ∷ 340 ∷ [])
    ∷ ("cachelib", 560 ∷ 700 ∷ 740 ∷ 795 ∷ 855 ∷ [])
    ∷ ("memcached", 380 ∷ 600 ∷ 755 ∷ 860 ∷ 965 ∷ [])
    ∷ ("redis", 510 ∷ 765 ∷ 865 ∷ 925 ∷ 940 ∷ [])
    ∷ []

unfoldable pub lookup : Table → String → Option (List ℕ)
lookup [] name = none
lookup ((k, v) ∷ rest) name =
    let later = lookup rest name in if str_eq k name then some v else later

unfoldable pub distance : ℕ → ℕ → ℕ
distance a b = (a - b) + (b - a)

-- `1000 * total * abs(cdf[n] - value)`
unfoldable pub gap : List ℕ → ℕ → ℕ → ℕ
unfolding distance
gap uw n value = distance (count_if (λ u. leb u n) uw * 1000) (value * length uw)

unfoldable pub gaps : List ℕ → List ℕ → List ℕ → ℕ
unfolding gap
gaps uw (n ∷ ns) (v ∷ vs) = gap uw n v + gaps uw ns vs
gaps uw ns vs = 0

pub data Target : Type 0 where
  prose digitised : Target

-- The mean over the five points.
unfoldable pub digitised_error : List ℕ → List ℕ → Ratio
unfolding gaps
digitised_error uw values = record {
  num = gaps uw (4 ∷ 8 ∷ 16 ∷ 32 ∷ 48 ∷ []) values;
  den = 5 * (1000 * length uw);
}

unfoldable pub point_error : List ℕ → ℕ → List ℕ → Ratio
unfolding gaps
point_error uw n values = record { num = gaps uw (n ∷ []) values; den = 1000 * length uw }

-- `none` is a KeyError.
unfoldable pub figure_error : String → List ℕ → Option Ratio
unfolding digitised_error lookup m5_figure4
figure_error bench uw = elim (lookup m5_figure4 bench) [
  | none ↦ none
  | some values ↦ some (digitised_error uw values)
]

unfoldable pub error_for : Target → String → List ℕ → Option Ratio
unfolding figure_error point_error lookup m5_text_p16 m5_text_p47
error_for digitised bench uw = figure_error bench uw
error_for prose bench uw = elim (lookup m5_text_p16 bench) [
  | some values ↦ some (point_error uw 16 values)
  | none ↦ elim (lookup m5_text_p47 bench) [
    | some values ↦ some (point_error uw 47 values)
    | none ↦ figure_error bench uw
  ]
]
