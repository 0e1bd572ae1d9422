-- ===== src/Recompute/Report.antt =====
-- src/analysis/revalidate_extensions.py, `analyse`: the checks against the summary, and the report
-- that is made of a run that passes them. A quotient is kept as its two sides.
pub mod Laws
use memory_tiering.Prelude.{
  ℕ, zero, suc, ◌+◌, ◌*◌, ◌-◌, ◌≡◌, List, [], ◌∷◌, ◌++◌, Bool, true, false, Option, some, none, map,
  ltb, leb, ◌==◌, if◌then◌else◌, not, ◌&&◌, ◌||◌, length, sum_by, filter, all,
}
use memory_tiering.Prelude.Int.{ℤ, pos, negsuc}
use memory_tiering.Numpy.{Numpy}
use memory_tiering.Trace.Load.{Summary}
use memory_tiering.Study.{Policy, oracle, count_only, hpt_driven, hwt_driven}
use memory_tiering.Turnover.{Change, Ratio}
use memory_tiering.Recompute.Windows.{RawFile, epochs}
use memory_tiering.Recompute.Checks.{
  Failure, incomplete_collection, capped_records, uncovered, cdf_mismatch, invalid_tracker_ratio,
  Group,
}
use memory_tiering.Recompute.Placing.{
  Fraction, fractions, migrations, Placed, Placing, same_fraction, same_policy,
}
use memory_tiering.Recompute.Tally.{Tally, Counted, counted, failed, ks, run_stream}

-- A ratio in the tracker's file, as `num / den` with a positive `den`.
pub record TrackerRatio : Type 0 where
  pub num : ℤ
  pub den : ℕ

pub record TrackerRow : Type 0 where
  pub hpt_access_ratio : TrackerRatio
  pub hwt_access_ratio : TrackerRatio

-- `0 <= float(row[field]) <= 1.000001`
unfoldable pub ratio_valid : TrackerRatio → Bool
ratio_valid r = elim (r.num) [ negsuc n ↦ false | pos n ↦ leb (n * 1000000) (r.den * 1000001) ]

unfoldable pub row_valid : TrackerRow → Bool
unfolding ratio_valid
row_valid r = ratio_valid r.hpt_access_ratio && ratio_valid r.hwt_access_ratio

-- The files of a prefix. `summary.epochs` is what `expected('epochs')` reads.
pub record Prefix : Type 0 where
  pub summary : Summary
  pub epochs : ℕ
  pub raw : RawFile
  pub tracker : List TrackerRow

-- An entry of `placement_cost`.
pub record CostEntry : Type 0 where
  pub fraction : Fraction
  pub policy : Policy
  pub migration_ns : ℕ
  pub capacity_pages : ℕ
  pub fast_events : ℕ
  pub cost : ℕ
  pub promotions : ℕ
  pub evaluation_events : ℕ

unfoldable pub entry_rows : List Placed → Fraction → Policy → ℕ → List Placed
entry_rows rows f p mig =
    filter (λ r. same_fraction r.fraction f && same_policy r.policy p && (r.migration_ns == mig))
      rows

unfoldable pub entry : List Placed → ℕ → ℕ → Fraction → Policy → ℕ → List CostEntry
unfolding entry_rows
entry all_rows count capacity f p mig =
    let rows = entry_rows all_rows f p mig in
    if not (length rows == (count - 1)) || (length rows == 0)
    then []
    else record {
      fraction = f;
      policy = p;
      migration_ns = mig;
      capacity_pages = capacity;
      fast_events = sum_by (λ r. r.fast_events) rows;
      cost = sum_by (λ r. r.serial_cost_ns) rows;
      promotions = sum_by (λ r. r.promotions) rows;
      evaluation_events = sum_by (λ r. r.events) rows;
    }
      ∷ []

abbrev pub policies : List Policy
policies = count_only ∷ hpt_driven ∷ hwt_driven ∷ oracle ∷ []

unfoldable pub flat_map : {A B : Type 0} → (A → List B) → List A → List B
flat_map f [] = []
flat_map f (x ∷ xs) = f x ++ flat_map f xs

unfoldable pub cost_model : Tally → List CostEntry
unfolding entry flat_map
cost_model t =
    flat_map
      (λ f.
        flat_map (λ p. flat_map (entry t.placing.rows t.count (t.capacities f) f p) migrations)
          policies)
      fractions

-- An entry of `turnover`: the rows that its means and its weighted quotients are taken of.
pub record TurnoverEntry : Type 0 where
  pub k : ℕ
  pub transitions : ℕ
  pub rows : List Change

unfoldable pub turnover_entry : Tally → ℕ → List TurnoverEntry
turnover_entry t k =
    if length (t.turnover k) == 0
    then []
    else record { k = k; transitions = length (t.turnover k); rows = t.turnover k } ∷ []

pub record Report : Type 0 where
  pub epochs : ℕ
  pub page_observations : ℕ
  pub events : ℕ
  pub saturated_words : Bool
  pub tracker_word_scores_valid : Bool
  pub granularity : List Group
  pub turnover : List TurnoverEntry
  pub placement_cost : List CostEntry
  pub tracker : List TrackerRow

pub data Outcome : Type 0 where
  error : Failure → Outcome
  validated : Report → Outcome

unfoldable pub report_of : Tally → List TrackerRow → Report
unfolding cost_model turnover_entry flat_map
report_of t tracker = record {
  epochs = t.count;
  page_observations = t.observed;
  events = t.events;
  saturated_words = t.saturated;
  tracker_word_scores_valid = not t.saturated;
  granularity = t.granularity;
  turnover = flat_map (turnover_entry t) ks;
  placement_cost = cost_model t;
  tracker = tracker;
}

unfoldable pub numbers_eq : List ℕ → List ℕ → Bool
numbers_eq [] [] = true
numbers_eq (x ∷ xs) (y ∷ ys) = (x == y) && numbers_eq xs ys
numbers_eq _ _ = false

unfoldable pub bins : (ℕ → ℕ) → ℕ → ℕ → List ℕ
bins hist first zero = []
bins hist first (suc n) = hist first ∷ bins hist (first + 1) n

unfoldable pub misses : Prefix → Tally → Bool
misses files t =
    not (t.observed == files.summary.page_observations)
    || not (t.events == files.summary.dram_accesses)
    || not (t.count == files.epochs)

unfoldable pub other_histogram : Prefix → Tally → Bool
unfolding numbers_eq bins
other_histogram files t = not (numbers_eq (bins t.histogram 0 65) files.summary.unique_hist)

unfoldable pub check_tally : Prefix → Tally → Outcome
unfolding misses other_histogram row_valid report_of
check_tally files t =
    if misses files t
    then error uncovered
    else if other_histogram files t
    then error cdf_mismatch
    else if not (all row_valid files.tracker)
    then error invalid_tracker_ratio
    else validated (report_of t files.tracker)

unfoldable pub counted_outcome : Prefix → Counted → Outcome
unfolding check_tally
counted_outcome files (failed e) = error e
counted_outcome files (counted t) = check_tally files t

unfoldable pub analyse : Numpy → Prefix → Outcome
unfolding counted_outcome
analyse np files =
    if not files.summary.collection_complete
    then error incomplete_collection
    else if files.summary.capped
    then error capped_records
    else counted_outcome files (run_stream np (epochs files.raw))
