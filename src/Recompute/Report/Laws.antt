-- ===== src/Recompute/Report/Laws.antt =====
-- What a validated report says of the raw records.
use memory_tiering.Prelude.{
  ℕ, zero, suc, ◌+◌, ◌≡◌, inl, inr, refl, sym, ap, ◌∙◌, List, [], ◌∷◌, Bool, true, false, map,
  if◌then◌else◌, not, length, sum_by, all, All, Bool-cases, arith,
}
use memory_tiering.Numpy.{Numpy}
use memory_tiering.Trace.{accesses, in_epoch}
use memory_tiering.Recompute.Windows.{Ending, finished, epochs}
use memory_tiering.Recompute.Windows.Contents.{joined, numbers, epochs-in_epoch}
use memory_tiering.Recompute.Checks.{Failure}
use memory_tiering.Recompute.Tally.{
  Tally, empty_tally, bincount, Counted, counted, failed, run_windows, run_stream, ending_failure,
}
use memory_tiering.Recompute.Tally.Laws.{IsSound, Adds, run_windows-Adds}
use memory_tiering.Recompute.Report.{
  Prefix, Report, error, validated, numbers_eq, bins, row_valid, misses, other_histogram,
  check_tally, counted_outcome, report_of, analyse,
}

numbers_eq_lem : (xs ys : List ℕ) → numbers_eq xs ys ≡ true → xs ≡ ys
unfolding numbers_eq
numbers_eq_lem [] [] h = refl
numbers_eq_lem [] (y ∷ ys) h = absurd (ground arith)
numbers_eq_lem (x ∷ xs) [] h = absurd (ground arith)
numbers_eq_lem (x ∷ xs) (y ∷ ys) h =
    let same : x ≡ y = ground (arith, h) in
    let rest : xs ≡ ys = numbers_eq_lem xs ys (ground (arith, h)) in cc

bins_agree : (f g : ℕ → ℕ) (first n : ℕ) → ((k : ℕ) → f k ≡ g k) → bins f first n ≡ bins g first n
unfolding bins
bins_agree f g first zero h = refl
bins_agree f g first (suc n) h =
    let here = h first in let rest = bins_agree f g (first + 1) n h in cc

-- What a validated report covers.
pub record IsCovered (np : Numpy) (files : Prefix) (r : Report) : Type 0 where
  pub complete : files.summary.collection_complete ≡ true
  pub uncapped : files.summary.capped ≡ false
  pub whole : files.raw.trailing ≡ 0
  pub observations : r.page_observations ≡ length files.raw.records
  pub observations_summary : r.page_observations ≡ files.summary.page_observations
  pub accesses_total : r.events ≡ sum_by accesses files.raw.records
  pub accesses_summary : r.events ≡ files.summary.dram_accesses
  pub epochs_summary : r.epochs ≡ files.epochs
  pub histogram_summary : files.summary.unique_hist ≡ bins (bincount np files.raw.records) 0 65
  pub ratios : all row_valid files.tracker ≡ true
  pub windows : All (IsSound np) (map (in_epoch files.raw.records) (numbers 0 r.epochs))

not-false : (b : Bool) → not b ≡ false → b ≡ true
not-false b h = ground arith

misses_none :
    (files : Prefix) (t : Tally)
    → misses files t ≡ false
    → (t.observed ≡ files.summary.page_observations)
      × (t.events ≡ files.summary.dram_accesses)
      × (t.count ≡ files.epochs)
unfolding misses
misses_none files t h = ground arith

histogram_same :
    (files : Prefix) (t : Tally)
    → other_histogram files t ≡ false
    → numbers_eq (bins t.histogram 0 65) files.summary.unique_hist ≡ true
unfolding other_histogram
histogram_same files t h = not-false _ h

three_checks :
    (a b c : Bool) (e f g : Failure) (found r : Report)
    → (if a then error e else if b then error f else if c then error g else validated found)
      ≡ validated r
    → (a ≡ false) × (b ≡ false) × (c ≡ false) × (r ≡ found)
three_checks a b c e f g found r h = ground arith

check_tally-validated :
    (files : Prefix) (t : Tally) (r : Report)
    → check_tally files t ≡ validated r
    → (t.observed ≡ files.summary.page_observations)
      × (t.events ≡ files.summary.dram_accesses)
      × (t.count ≡ files.epochs)
      × (numbers_eq (bins t.histogram 0 65) files.summary.unique_hist ≡ true)
      × (all row_valid files.tracker ≡ true)
      × (r ≡ report_of t files.tracker)
unfolding check_tally
check_tally-validated files t r h =
    let (covered, histogram, tracked, same) =
      three_checks (misses files t) (other_histogram files t) (not (all row_valid files.tracker)) _
        _ _ (report_of t files.tracker) r h in
    let (observed, events, count) = misses_none files t covered in
    (
      observed,
      events,
      count,
      histogram_same files t histogram,
      not-false (all row_valid files.tracker) tracked,
      same,
    )

check_tally-IsCovered :
    (np : Numpy) (files : Prefix) (t : Tally) (r : Report)
    → files.summary.collection_complete ≡ true
    → files.summary.capped ≡ false
    → (epochs files.raw).ending ≡ finished
    → Adds np (epochs files.raw).yielded empty_tally t
    → check_tally files t ≡ validated r
    → IsCovered np files r
unfolding check_tally report_of
check_tally-IsCovered np files t r c u f a h =
    let (obs, ev, ct, hist, ratios, same) = check_tally-validated files t r h in
    let (trailing, all_records, windows) = epochs-in_epoch files.raw f in
    let parts = joined (epochs files.raw).yielded in
    let observed : t.observed ≡ length parts = omega (arith, a.observed) in
    let events : t.events ≡ sum_by accesses parts = omega (arith, a.events) in
    let count : length (epochs files.raw).yielded ≡ t.count = omega (arith, a.count) in
    rw same (record {
      complete = c;
      uncapped = u;
      whole = trailing;
      observations = observed ∙ ap (λ l. length l) all_records;
      observations_summary = obs;
      accesses_total = events ∙ ap (sum_by accesses) all_records;
      accesses_summary = ev;
      epochs_summary = ct;
      histogram_summary =
          sym (numbers_eq_lem _ _ hist)
          ∙ bins_agree t.histogram (bincount np files.raw.records) 0 65
              (λ k. omega (arith, a.histogram k, ap (λ l. bincount np l k) all_records));
      ratios = ratios;
      windows = rw (sym count, sym windows) a.sound;
    })

ending_failure-counted :
    (e : Ending) (c : Counted) (t : Tally)
    → ending_failure e c ≡ counted t
    → (e ≡ finished) × (c ≡ counted t)
unfolding ending_failure
ending_failure-counted finished c t h = (refl, h)
ending_failure-counted Ending.truncated (failed f) t h = absurd (ground arith)
ending_failure-counted Ending.truncated (counted u) t h = absurd (ground arith)
ending_failure-counted Ending.non_consecutive (failed f) t h = absurd (ground arith)
ending_failure-counted Ending.non_consecutive (counted u) t h = absurd (ground arith)
ending_failure-counted Ending.bad_final (failed f) t h = absurd (ground arith)
ending_failure-counted Ending.bad_final (counted u) t h = absurd (ground arith)
ending_failure-counted Ending.out_of_fuel (failed f) t h = absurd (ground arith)
ending_failure-counted Ending.out_of_fuel (counted u) t h = absurd (ground arith)

counted_outcome-validated :
    (files : Prefix) (c : Counted) (r : Report)
    → counted_outcome files c ≡ validated r
    → (t : Tally) × (c ≡ counted t) × (check_tally files t ≡ validated r)
unfolding counted_outcome
counted_outcome-validated files (failed e) r h = absurd (ground arith)
counted_outcome-validated files (counted t) r h = (t, refl, h)

-- A validated report is of a complete run that is not capped, whose raw file is whole. Its
-- observations, accesses, epochs and histogram are those of all the raw records and those of the
-- summary. The windows are the records of the epochs 0, 1, ..., and in each no page stands twice,
-- every mask has as many bits as the record has nonzero counters, and the counters of a record
-- sum to its accesses unless one of the window is saturated. Every tracker ratio is in range.
pub analyse-IsCovered :
    (np : Numpy) (files : Prefix) (r : Report)
    → analyse np files ≡ validated r
    → IsCovered np files r
unfolding analyse run_stream
analyse-IsCovered np files r h = elim (Bool-cases (files.summary.collection_complete)) [
  | inr e ↦ absurd (ground (arith, h))
  | inl e ↦ elim (Bool-cases (files.summary.capped)) [
    | inl d ↦ absurd (ground (arith, h))
    | inr d ↦
        let (t, c, k) =
          counted_outcome-validated files (run_stream np (epochs files.raw)) r (rw (e, d) at h) in
        let (f, w) =
          ending_failure-counted (epochs files.raw).ending
            (run_windows np (epochs files.raw).yielded empty_tally) t c in
        check_tally-IsCovered np files t r e d f
          (run_windows-Adds np (epochs files.raw).yielded empty_tally t w) k
  ]
]
