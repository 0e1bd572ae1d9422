-- ===== src/Examples/Analysis.antt =====
-- A trace of three windows, analysed with the concrete array library.
use memory_tiering.Prelude.{
  sum_by-filter-le, ◌==◌, ℕ, ◌+◌, ◌-◌, ◌*◌, ◌≤◌, ◌≡◌, refl, List, [], ◌∷◌, true, false, none, arith,
  All, any, sum_by, take, filter, count_if,
}
use memory_tiering.Numpy.{bit_count}
use memory_tiering.Numpy.Reference.{reference, sort_rows, distinct_values}
use memory_tiering.Trace.{Record, accesses, popcount64, in_epoch, page_bytes}
use memory_tiering.Trace.Bits.{popcount64-bits}
use memory_tiering.Trace.Load.{PagesFile, load_pages}
use memory_tiering.Placement.{fixed_capacity}
use memory_tiering.Study
use memory_tiering.Study.{Setting, Study, study, score_epochs, Policy}
use memory_tiering.Study.Laws.{DistinctWindows, DistinctWindows-of_keys, captured-le-oracle}
use memory_tiering.Study.Bytes.{useful-le-allocated}
use memory_tiering.Latency
use memory_tiering.Latency.{Latencies, Tier, Cost, cost}
use memory_tiering.Latency.Bounds.{stall_bounds, stall-oracle-le}
use memory_tiering.Turnover.{Change, changes, turnover, analyse, top_k_of_epoch, change}
use memory_tiering.Turnover.Laws.{IsShare, SmallWindows, analyse-IsShare}

abbrev record_of : ℕ → ℕ → ℕ → ℕ → List ℕ → Record
record_of e p n mask words = record {
  epoch = e;
  page = p;
  reads = n;
  writes = 1;
  mask = mask;
  words = words;
}

abbrev pub trace : List Record
trace =
    record_of 0 7 4 3 (3 ∷ 2 ∷ 0 ∷ [])
    ∷ record_of 0 8 1 4 (0 ∷ 0 ∷ 2 ∷ [])
    ∷ record_of 1 7 1 1 (2 ∷ 0 ∷ 0 ∷ [])
    ∷ record_of 1 9 8 7 (3 ∷ 3 ∷ 3 ∷ [])
    ∷ record_of 2 8 2 2 (0 ∷ 3 ∷ 0 ∷ [])
    ∷ []

abbrev pub dump : PagesFile
dump = record {
  present = true;
  size = 820;
  records = trace;
  summary = record {
    capped = false;
    page_observations = 5;
    dram_accesses = 21;
    collection_complete = true;
    unique_hist = [];
  };
}

trace-DistinctWindows : DistinctWindows trace
trace-DistinctWindows = DistinctWindows-of_keys trace (ground arith)

abbrev setting : Setting
setting = record { frac_num = 1; frac_den = 2; words_num = 2; words_den = 1; tracker = none }

abbrev measured : Study
measured = record {
  epochs = 3;
  capacity_pages = 1;
  totals = score_epochs reference setting 1 trace 0 (1 ∷ 2 ∷ []) Study.no_totals;
}

evaluate_runs : Study.evaluate reference setting dump ≡ study measured
unfolding Study.evaluate load_pages fixed_capacity distinct_values accesses sum_by any count_if
evaluate_runs = refl

abbrev latencies : Latencies
latencies = record {
  fast = 100;
  slow = 220;
  migration = 3000;
  words_num = 8;
  words_den = 1;
  frac_num = 1;
  frac_den = 2;
}

abbrev costed : Cost
costed = record {
  epochs = 3;
  capacity_pages = 1;
  tier = Latency.run_epochs reference latencies 1 trace 0 (1 ∷ 2 ∷ []) Latency.cold;
}

latency_runs : Latency.evaluate reference latencies dump ≡ cost costed
unfolding Latency.evaluate load_pages fixed_capacity distinct_values accesses sum_by any count_if
    filter Latency.run_epochs Latency.run_window in_epoch
latency_runs = refl

popcount64-bits_example : popcount64 reference 0xf00f ≡ bit_count 64 0xf00f
popcount64-bits_example = popcount64-bits reference 0xf00f (omega arith)

captured-le-oracle_example :
    (measured.totals.captured Policy.count_only ≤ measured.totals.captured Policy.oracle)
    × (measured.totals.captured Policy.count_only ≤ measured.totals.total)
captured-le-oracle_example =
    captured-le-oracle reference setting dump measured Policy.count_only trace-DistinctWindows
      evaluate_runs

useful-le-allocated_example :
    (measured.totals.useful Policy.hwt_driven ≤ measured.totals.allocated Policy.hwt_driven)
    × (measured.totals.allocated Policy.hwt_driven ≤ (3 - 1) * (1 * page_bytes))
useful-le-allocated_example =
    useful-le-allocated reference setting dump measured Policy.hwt_driven trace-DistinctWindows
      (omega arith) evaluate_runs

stall_bounds_example :
    (costed.tier.stall Latency.all_local
        + costed.tier.migs (Latency.placed Policy.count_only) * 3000
      ≤ costed.tier.stall (Latency.placed Policy.count_only))
    × (costed.tier.stall (Latency.placed Policy.count_only)
        ≤ costed.tier.stall Latency.all_cxl
          + costed.tier.migs (Latency.placed Policy.count_only) * 3000)
    × (costed.tier.migs (Latency.placed Policy.count_only) ≤ (3 - 1) * 1)
stall_bounds_example =
    stall_bounds reference latencies dump costed Policy.count_only (omega arith)
      trace-DistinctWindows latency_runs

stall-oracle-le_example :
    costed.tier.stall (Latency.placed Policy.oracle)
      + costed.tier.migs (Latency.placed Policy.hpt_driven) * 3000
    ≤ costed.tier.stall (Latency.placed Policy.hpt_driven)
      + costed.tier.migs (Latency.placed Policy.oracle) * 3000
stall-oracle-le_example =
    stall-oracle-le reference latencies dump costed Policy.hpt_driven (omega arith)
      trace-DistinctWindows latency_runs

abbrev pairs : List Change
pairs = change (9 ∷ []) (8 ∷ []) (in_epoch trace 2) ∷ []

abbrev hot_changes : List Change
hot_changes =
    change (7 ∷ []) (9 ∷ []) (in_epoch trace 1) ∷ change (9 ∷ []) (8 ∷ []) (in_epoch trace 2) ∷ []

analyse_runs : analyse reference dump 1 ≡ turnover 3 hot_changes
unfolding analyse load_pages distinct_values accesses sum_by changes top_k_of_epoch in_epoch filter
    take sort_rows
analyse_runs = refl

trace-SmallWindows : SmallWindows trace
unfolding in_epoch
trace-SmallWindows e =
    omega (arith, sum_by-filter-le accesses (λ r. r.epoch == e) trace, trace_total)
  where
    trace_total : sum_by accesses trace ≡ 21
    trace_total = unfold accesses sum_by in refl

analyse-IsShare_example : All IsShare hot_changes
analyse-IsShare_example =
    analyse-IsShare reference dump 1 3 hot_changes trace-DistinctWindows trace-SmallWindows
      analyse_runs
