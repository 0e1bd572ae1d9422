-- ===== src/Examples/Recomputed.antt =====
-- The sweep and the recomputation at the trace of three windows.
use memory_tiering.Prelude.{
  ℕ, zero, suc, ◌≡◌, refl, List, [], ◌∷◌, true, false, map, length, sum_by, take, drop, any, all,
  count_if, filter, contains, to_set,
}
use memory_tiering.Numpy.Reference.{reference, sort_rows, distinct_values}
use memory_tiering.Trace.{accesses, in_epoch, popcount64}
use memory_tiering.Trace.Load.{saturates}
use memory_tiering.Recompute.Windows.{RawFile, epochs, finished, cut_all}
use memory_tiering.Recompute.Windows.Laws.{one_pass, epochs-one_pass}
use memory_tiering.Recompute.Windows.Contents.{joined, numbers, epochs-in_epoch}
use memory_tiering.Recompute.Tally.{empty_tally, run_stream, run_windows}
use memory_tiering.Recompute.Checks.{window_failure}
use memory_tiering.Recompute.Report.{Prefix, Report, analyse, validated, error, report_of}
use memory_tiering.Recompute.Report.Laws.{IsCovered, analyse-IsCovered}
use memory_tiering.Examples.Analysis.{trace}

abbrev raw : RawFile
raw = record { records = trace; trailing = 0 }

epochs-one_pass_example : epochs raw ≡ one_pass trace
epochs-one_pass_example = epochs-one_pass raw refl

epochs_runs : (epochs raw).ending ≡ finished
unfolding epochs take drop cut_all
epochs_runs = refl

epochs-in_epoch_example :
    (raw.trailing ≡ 0)
    × (joined (epochs raw).yielded ≡ trace)
    × ((epochs raw).yielded ≡ map (in_epoch trace) (numbers 0 (length (epochs raw).yielded)))
epochs-in_epoch_example = epochs-in_epoch raw epochs_runs

abbrev zeros : ℕ → List ℕ
zeros zero = []
zeros (suc n) = 0 ∷ zeros n

abbrev files : Prefix
files = record {
  summary = record {
    capped = false;
    page_observations = 5;
    dram_accesses = 21;
    collection_complete = true;
    unique_hist = 0 ∷ 3 ∷ 1 ∷ 1 ∷ zeros 61;
  };
  epochs = 3;
  raw = raw;
  tracker = [];
}

found : Report
found = elim (analyse reference files) [ validated r ↦ r | error e ↦ report_of empty_tally [] ]

analyse_runs : analyse reference files ≡ validated found
unfolding analyse found epochs take drop cut_all any all accesses sum_by count_if filter
    distinct_values sort_rows contains to_set saturates run_stream window_failure run_windows
    popcount64
analyse_runs = refl

analyse-IsCovered_example : IsCovered reference files found
analyse-IsCovered_example = analyse-IsCovered reference files found analyse_runs
