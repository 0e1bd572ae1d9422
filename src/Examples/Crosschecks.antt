-- ===== src/Examples/Crosschecks.antt =====
-- The checks of finished runs at small populations.
use Prim.Native.String.{String}
use memory_tiering.Prelude.{
  ℕ, zero, suc, ◌+◌, ◌*◌, ◌^◌, ◌≤◌, ◌<◌, ◌≡◌, refl, List, [], ◌∷◌, ◌++◌, true, false, some, none,
  ◌==◌, if◌then◌else◌, leb, count_if, contains, arith,
}
use memory_tiering.Prelude.Int.{pos}
use memory_tiering.Histogram.{Row}
use memory_tiering.Numpy.{Float64}
use memory_tiering.Crosscheck.Paired.{PairedRun, checked_histograms, publish_compact, same_hist}
use memory_tiering.Crosscheck.Paired.Laws.{checked_histograms-publish_compact}
use memory_tiering.Crosscheck.Paired
use memory_tiering.Crosscheck.Paired.{Counted, histogram}
use memory_tiering.Crosscheck.Audit.{Audited, audit_run}
use memory_tiering.Crosscheck.Simulator
use memory_tiering.Crosscheck.Simulator.{
  Line, Actual, Bins, Summary, validated_histogram, passed, touches, check,
}
use memory_tiering.Crosscheck.Simulator.Laws.{IsPopulated, validated_histogram-IsPopulated}

abbrev two_pages : ℕ → ℕ
two_pages k = if k == 3 then 2 else 0

abbrev rows_of : String → String → String → ℕ → ℕ → List Row
rows_of scope stream population word zero = []
rows_of scope stream population word (suc n) =
    record {
      scope = scope;
      stream = stream;
      population = population;
      words = pos word;
      pages = pos (two_pages word);
      events = pos 6;
    }
    ∷ rows_of scope stream population (word + 1) n

abbrev streams : String → List Row
streams scope =
    rows_of scope "accesses" "own" 0 65
    ++ rows_of scope "fills" "own" 0 65
    ++ rows_of scope "traffic" "own" 0 65

abbrev paired_run : PairedRun
paired_run = record {
  complete = true;
  warm_setup = false;
  compact = none;
  raw =
      streams "epoch"
      ++ streams "pooled"
      ++ streams "whole"
      ++ rows_of "pooled" "accesses" "fill_pages" 0 65
      ++ rows_of "pooled" "fills" "fill_pages" 0 65;
  mem_refs_profiled = pos 6;
  dram_accesses = pos 6;
  unique_hist = two_pages;
}

exact_bound :
    (a f s : ℕ)
    → 0 < s
    → a ≤ s
    → f ≤ s
    → leb (a * 10 ^ 12) (f * 10 ^ 12 + s) ≡ true
    → a * 10 ^ 15 ≤ f * 10 ^ 15 + 1001 * s
exact_bound a f s p q r h =
    let le : a * 10 ^ 12 ≤ f * 10 ^ 12 + s = ground (arith, h) in omega (arith, le)

-- A comparison without rounding.
abbrev exact : Float64
exact = record { cdf_le = λ a f s. leb (a * 10 ^ 12) (f * 10 ^ 12 + s); cdf_le_bound = exact_bound }

checked_histograms-publish_compact_example :
    checked_histograms exact (publish_compact paired_run none) ≡ checked_histograms exact paired_run
checked_histograms-publish_compact_example = checked_histograms-publish_compact exact paired_run

abbrev header_line : Line
header_line = record { header = true; comment = true; blank = false; fields = [] }

abbrev bin_lines : ℕ → ℕ → List Line
bin_lines word zero = []
bin_lines word (suc n) =
    record {
      header = false;
      comment = false;
      blank = false;
      fields = some (pos word) ∷ some (pos (two_pages word)) ∷ [];
    }
    ∷ bin_lines (word + 1) n

abbrev job_numbers : Actual
job_numbers = record { events = 9; epochs = 1; pages = 2 }

bins : Bins
unfolding validated_histogram
bins = elim (validated_histogram (header_line ∷ bin_lines 0 65) job_numbers job_numbers) [
  | passed b ↦ b
  | Simulator.refused e ↦ record { pages = λ k. 0; keys = [] }
]

histogram_runs :
    validated_histogram (header_line ∷ bin_lines 0 65) job_numbers job_numbers ≡ passed bins
unfolding validated_histogram bins count_if contains
histogram_runs = refl

validated_histogram-IsPopulated_example :
    IsPopulated (header_line ∷ bin_lines 0 65) job_numbers job_numbers bins
validated_histogram-IsPopulated_example =
    validated_histogram-IsPopulated (header_line ∷ bin_lines 0 65) job_numbers job_numbers bins
      histogram_runs

filled : String → Counted
filled stream = elim (histogram paired_run.raw "pooled" stream "fill_pages") [
  | Paired.passed c ↦ c
  | Paired.rejected e ↦ record { hist = λ k. 0; events = pos 0 }
]

audited : Audited
audited = elim (audit_run exact paired_run) [
  | Paired.passed a ↦ a
  | Paired.rejected e ↦ record {
    accesses_seen = record { pooled_hist = filled "accesses"; whole_hist = filled "accesses" };
    fills_seen = record { pooled_hist = filled "fills"; whole_hist = filled "fills" };
    traffic_seen = record { pooled_hist = filled "fills"; whole_hist = filled "fills" };
  }
]
