-- ===== src/Examples/Pilots.antt =====
-- A pilot on a graph of ten vertices, and a study of which one run is cut off.
use Prim.Native.String.{String}
use memory_tiering.Prelude.{
  ℕ, zero, suc, ◌<◌, ◌≡◌, refl, ◌==◌, if◌then◌else◌, List, [], ◌∷◌, true, false, Option, some, none,
  map, all, any, take, drop, contains, count_if,
}
use memory_tiering.Prelude.Int.{ℤ, pos, ◌+ℤ◌}
use memory_tiering.RealInput.Csr.{Source, Induced, induced, induce}
use memory_tiering.RealInput.Csr.Laws.{AreRows, source_of}
use memory_tiering.RealInput.Csr.Whole.{induce-source_of}
use memory_tiering.Histogram.{int_eq}
use memory_tiering.RealInput.Runs
use memory_tiering.RealInput.Runs.{Native, CaseRun, baseline, local_bbl}
use memory_tiering.RealInput.Pilot
use memory_tiering.RealInput.Pilot.{Gate, Report, main, reported}
use memory_tiering.RealInput.Pilot.Laws.{IsPassed, main-IsPassed}
use memory_tiering.Profile.Parse.{CsvRow, Attribution, parse_report, parsed_rows}
use memory_tiering.Profile.Parse.Laws.{IsAttribution, parse_report-IsAttribution}
use memory_tiering.Profile.Study as Sampled
use memory_tiering.Profile.Study.{ProfileRun, Profile, Study, completed}
use memory_tiering.Profile.Study.Laws.{case_of, AreProfiles, main-AreProfiles}

abbrev copies : {A : Type 0} → ℕ → A → List A
copies zero x = []
copies (suc n) x = x ∷ copies n x

abbrev source : Source
source = record {
  directed = false;
  edges = pos 4;
  nodes = pos 10;
  size = 121;
  offsets = map pos (0 ∷ 1 ∷ 1 ∷ 1 ∷ 1 ∷ 1 ∷ 1 ∷ 3 ∷ 3 ∷ 3 ∷ 4 ∷ []);
  neighbors = map pos (6 ∷ 0 ∷ 9 ∷ 6 ∷ []);
}

abbrev graph : Induced
graph = record {
  nodes = 2;
  directed_entries = 2;
  offsets = 0 ∷ 1 ∷ 2 ∷ [];
  adjacency = (1 ∷ []) ∷ (0 ∷ []) ∷ [];
  bytes = 49;
}

induced_runs : induce source 4 ≡ induced graph
unfolding induce int_eq any take drop contains
induced_runs = refl

induce-source_of_example :
    (0 < 2) × AreRows 2 0 graph.adjacency × (induce (source_of graph) 1 ≡ induced graph)
induce-source_of_example = induce-source_of source 4 graph induced_runs

abbrev child : Runs.Child
child = record { samples = (5 ∷ 6 ∷ []) ∷ (4 ∷ []) ∷ []; exit_code = some (pos 0) }

abbrev native : Native
native = record { child = child; matches = 7 ∷ [] }

abbrev case_run : CaseRun
case_run = record {
  child = child;
  histograms_pass = true;
  matches = 7 ∷ [];
  window_accesses = some (1000000 ∷ 20 ∷ []);
}

abbrev pilot : Pilot.World
pilot = record {
  same_source = true;
  same_tools = true;
  gate = record {
    passed = true;
    same_candidate = true;
    same_baseline = true;
    instruction_guard = true;
    exact_matches = copies 14 true;
    audits = copies 50 true;
  };
  source = source;
  native = λ threads. native;
  runs = λ index. case_run;
  same_outputs = true;
}

abbrev answered : ℕ × Runs.Tool → Runs.Row
answered (threads, tool) = record {
  case = tool;
  threads = threads;
  status = Runs.complete;
  audited = true;
  triangles = some 7;
  full_event_windows = some 1;
}

report : Report
unfolding Runs.cases
report = record {
  graph = graph;
  expected_triangles = some 7;
  runs = map answered Runs.cases;
  passed = true;
  every_case_has_full_event_window = true;
}

pilot_runs : main pilot 4 ≡ reported report
unfolding main report all induce int_eq any take drop contains count_if
pilot_runs = refl

main-IsPassed_example : (n : ℕ) × IsPassed pilot 4 report n
unfolding report Pilot.exit_code
main-IsPassed_example = main-IsPassed pilot 4 report pilot_runs refl

abbrev csv : List CsvRow
csv =
    record {
      fields = 5;
      comment = false;
      float_read = true;
      period = some (pos 30);
      samples = some (pos 3);
      dso = "hotskew.so";
      symbol = "[.] AnalyzeMemRef";
    }
    ∷ record {
      fields = 5;
      comment = false;
      float_read = true;
      period = some (pos 50);
      samples = some (pos 5);
      dso = "[unknown]";
      symbol = "[.] 0x00007f";
    }
    ∷ record {
      fields = 1;
      comment = true;
      float_read = false;
      period = none;
      samples = none;
      dso = "";
      symbol = "";
    }
    ∷ []

-- A stand-in for `str.lower` on the two symbols.
abbrev lower : String → String
lower s = s

attribution : Attribution
unfolding parse_report
attribution = elim (parse_report lower csv) [
  | some a ↦ a
  | none ↦ record { total_period = pos 0; total_samples = pos 0; groups = []; top_symbols = [] }
]

attribution_runs : parse_report lower csv ≡ some attribution
unfolding parse_report attribution ◌+ℤ◌
attribution_runs = refl

parse_report-IsAttribution_example : IsAttribution (parsed_rows lower csv) attribution
parse_report-IsAttribution_example =
    parse_report-IsAttribution lower csv attribution attribution_runs

abbrev run_of : Option ℤ → ProfileRun
run_of code = record {
  child = record { samples = (record { rss = 8; ticks = 2 } ∷ []) ∷ []; exit_code = code };
  has_manifest = true;
  histograms_pass = true;
  matches = 957682 ∷ [];
  perf_report = some csv;
}

abbrev runs : ℕ → ProfileRun
runs index = if index == 3 then run_of none else run_of (some (pos 0))

abbrev studied : Sampled.World
studied = record { same_graph = true; same_tools = true; runs = runs; same_outputs = true }

study : Study
unfolding Sampled.main
study = elim (Sampled.main lower studied) [
  | completed s ↦ s
  | Sampled.failed e ↦ record { profiles = []; one_thread_exact_outputs = none }
]

study_runs : Sampled.main lower studied ≡ completed study
unfolding Sampled.main study parse_report ◌+ℤ◌ int_eq
study_runs = refl

main-AreProfiles_example :
    (true ≡ true)
    × (true ≡ true)
    × (map case_of study.profiles
        ≡ (1, baseline)
          ∷ (1, local_bbl)
          ∷ (20, baseline)
          ∷ (20, local_bbl)
          ∷ (20, local_bbl)
          ∷ (20, baseline)
          ∷ [])
    × AreProfiles lower runs 0 study.profiles
main-AreProfiles_example = main-AreProfiles lower studied study study_runs
