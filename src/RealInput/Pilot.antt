-- ===== src/RealInput/Pilot.antt =====
-- experiments/validate_pin_real_input.py, `main`: the checks before the runs, and the report.
pub mod Laws
use memory_tiering.Prelude.{
  ℕ, zero, suc, ◌+◌, max, List, [], ◌∷◌, ◌++◌, Bool, true, false, Option, some, none, map, ltb, leb,
  ◌==◌, if◌then◌else◌, not, ◌&&◌, ◌||◌, length, sum_by, count_if, all,
}
use memory_tiering.Prelude.Int.{ℤ, pos}
use memory_tiering.Histogram.{int_eq}
use memory_tiering.RealInput.Csr
use memory_tiering.RealInput.Csr.{Source, Induced, Outcome, induce, failed, induced}
use memory_tiering.RealInput.Runs.{
  Failure, changed_hash, no_gate, bad_graph, Native, NativeResult, native_error, expected,
  native_runs, Tool, cases, CaseRun, Row, CaseResults, cases_error, rows, run_cases,
}

-- The recorded gate of the earlier validation.
pub record Gate : Type 0 where
  pub passed : Bool
  pub same_candidate : Bool
  pub same_baseline : Bool
  pub instruction_guard : Bool
  pub exact_matches : List Bool
  pub audits : List Bool

pub record World : Type 0 where
  pub same_source : Bool
  pub same_tools : Bool
  pub gate : Gate
  pub source : Source
  pub native : ℕ → Native
  pub runs : ℕ → CaseRun
  -- `.epochs.csv` and `.paired.csv` of the first two cases are equal, byte for byte.
  pub same_outputs : Bool

unfoldable pub gate_holds : Gate → Bool
gate_holds g =
    g.passed
    && g.same_candidate
    && g.same_baseline
    && g.instruction_guard
    && (length g.exact_matches == 14)
    && all (λ b. b) g.exact_matches
    && (length g.audits == 50)
    && all (λ b. b) g.audits

pub record Report : Type 0 where
  pub graph : Induced
  pub expected_triangles : Option ℕ
  pub runs : List Row
  pub passed : Bool
  pub every_case_has_full_event_window : Bool

pub data Verdict : Type 0 where
  raised : Failure → Verdict
  reported : Report → Verdict

unfoldable pub has_full_window : Row → Bool
has_full_window r = elim (r.full_event_windows) [ none ↦ false | some n ↦ ltb 0 n ]

-- `report.get('one_thread_exact_outputs')`
unfoldable pub exact_outputs : World → List Row → Bool
exact_outputs w (a ∷ b ∷ more) = a.audited && b.audited && w.same_outputs
exact_outputs w _ = w.same_outputs

unfoldable pub verdict : World → Induced → Option ℕ → CaseResults → Verdict
unfolding has_full_window exact_outputs
verdict w g known (cases_error e) = raised e
verdict w g known (rows rs) = reported (record {
  graph = g;
  expected_triangles = known;
  runs = rs;
  passed = all (λ r. r.audited) rs && exact_outputs w rs;
  every_case_has_full_event_window = all has_full_window rs;
})

unfoldable pub after_native : World → Induced → NativeResult → Verdict
unfolding run_cases verdict cases
after_native w g (native_error e) = raised e
after_native w g (expected known) = verdict w g known (run_cases w.runs known 0 cases)

unfoldable pub after_graph : World → Outcome → Verdict
unfolding native_runs after_native
after_graph w (failed e) = raised (bad_graph e)
after_graph w (induced g) = after_native w g (native_runs w.native (1 ∷ 20 ∷ []) none)

-- `--denominator` is 4 or 8.
unfoldable pub main : World → ℕ → Verdict
unfolding gate_holds after_graph
main w denominator =
    if not w.same_source || not w.same_tools
    then raised changed_hash
    else if not (gate_holds w.gate)
    then raised no_gate
    else after_graph w (induce w.source denominator)

unfoldable pub exit_code : Report → ℕ
exit_code r = if r.passed then 0 else 1
