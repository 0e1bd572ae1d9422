-- ===== src/RealInput/Pilot/Laws.antt =====
-- What a pilot that passes has established.
use memory_tiering.Prelude.{
  ℕ, ◌≡◌, inl, inr, refl, sym, ap, ◌∙◌, List, [], ◌∷◌, true, Option, none, map, not, ◌&&◌, ◌||◌,
  all, Bool-cases, arith,
}
use mathlib.Core.Path.{subst}
use memory_tiering.RealInput.Csr.{Induced, Outcome, induce, failed, induced}
use memory_tiering.RealInput.Runs.{
  cases, baseline, local_bbl, Row, NativeResult, native_error, expected, native_runs, CaseResults,
  cases_error, rows, run_cases,
}
use memory_tiering.RealInput.Runs.Laws.{
  AreAnswered, AreCounted, case_of, run_cases-rows, NativeAnswer, native_runs-NativeAnswer,
  answered_rows,
}
use memory_tiering.RealInput.Pilot.{
  World, Report, gate_holds, exit_code, has_full_window, reported, verdict, exact_outputs,
  after_native, after_graph, main,
}

verdict-reported :
    (w : World) (g : Induced) (known : Option ℕ) (cs : CaseResults) (r : Report)
    → verdict w g known cs ≡ reported r
    → (cs ≡ rows r.runs)
      × (r.graph ≡ g)
      × (r.expected_triangles ≡ known)
      × (r.passed ≡ (all (λ x. x.audited) r.runs && exact_outputs w r.runs))
unfolding verdict
verdict-reported w g known (cases_error e) r h = absurd (ground arith)
verdict-reported w g known (rows rs) r h =
    let same : r ≡ record {
      graph = g;
      expected_triangles = known;
      runs = rs;
      passed = all (λ x. x.audited) rs && exact_outputs w rs;
      every_case_has_full_event_window = all has_full_window rs;
    } =
      cc in
    rw same (refl, refl, refl, refl)

after_native-reported :
    (w : World) (g : Induced) (nr : NativeResult) (r : Report)
    → after_native w g nr ≡ reported r
    → (m : Option ℕ) × (nr ≡ expected m) × (verdict w g m (run_cases w.runs m 0 cases) ≡ reported r)
unfolding after_native
after_native-reported w g (native_error e) r h = absurd (ground arith)
after_native-reported w g (expected m) r h = (m, refl, h)

after_graph-reported :
    (w : World) (o : Outcome) (r : Report)
    → after_graph w o ≡ reported r
    → (g : Induced) × (o ≡ induced g)
      × (after_native w g (native_runs w.native (1 ∷ 20 ∷ []) none) ≡ reported r)
unfolding after_graph
after_graph-reported w (failed e) r h = absurd (ground arith)
after_graph-reported w (induced g) r h = (g, refl, h)

exact_outputs-same : (w : World) (rs : List Row) → exact_outputs w rs ≡ true → w.same_outputs ≡ true
unfolding exact_outputs
exact_outputs-same w [] h = h
exact_outputs-same w (a ∷ []) h = h
exact_outputs-same w (a ∷ b ∷ rs) h = ground (arith, h)

-- What a report that passes says, with the native count `n`.
pub record IsPassed (w : World) (denominator : ℕ) (r : Report) (n : ℕ) : Type 0 where
  pub frozen : (w.same_source ≡ true) × (w.same_tools ≡ true)
  pub gate : gate_holds w.gate ≡ true
  pub graph : induce w.source denominator ≡ induced r.graph
  pub native : NativeAnswer w.native n
  pub cases_run :
      map case_of r.runs
      ≡ (1, baseline)
        ∷ (1, local_bbl)
        ∷ (20, baseline)
        ∷ (20, local_bbl)
        ∷ (20, local_bbl)
        ∷ (20, baseline)
        ∷ []
  pub answers : AreCounted n w.runs 0 r.runs
  pub outputs : w.same_outputs ≡ true

checked-IsPassed :
    (w : World) (denominator : ℕ) (r : Report)
    → after_graph w (induce w.source denominator) ≡ reported r
    → w.same_source ≡ true
    → w.same_tools ≡ true
    → gate_holds w.gate ≡ true
    → r.passed ≡ true
    → (n : ℕ) × IsPassed w denominator r n
checked-IsPassed w denominator r h s t g p =
    let (graph, is_graph, native) = after_graph-reported w (induce w.source denominator) r h in
    let (m, is_native, ending) =
      after_native-reported w graph (native_runs w.native (1 ∷ 20 ∷ []) none) r native in
    let (n, m_n, answer) = native_runs-NativeAnswer w.native m is_native in
    let (runs, same_graph, known, passed) =
      verdict-reported w graph m (run_cases w.runs m 0 cases) r ending in
    let parts = run_cases-rows w.runs m 0 cases r.runs runs in
    let both : (all (λ x. x.audited) r.runs && exact_outputs w r.runs) ≡ true = sym passed ∙ p in
    (
      n,
      record {
        frozen = (s, t);
        gate = g;
        graph = is_graph ∙ ap induced (sym same_graph);
        native = answer;
        cases_run = unfold cases in parts.0;
        answers =
            answered_rows n w.runs 0 r.runs (ground (arith, both))
              (subst (λ k. AreAnswered k w.runs 0 r.runs) m_n parts.1);
        outputs = exact_outputs-same w r.runs (ground (arith, both));
      },
    )

-- A pilot that exits with success: the frozen hashes agree and the gate holds, the graph was induced,
-- both native runs exited with 0 and the log of each has one count, the same, and the report has the
-- six cases that are written out, in their order: each of its own run, which exited with 0, whose
-- histograms pass and whose log has that one count. The outputs of the first two cases are the same.
pub main-IsPassed :
    (w : World) (denominator : ℕ) (r : Report)
    → main w denominator ≡ reported r
    → exit_code r ≡ 0
    → (n : ℕ) × IsPassed w denominator r n
unfolding main exit_code
main-IsPassed w denominator r h z =
    let p : r.passed ≡ true = ground (arith, z) in
    elim (Bool-cases (not w.same_source || not w.same_tools)) [
      | inl e ↦ absurd (ground (arith, h, e))
      | inr e ↦ elim (Bool-cases (gate_holds w.gate)) [
        | inr d ↦ absurd (ground (arith, h, e, d))
        | inl d ↦
            checked-IsPassed w denominator r (rw (e, d) at h) (ground (arith, e))
              (ground (arith, e)) d p
      ]
    ]
