-- ===== src/RealInput/Runs/Laws.antt =====
-- What the rows of the cases and the native counts say.
use memory_tiering.Prelude.{
  ℕ, ◌+◌, ◌≡◌, ◌⊎◌, inl, inr, refl, sym, ap, ◌∙◌, List, [], ◌∷◌, Bool, true, false, Option, some,
  none, map, ◌==◌, all, Bool-cases, arith,
}
use memory_tiering.Prelude.Int.{ℤ, pos, negsuc}
use memory_tiering.Histogram.{int_eq}
use memory_tiering.RealInput.Runs.{
  triangles, CaseStatus, complete, timeout, case_failed, measured, Tool, CaseRun, Native, Row,
  Child, status_of, NativeResult, native_error, expected, native_count, native_run, native_runs,
  is_expected, audited_row, status_row, after_case, after_run, native_status, CaseResult,
  case_error, row, case_row, CaseResults, cases_error, rows, cons_row, run_cases,
}

-- The log of a run has one count, which is the known one, and its histograms pass.
abbrev Passes : Option ℕ → Bool → Option ℕ → Row → Type 0
Passes known pass count x =
    (x.status ≡ complete) × (pass ≡ true) × (count ≡ known) × (x.triangles ≡ known)

-- The row of a run is not audited, or the run exited with 0 and passes.
unfoldable pub IsAnswered : Option ℕ → CaseRun → Row → Type 0
IsAnswered known r x =
    (x.audited ≡ false)
    ⊎ ((r.child.exit_code ≡ some (pos 0)) × Passes known r.histograms_pass (triangles r.matches) x)

-- The rows are those of the runs, from an index on.
unfoldable pub AreAnswered : Option ℕ → (ℕ → CaseRun) → ℕ → List Row → Type 0
AreAnswered known runs index [] = Unit
AreAnswered known runs index (x ∷ xs) =
    IsAnswered known (runs index) x × AreAnswered known runs (index + 1) xs

int_eq-pos : (z : ℤ) (n : ℕ) → int_eq z (pos n) ≡ true → z ≡ pos n
unfolding int_eq
int_eq-pos (pos m) n h = ground arith
int_eq-pos (negsuc m) n h = absurd (cc)

status_of-complete : (o : Option ℤ) → status_of o ≡ complete → o ≡ some (pos 0)
unfolding status_of
status_of-complete none h = absurd (cc)
status_of-complete (some code) h = elim (Bool-cases (int_eq code (pos 0))) [
  | inl e ↦ ap (λ z. some z) (int_eq-pos code 0 e)
  | inr e ↦ absurd (ground (arith, h, e))
]

measured-complete : (c : Child) → (measured c).status ≡ complete → c.exit_code ≡ some (pos 0)
unfolding measured
measured-complete c h = status_of-complete c.exit_code h

triangles-one : (ms : List ℕ) (n : ℕ) → triangles ms ≡ some n → ms ≡ n ∷ []
unfolding triangles
triangles-one [] n h = absurd (cc)
triangles-one (m ∷ []) n h = cc
triangles-one (m ∷ k ∷ ms) n h = absurd (cc)

unfoldable pub case_of : Row → ℕ × Tool
case_of r = (r.threads, r.case)

is_expected_lem : (n : ℕ) (known : Option ℕ) → is_expected (some n) known ≡ true → some n ≡ known
unfolding is_expected
is_expected_lem n none h = absurd (ground arith)
is_expected_lem n (some m) h = ground arith

audited_row-cases :
    (known : Option ℕ) (r : Row) (pass : Bool) (count : Option ℕ) (x : Row)
    → r.status ≡ complete
    → audited_row known r pass count ≡ row x
    → (case_of x ≡ case_of r) × Passes known pass count x
unfolding audited_row case_of
audited_row-cases known r false count x s h = absurd (ground arith)
audited_row-cases known r true none x s h = absurd (ground arith)
audited_row-cases known r true (some n) x s h = elim (Bool-cases (is_expected (some n) known)) [
  | inr e ↦ absurd (ground (arith, h, e))
  | inl e ↦
      let answer = is_expected_lem n known e in
      let same : x ≡ record r { audited = true; triangles = some n } = cc in
      rw same (refl, (s, refl, answer, answer))
]

status_row-cases :
    (known : Option ℕ) (r : Row) (status : CaseStatus) (pass : Bool) (count : Option ℕ) (x : Row)
    → r.status ≡ status
    → r.audited ≡ false
    → status_row known r status pass count ≡ row x
    → (case_of x ≡ case_of r)
      × ((x.audited ≡ false) ⊎ ((status ≡ complete) × Passes known pass count x))
unfolding status_row case_of
status_row-cases known r complete pass count x s a h =
    let (same, passes) = audited_row-cases known r pass count x s h in (same, inr (refl, passes))
status_row-cases known r timeout pass count x s a h = let same : x ≡ r = cc in rw same (refl, inl a)
status_row-cases known r case_failed pass count x s a h =
    let same : x ≡ r = cc in rw same (refl, inl a)

case_row-cases :
    (known : Option ℕ) (threads : ℕ) (tool : Tool) (r : CaseRun) (x : Row)
    → case_row known threads tool r ≡ row x
    → (case_of x ≡ (threads, tool)) × IsAnswered known r x
unfolding case_row case_of IsAnswered
case_row-cases known threads tool r x h =
    let (same, result) =
      status_row-cases known _ (measured r.child).status r.histograms_pass (triangles r.matches) x
        refl refl h in
    (
      same,
      elim result [
        | inl a ↦ inl a
        | inr (status, passes) ↦ inr (measured-complete r.child status, passes)
      ],
    )

after_case-rows :
    (rest : CaseResults) (c : CaseResult) (rs : List Row)
    → after_case rest c ≡ rows rs
    → (x : Row) × (xs : List Row) × (c ≡ row x) × (rest ≡ rows xs) × (rs ≡ x ∷ xs)
unfolding after_case cons_row
after_case-rows rest (case_error e) rs h = absurd (ground arith)
after_case-rows (cases_error e) (row x) rs h = absurd (ground arith)
after_case-rows (rows xs) (row x) rs h = (x, xs, refl, refl, cc)

pub run_cases-rows :
    (runs : ℕ → CaseRun) (known : Option ℕ) (index : ℕ) (cs : List (ℕ × Tool)) (rs : List Row)
    → run_cases runs known index cs ≡ rows rs
    → (map case_of rs ≡ cs) × AreAnswered known runs index rs
unfolding run_cases AreAnswered
run_cases-rows runs known index [] rs h = let same : rs ≡ [] = cc in rw same (refl, tt)
run_cases-rows runs known index ((threads, tool) ∷ more) rs h =
    let (x, xs, c, rest, same) =
      after_case-rows (run_cases runs known (index + 1) more)
        (case_row known threads tool (runs index)) rs h in
    let here = case_row-cases known threads tool (runs index) x c in
    let later = run_cases-rows runs known (index + 1) more xs rest in
    rw same
      (ap (λ k. k ∷ map case_of xs) here.0 ∙ ap (◌∷◌ (threads, tool)) later.0, (here.1, later.1))

native_count-expected :
    (known count m : Option ℕ)
    → native_count known count ≡ expected m
    → (m ≡ count) × ((known ≡ none) ⊎ (known ≡ m)) × ((n : ℕ) × (m ≡ some n))
unfolding native_count
native_count-expected known none m h = absurd (ground arith)
native_count-expected none (some n) m h = (cc, inl refl, (n, cc))
native_count-expected (some k) (some n) m h = elim (Bool-cases (k == n)) [
  | inr e ↦ absurd (ground (arith, h, e))
  | inl e ↦
      let same : k ≡ n = ground (arith, e) in
      let found : m ≡ some n = ground (arith, h, e) in
      (found, inr (ap (λ i. some i) same ∙ sym found), (n, found))
]

native_status-expected :
    (known : Option ℕ) (status : CaseStatus) (count m : Option ℕ)
    → native_status known status count ≡ expected m
    → (status ≡ complete) × (native_count known count ≡ expected m)
unfolding native_status
native_status-expected known complete count m h = (refl, h)
native_status-expected known timeout count m h = absurd (ground arith)
native_status-expected known case_failed count m h = absurd (ground arith)

after_run-expected :
    (more : Option ℕ → NativeResult) (r : NativeResult) (m : Option ℕ)
    → after_run more r ≡ expected m
    → (k : Option ℕ) × (r ≡ expected k) × (more k ≡ expected m)
unfolding after_run
after_run-expected more (native_error e) m h = absurd (ground arith)
after_run-expected more (expected k) m h = (k, refl, h)

-- The native runs exited with 0, and the log of each has the one count `n`.
pub record NativeAnswer (native : ℕ → Native) (n : ℕ) : Type 0 where
  pub one : (native 1).matches ≡ n ∷ []
  pub twenty : (native 20).matches ≡ n ∷ []
  pub one_code : (native 1).child.exit_code ≡ some (pos 0)
  pub twenty_code : (native 20).child.exit_code ≡ some (pos 0)

pub native_runs-NativeAnswer :
    (native : ℕ → Native) (m : Option ℕ)
    → native_runs native (1 ∷ 20 ∷ []) none ≡ expected m
    → (n : ℕ) × (m ≡ some n) × NativeAnswer native n
unfolding native_runs native_run
native_runs-NativeAnswer native m h =
    let (a, first, later) =
      after_run-expected (native_runs native (20 ∷ [])) (native_run none (native 1)) m h in
    let (b, second, last) =
      after_run-expected (native_runs native []) (native_run a (native 20)) m later in
    let same : b ≡ m = cc in
    let one =
      native_status-expected none (measured (native 1).child).status (triangles (native 1).matches)
        a first in
    let twenty =
      native_status-expected a (measured (native 20).child).status (triangles (native 20).matches) b
        second in
    let answer_one = native_count-expected none (triangles (native 1).matches) a one.1 in
    let answer = native_count-expected a (triangles (native 20).matches) b twenty.1 in
    let n = answer.2.0 in
    let b_n : b ≡ some n = answer.2.1 in
    let a_b : a ≡ b = elim (answer.1) [
      | inr e ↦ e
      | inl e ↦ absurd (ground (arith, e, answer_one.2.1))
    ] in
    (
      n,
      sym same ∙ b_n,
      record {
        one = triangles-one (native 1).matches n (sym answer_one.0 ∙ a_b ∙ b_n);
        twenty = triangles-one (native 20).matches n (sym answer.0 ∙ b_n);
        one_code = measured-complete (native 1).child one.0;
        twenty_code = measured-complete (native 20).child twenty.0;
      },
    )

-- The row of a run that exited with 0, whose histograms pass and whose log has the one count `n`.
pub record IsCounted (n : ℕ) (r : CaseRun) (x : Row) : Type 0 where
  pub code : r.child.exit_code ≡ some (pos 0)
  pub histograms : r.histograms_pass ≡ true
  pub log : r.matches ≡ n ∷ []
  pub status : x.status ≡ complete
  pub count : x.triangles ≡ some n

unfoldable pub AreCounted : ℕ → (ℕ → CaseRun) → ℕ → List Row → Type 0
AreCounted n runs index [] = Unit
AreCounted n runs index (x ∷ xs) = IsCounted n (runs index) x × AreCounted n runs (index + 1) xs

-- Audited rows are those of runs that answered with the native count.
pub answered_rows :
    (n : ℕ) (runs : ℕ → CaseRun) (index : ℕ) (rs : List Row)
    → all (λ r. r.audited) rs ≡ true
    → AreAnswered (some n) runs index rs
    → AreCounted n runs index rs
unfolding all AreAnswered IsAnswered AreCounted
answered_rows n runs index [] h a = tt
answered_rows n runs index (x ∷ xs) h a = (
  elim (a.0) [
    | inl e ↦ absurd (ground (arith, h, e))
    | inr p ↦ record {
      code = p.0;
      histograms = p.1.1;
      log = triangles-one (runs index).matches n p.1.2;
      status = p.1.0;
      count = p.1.3;
    }
  ],
  answered_rows n runs (index + 1) xs (ground (arith, h)) a.1,
)
