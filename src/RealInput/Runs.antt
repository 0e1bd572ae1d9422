-- ===== src/RealInput/Runs.antt =====
-- experiments/validate_pin_real_input.py: `triangles`, `measured`, the native runs and the cases. What a
-- command leaves behind is an argument; the report's texts and paths are left out.
pub mod Laws
use memory_tiering.Prelude.{
  ℕ, zero, suc, ◌+◌, max, List, [], ◌∷◌, ◌++◌, Bool, true, false, Option, some, none, map, ltb, leb,
  ◌==◌, if◌then◌else◌, not, ◌&&◌, ◌||◌, length, sum_by, count_if, all,
}
use memory_tiering.Prelude.Int.{ℤ, pos}
use memory_tiering.Histogram.{int_eq}
use memory_tiering.RealInput.Csr
use memory_tiering.RealInput.Csr.{Source, Induced, Outcome, induce, failed, induced}

-- The numbers of the log's lines of the form `<n> triangles`; `none` is the ValueError.
unfoldable pub triangles : List ℕ → Option ℕ
triangles (n ∷ []) = some n
triangles _ = none

pub data CaseStatus : Type 0 where
  timeout complete case_failed : CaseStatus

-- One sample of the loop: the resident bytes of each process of the group that could be read.
abbrev pub Sample : Type 0
Sample = List ℕ

-- A child: its samples while it runs, and how it ends before the deadline (`none` is that it does
-- not, and is killed).
pub record Child : Type 0 where
  pub samples : List Sample
  pub exit_code : Option ℤ

pub record Measured : Type 0 where
  pub status : CaseStatus
  pub peak_rss : ℕ

unfoldable pub peak_of : ℕ → List Sample → ℕ
peak_of peak [] = peak
peak_of peak (s ∷ more) = peak_of (max peak (sum_by (λ b. b) s)) more

unfoldable pub status_of : Option ℤ → CaseStatus
status_of none = timeout
status_of (some code) = if int_eq code (pos 0) then complete else case_failed

unfoldable pub measured : Child → Measured
unfolding peak_of status_of
measured c = record { status = status_of c.exit_code; peak_rss = peak_of 0 c.samples }

pub data Tool : Type 0 where
  baseline local_bbl : Tool

unfoldable pub cases : List (ℕ × Tool)
cases =
    (1, baseline)
    ∷ (1, local_bbl)
    ∷ (20, baseline)
    ∷ (20, local_bbl)
    ∷ (20, local_bbl)
    ∷ (20, baseline)
    ∷ []

-- What a run of a case leaves behind: whether its histograms pass `checked_histograms`, the matches in
-- its log, and the accesses of its windows if the file is there.
pub record CaseRun : Type 0 where
  pub child : Child
  pub histograms_pass : Bool
  pub matches : List ℕ
  pub window_accesses : Option (List ℕ)

pub record Native : Type 0 where
  pub child : Child
  pub matches : List ℕ

pub record Row : Type 0 where
  pub case : Tool
  pub threads : ℕ
  pub status : CaseStatus
  pub audited : Bool
  pub triangles : Option ℕ
  pub full_event_windows : Option ℕ

pub data Failure : Type 0 where
  changed_hash no_gate native_failed no_count native_disagree bad_histogram wrong_answer : Failure
  bad_graph : Csr.Error → Failure

-- The native runs, with the count `expected` of the earlier ones.
pub data NativeResult : Type 0 where
  native_error : Failure → NativeResult
  expected : Option ℕ → NativeResult

unfoldable pub native_count : Option ℕ → Option ℕ → NativeResult
native_count known none = native_error no_count
native_count none (some n) = expected (some n)
native_count (some m) (some n) = if m == n then expected (some n) else native_error native_disagree

unfoldable pub native_status : Option ℕ → CaseStatus → Option ℕ → NativeResult
unfolding native_count
native_status known complete count = native_count known count
native_status known timeout count = native_error native_failed
native_status known case_failed count = native_error native_failed

unfoldable pub native_run : Option ℕ → Native → NativeResult
unfolding triangles measured native_status
native_run known n = native_status known (measured n.child).status (triangles n.matches)

unfoldable pub after_run : (Option ℕ → NativeResult) → NativeResult → NativeResult
after_run more (native_error e) = native_error e
after_run more (expected n) = more n

unfoldable pub native_runs : (ℕ → Native) → List ℕ → Option ℕ → NativeResult
unfolding native_run after_run
native_runs native [] known = expected known
native_runs native (threads ∷ more) known =
    after_run (native_runs native more) (native_run known (native threads))

unfoldable pub full_windows : Option (List ℕ) → Option ℕ
full_windows none = none
full_windows (some accesses) = some (count_if (λ a. leb 1000000 a) accesses)

unfoldable pub is_expected : Option ℕ → Option ℕ → Bool
is_expected (some a) (some b) = a == b
is_expected none none = true
is_expected _ _ = false

pub data CaseResult : Type 0 where
  case_error : Failure → CaseResult
  row : Row → CaseResult

-- A complete case: its histograms and its answer are checked.
unfoldable pub audited_row : Option ℕ → Row → Bool → Option ℕ → CaseResult
unfolding is_expected
audited_row known r false count = case_error bad_histogram
audited_row known r true none = case_error no_count
audited_row known r true (some n) =
    if not (is_expected (some n) known)
    then case_error wrong_answer
    else row (record r { audited = true; triangles = some n })

unfoldable pub status_row : Option ℕ → Row → CaseStatus → Bool → Option ℕ → CaseResult
unfolding audited_row
status_row known r complete pass count = audited_row known r pass count
status_row known r timeout pass count = row r
status_row known r case_failed pass count = row r

-- One case that has been run.
unfoldable pub case_row : Option ℕ → ℕ → Tool → CaseRun → CaseResult
unfolding measured triangles full_windows status_row
case_row known threads tool r =
    let status = (measured r.child).status in
    status_row known
      (record {
        case = tool;
        threads = threads;
        status = status;
        audited = false;
        triangles = none;
        full_event_windows = full_windows r.window_accesses;
      })
      status r.histograms_pass (triangles r.matches)

pub data CaseResults : Type 0 where
  cases_error : Failure → CaseResults
  rows : List Row → CaseResults

unfoldable pub cons_row : Row → CaseResults → CaseResults
cons_row r (cases_error e) = cases_error e
cons_row r (rows rs) = rows (r ∷ rs)

unfoldable pub after_case : CaseResults → CaseResult → CaseResults
unfolding cons_row
after_case rest (case_error e) = cases_error e
after_case rest (row r) = cons_row r rest

unfoldable pub run_cases : (ℕ → CaseRun) → Option ℕ → ℕ → List (ℕ × Tool) → CaseResults
unfolding case_row after_case
run_cases runs known index [] = rows []
run_cases runs known index ((threads, tool) ∷ more) =
    after_case (run_cases runs known (index + 1) more) (case_row known threads tool (runs index))
