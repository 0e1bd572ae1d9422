-- ===== src/Profile/Study.antt =====
-- experiments/profile_pin_bottleneck.py, `group_usage`, `capture` and `main`. What a run leaves behind is
-- an argument; the report's texts and paths are left out.
pub mod Laws
use Prim.Native.String.{String}
use memory_tiering.Prelude.{
  ℕ, ◌+◌, max, List, [], ◌∷◌, Bool, true, false, Option, some, none, ◌==◌, if◌then◌else◌, not, ◌&&◌,
  ◌||◌, sum_by,
}
use memory_tiering.Prelude.Int.{ℤ, pos}
use memory_tiering.Histogram.{int_eq}
use memory_tiering.RealInput.Runs.{Tool, baseline, local_bbl, triangles}
use memory_tiering.Profile.Parse.{CsvRow, Attribution, parse_report}

-- A process of the group that can be read: its resident bytes and its ticks.
pub record Process : Type 0 where
  pub rss : ℕ
  pub ticks : ℕ

unfoldable pub group_usage : List Process → Process
group_usage ps = record { rss = sum_by (λ p. p.rss) ps; ticks = sum_by (λ p. p.ticks) ps }

-- A child: the samples while it runs, and how it ends before the deadline, if it does.
pub record Child : Type 0 where
  pub samples : List (List Process)
  pub exit_code : Option ℤ

pub record Captured : Type 0 where
  pub profile_cutoff : Bool
  pub peak : Process

unfoldable pub peak_of : Process → List (List Process) → Process
unfolding group_usage
peak_of m [] = m
peak_of m (s ∷ more) =
    peak_of
      (record { rss = max m.rss (group_usage s).rss; ticks = max m.ticks (group_usage s).ticks })
      more

unfoldable pub is_cutoff : Option ℤ → Bool
is_cutoff none = true
is_cutoff (some code) = false

unfoldable pub capture : Child → Captured
unfolding peak_of is_cutoff
capture c = record {
  profile_cutoff = is_cutoff c.exit_code;
  peak = peak_of (record { rss = 0; ticks = 0 }) c.samples;
}

unfoldable pub profile_cases : List (ℕ × Tool)
profile_cases =
    (1, baseline)
    ∷ (1, local_bbl)
    ∷ (20, baseline)
    ∷ (20, local_bbl)
    ∷ (20, local_bbl)
    ∷ (20, baseline)
    ∷ []

-- What a run leaves behind: `perf_report` is `none` if that command fails.
pub record ProfileRun : Type 0 where
  pub child : Child
  pub has_manifest : Bool
  pub histograms_pass : Bool
  pub matches : List ℕ
  pub perf_report : Option (List CsvRow)

pub data Collection : Type 0 where
  bounded_prefix complete_audited : Collection

pub record Profile : Type 0 where
  pub case : Tool
  pub threads : ℕ
  pub captured : Captured
  -- The manifest is marked as interrupted.
  pub interrupted : Bool
  pub collection : Collection
  pub attribution : Attribution

pub data Failure : Type 0 where
  changed_hash bad_histogram no_count wrong_answer target_failure report_failure no_samples :
      Failure

pub data Checked : Type 0 where
  check_failed : Failure → Checked
  checked : Collection → Checked

unfoldable pub native_answer : ℕ
native_answer = 957682

unfoldable pub answer_check : Bool → Option ℕ → Checked
unfolding native_answer
answer_check false count = check_failed bad_histogram
answer_check true none = check_failed no_count
answer_check true (some n) =
    if n == native_answer then checked complete_audited else check_failed wrong_answer

unfoldable pub collection_of : ProfileRun → Option ℤ → Checked
unfolding answer_check triangles
collection_of r none = checked bounded_prefix
collection_of r (some code) =
    if int_eq code (pos 0)
    then answer_check r.histograms_pass (triangles r.matches)
    else check_failed target_failure

pub data Profiled : Type 0 where
  profile_failed : Failure → Profiled
  profiled : Profile → Profiled

unfoldable pub attributed : ℕ → Tool → ProfileRun → Collection → Option Attribution → Profiled
unfolding capture is_cutoff
attributed threads tool r c none = profile_failed no_samples
attributed threads tool r c (some a) = profiled (record {
  case = tool;
  threads = threads;
  captured = capture r.child;
  interrupted = is_cutoff r.child.exit_code && r.has_manifest;
  collection = c;
  attribution = a;
})

unfoldable pub reported_on :
    (String → String) → ℕ → Tool → ProfileRun → Collection → Option (List CsvRow) → Profiled
unfolding attributed
reported_on lower threads tool r c none = profile_failed report_failure
reported_on lower threads tool r c (some csv) = attributed threads tool r c (parse_report lower csv)

unfoldable pub after_check : (String → String) → ℕ → Tool → ProfileRun → Checked → Profiled
unfolding reported_on
after_check lower threads tool r (check_failed e) = profile_failed e
after_check lower threads tool r (checked c) = reported_on lower threads tool r c r.perf_report

unfoldable pub profile_case : (String → String) → ℕ → Tool → ProfileRun → Profiled
unfolding after_check collection_of
profile_case lower threads tool r =
    after_check lower threads tool r (collection_of r r.child.exit_code)

pub data Profiles : Type 0 where
  profiles_failed : Failure → Profiles
  profiles : List Profile → Profiles

unfoldable pub cons_profile : Profiles → Profiled → Profiles
cons_profile rest (profile_failed e) = profiles_failed e
cons_profile (profiles_failed e) (profiled p) = profiles_failed e
cons_profile (profiles ps) (profiled p) = profiles (p ∷ ps)

unfoldable pub run_profiles : (String → String) → (ℕ → ProfileRun) → ℕ → List (ℕ × Tool) → Profiles
unfolding profile_case cons_profile
run_profiles lower runs index [] = profiles []
run_profiles lower runs index ((threads, tool) ∷ more) =
    cons_profile (run_profiles lower runs (index + 1) more)
      (profile_case lower threads tool (runs index))

pub record World : Type 0 where
  pub same_graph : Bool
  pub same_tools : Bool
  pub runs : ℕ → ProfileRun
  -- The outputs of the first two cases are equal, byte for byte.
  pub same_outputs : Bool

pub record Study : Type 0 where
  pub profiles : List Profile
  pub one_thread_exact_outputs : Option Bool

pub data Outcome : Type 0 where
  failed : Failure → Outcome
  completed : Study → Outcome

unfoldable pub is_audited : Collection → Bool
is_audited complete_audited = true
is_audited bounded_prefix = false

unfoldable pub exact_outputs : World → List Profile → Option Bool
unfolding is_audited
exact_outputs w (a ∷ b ∷ more) =
    if is_audited a.collection && is_audited b.collection then some w.same_outputs else none
exact_outputs w ps = some w.same_outputs

unfoldable pub study_of : World → Profiles → Outcome
unfolding exact_outputs
study_of w (profiles_failed e) = failed e
study_of w (profiles ps) =
    completed (record { profiles = ps; one_thread_exact_outputs = exact_outputs w ps })

unfoldable pub main : (String → String) → World → Outcome
unfolding study_of run_profiles profile_cases
main lower w =
    if not w.same_graph || not w.same_tools
    then failed changed_hash
    else study_of w (run_profiles lower w.runs 0 profile_cases)
