-- ===== src/Validation.antt =====
-- experiments/validate_pin_scalability.py: the checks that a candidate build of the tool has to pass.
-- What a run of the tool leaves behind is an argument; the commands are named by their cases.
pub mod Laws
use Prim.Native.String.{String}
use text.Mathlib.Text.{◌==◌ as str_eq}
use memory_tiering.Prelude.{
  ℕ, zero, suc, List, [], ◌∷◌, Bool, true, false, Option, none, some, if◌then◌else◌, ◌&&◌, ◌||◌,
  not, ltb, ◌==◌, all, any,
}

-- `child.wait(timeout)`: an exit code, or the timeout after which the group is killed.
pub data Child : Type 0 where
  exited : ℕ → Child
  over_time : Child

pub data RunStatus : Type 0 where
  complete failed timeout : RunStatus

unfoldable pub bounded : Child → RunStatus
bounded (exited code) = if code == 0 then complete else failed
bounded over_time = timeout

-- The files `.epochs.csv` and `.paired.csv` of a run.
pub record Outputs : Type 0 where
  pub epochs : String
  pub paired : String

unfoldable pub outputs_eq : Outputs → Outputs → Bool
outputs_eq a b = str_eq a.epochs b.epochs && str_eq a.paired b.paired

pub record World : Type 0 where
  -- By clock and case.
  pub fixture : String → String → Child
  pub outputs : String → String → Outputs
  pub guard : Child
  pub guard_diagnostic : Bool
  -- By repetition, number of threads and case; whether the histograms pass their checks.
  pub scaling : ℕ → ℕ → String → Child
  pub audit : ℕ → ℕ → String → Bool

abbrev pub configurations : List String
configurations =
    "baseline" ∷ "candidate-legacy" ∷ "local-bbl" ∷ "mutex" ∷ "mutex-local" ∷ "private-local"
    ∷ "mutex-private-local" ∷ []

-- `configurations[i] for i in (0,2,4,5,6)`
abbrev pub scaled : List String
scaled = "baseline" ∷ "local-bbl" ∷ "mutex-local" ∷ "private-local" ∷ "mutex-private-local" ∷ []

pub is_complete : RunStatus → Bool
is_complete complete = true
is_complete _ = false

-- The first outputs of a clock are the expected ones.
exact_match : Option Outputs → Outputs → Bool
exact_match none o = true
exact_match (some e) o = outputs_eq o e

first_of : Option Outputs → Outputs → Outputs
first_of none o = o
first_of (some e) o = e

-- A row that is not complete, or differs, ends the validation.
unfoldable pub run_fixture : World → String → Option Outputs → List String → Bool
unfolding is_complete exact_match first_of
run_fixture w clock expected [] = true
run_fixture w clock expected (name ∷ names) =
    let o = w.outputs clock name in
    let rest = run_fixture w clock (some (first_of expected o)) names in
    if is_complete (bounded (w.fixture clock name)) && exact_match expected o then rest else false

is_timeout : RunStatus → Bool
is_timeout timeout = true
is_timeout _ = false

guarded : World → Bool
guarded w = not (is_timeout (bounded w.guard)) && w.guard_diagnostic

-- A run that is complete but does not pass the audit has the status `audit failed`.
row_passes : World → ℕ → ℕ → String → Bool
row_passes w repeat threads name =
    is_complete (bounded (w.scaling repeat threads name)) && w.audit repeat threads name

scaling_passes : World → List ℕ → ℕ → Bool
scaling_passes w threads zero = true
scaling_passes w threads (suc repeat) =
    scaling_passes w threads repeat && all (λ t. all (row_passes w repeat t) scaled) threads

pub record Args : Type 0 where
  pub timeout_s : ℕ
  pub scale : ℕ
  pub repeats : ℕ
  pub threads : List ℕ

pub data Verdict : Type 0 where
  usage fixture_differs guard_failed scaling_incomplete passed : Verdict

bad_args : Args → Bool
bad_args a =
    (a.timeout_s == 0)
    || (ltb a.scale 8 || ltb 16 a.scale)
    || ((a.repeats == 0) || any (λ t. ltb t 1 || ltb 20 t) a.threads)

unfoldable pub validate : Args → World → Verdict
unfolding bad_args guarded scaling_passes row_passes is_timeout is_complete
validate a w =
    if bad_args a
    then usage
    else if not (
        run_fixture w "traffic" none configurations
        && run_fixture w "references" none configurations)
    then fixture_differs
    else if not (guarded w)
    then guard_failed
    else if scaling_passes w a.threads a.repeats
    then passed
    else scaling_incomplete
