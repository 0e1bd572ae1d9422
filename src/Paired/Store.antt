-- ===== src/Paired/Store.antt =====
-- experiments/run_paired.py: the manifest of a run, when a finished one is reused, and the loop over
-- the workloads. What the processes of a run do is an argument, an `Outcome` for each workload.
use Prim.Native.String.{String}
use text.Mathlib.Text.{◌==◌ as str_eq}
use memory_tiering.Prelude.{
  List, [], ◌∷◌, Bool, true, false, Option, none, some, if◌then◌else◌, not, ◌&&◌, ◌||◌, ◌==◌,
}
use memory_tiering.Prelude.Int.{ℤ, pos, negsuc}
use memory_tiering.Paired.{
  Token, word, computed, number, real, Args, ArgError, unsupported, Env, command, normalise,
  check_args,
}

pub data Status : Type 0 where
  running complete limited failed interrupted : Status

-- The fields of the manifest that the code reads back, and the status.
pub record Manifest : Type 0 where
  pub command : List Token
  pub gzip_pages : Bool
  pub threads : ℤ
  pub tool_sha : String
  pub executable_sha : String
  pub input_sha : String
  pub status : Status

unfoldable pub int_eq : ℤ → ℤ → Bool
int_eq (pos a) (pos b) = a == b
int_eq (negsuc a) (negsuc b) = a == b
int_eq _ _ = false

unfoldable pub token_eq : Token → Token → Bool
token_eq (word a) (word b) = str_eq a b
token_eq (computed a) (computed b) = str_eq a b
token_eq (number a) (number b) = int_eq a b
token_eq (real a c) (real b d) = int_eq a b && (c == d)
token_eq _ _ = false

unfoldable pub tokens_eq : List Token → List Token → Bool
unfolding token_eq int_eq
tokens_eq [] [] = true
tokens_eq (a ∷ more) (b ∷ rest) = token_eq a b && tokens_eq more rest
tokens_eq _ _ = false

unfoldable pub bool_eq : Bool → Bool → Bool
bool_eq true b = b
bool_eq false b = not b

unfoldable pub is_complete : Status → Bool
is_complete complete = true
is_complete _ = false

-- The manifest that a run starts with.
unfoldable pub metadata : Args → Env → String → Manifest
metadata a e name = record {
  command = command a e name;
  gzip_pages = a.gzip_pages;
  threads = a.threads;
  tool_sha = e.tool_sha;
  executable_sha = e.executable_sha name;
  input_sha = e.input_sha name;
  status = running;
}

-- A manifest that makes the workload's run superfluous.
unfoldable pub reusable : Manifest → Manifest → Bool
unfolding is_complete bool_eq int_eq
reusable old new =
    is_complete old.status
    && tokens_eq old.command new.command
    && bool_eq old.gzip_pages new.gzip_pages
    && str_eq old.tool_sha new.tool_sha
    && str_eq old.executable_sha new.executable_sha
    && str_eq old.input_sha new.input_sha
    && int_eq old.threads new.threads

-- What the processes of a run leave behind: whether Pin returned 0, what the summary says, whether
-- the paired file is there; or an exception, a failed compression among them.
pub record Finished : Type 0 where
  pub rc_zero : Bool
  pub says_complete : Bool
  pub says_limited : Bool
  pub paired_exists : Bool

pub data Outcome : Type 0 where
  finished : Finished → Outcome
  raised : Outcome

unfoldable pub status_of : Finished → Status
status_of f =
    if f.rc_zero && f.says_complete && f.paired_exists
    then complete
    else if f.rc_zero && f.says_limited
    then limited
    else failed

-- The manifests on disk, by workload.
abbrev pub Store : Type 0
Store = String → Option Manifest

unfoldable pub save : Store → String → Manifest → Store
save s name m = λ n. if str_eq n name then some m else s n

pub data Run : Type 0 where
  -- The exit status is whether some workload was not complete.
  exited : Bool → Store → Run
  usage : ArgError → Store → Run
  overwrite_refused : Store → Run
  exception : Store → Run

-- The workloads that have a benchmark.
pub supported : String → Bool
supported n =
    str_eq n "bfs"
    || str_eq n "cc"
    || str_eq n "sssp"
    || str_eq n "bc"
    || str_eq n "pr"
    || str_eq n "tc"

-- What a workload's turn comes to.
pub data Action : Type 0 where
  skip refuse : Action
  stop : Manifest → Action
  go_on : Manifest → Bool → Action

unfoldable pub decide : Manifest → Option Manifest → Outcome → Action
unfolding is_complete
decide m (some old) r = if reusable old m then skip else refuse
decide m none raised = stop (record m { status = interrupted })
decide m none (finished f) = go_on (record m { status = status_of f }) (is_complete (status_of f))

module _ (a : Args) (e : Env) (outcome : String → Outcome) where
  unfoldable pub run_workloads : List String → Store → Bool → Run
  unfolding supported
  run_workloads [] s failures = exited failures s
  run_workloads (name ∷ names) s failures = elim (supported name) [
    | false ↦ usage unsupported s
    | true ↦ elim (decide (metadata a e name) (s name) (outcome name)) [
      | skip ↦ run_workloads names s failures
      | refuse ↦ overwrite_refused s
      | stop m ↦ exception (save s name m)
      | go_on m ok ↦ run_workloads names (save s name m) (failures || not ok)
    ]
  ]

unfoldable pub run_paired : Args → Env → (String → Outcome) → List String → Store → Run
run_paired given e outcome names s =
    let a = normalise given in
    elim (check_args a) [
      | some error ↦ usage error s
      | none ↦ run_workloads a e outcome names s false
    ]
