-- ===== src/Extension.antt =====
-- experiments/run_extension_workload.py: one run of a server or of the training under Pin. What the
-- processes do and leave behind is a `World`; the clean-up of processes and clocks are not modelled.
pub mod Laws
use Prim.Native.String.{String}
use memory_tiering.Prelude.{
  ℕ, zero, suc, ◌+◌, ◌*◌, ◌/◌, List, [], ◌∷◌, ◌++◌, Bool, true, false, Option, none, some,
  if◌then◌else◌, ◌||◌, not,
}
use memory_tiering.Prelude.Int.{ℤ, pos, negsuc}

pub data Workload : Type 0 where
  redis_a redis_c memcached liblinear : Workload

-- A word of a command: a literal, a number, or a computed path or name.
pub data Word : Type 0 where
  arg : String → Word
  number : ℕ → Word
  computed : String → Word

unfoldable pub is_lib : Workload → Bool
is_lib liblinear = true
is_lib _ = false

-- The paths of a run and its options.
pub record Setting : Type 0 where
  pub machine : String
  pub pin : String
  pub tool : String
  pub server : Workload → String
  pub user : String
  pub data_file : String
  pub model_file : String
  pub prefix : String
  pub port : ℕ
  pub records : ℕ
  pub ops : ℕ

app : Setting → Workload → List Word
app s liblinear =
    computed (s.server liblinear)
    ∷ arg "-s"
    ∷ arg "6"
    ∷ arg "-m"
    ∷ arg "1"
    ∷ arg "-e"
    ∷ arg "0.01"
    ∷ computed s.data_file
    ∷ computed s.model_file
    ∷ []
app s memcached =
    computed (s.server memcached)
    ∷ arg "-l"
    ∷ arg "127.0.0.1"
    ∷ arg "-p"
    ∷ number s.port
    ∷ arg "-m"
    ∷ number (s.records / 1000 * 2 + 1024)
    ∷ arg "-t"
    ∷ arg "1"
    ∷ arg "-u"
    ∷ computed s.user
    ∷ []
app s w =
    computed (s.server w)
    ∷ arg "--bind"
    ∷ arg "127.0.0.1"
    ∷ arg "--port"
    ∷ number s.port
    ∷ arg "--save"
    ∷ arg ""
    ∷ arg "--appendonly"
    ∷ arg "no"
    ∷ arg "--protected-mode"
    ∷ arg "yes"
    ∷ []

tag_of : Workload → String
tag_of redis_a = "redis-a"
tag_of redis_c = "redis-c"
tag_of memcached = "memcached"
tag_of liblinear = "liblinear"

unfoldable pub command_of : Setting → Workload → List Word
unfolding app tag_of is_lib
command_of s w =
    (arg "setarch"
      ∷ computed s.machine
      ∷ arg "-R"
      ∷ computed s.pin
      ∷ arg "-t"
      ∷ computed s.tool
      ∷ arg "-paired"
      ∷ arg "1"
      ∷ arg "-epoch"
      ∷ arg "10"
      ∷ arg "-epoch_refs"
      ∷ arg "0"
      ∷ arg "-dump_pages"
      ∷ arg "1"
      ∷ arg "-dump_max_mb"
      ∷ arg "0"
      ∷ arg "-track"
      ∷ arg "0"
      ∷ arg "-l1_kb"
      ∷ arg "48"
      ∷ arg "-l1_assoc"
      ∷ arg "12"
      ∷ arg "-l2_kb"
      ∷ arg "2048"
      ∷ arg "-l2_assoc"
      ∷ arg "16"
      ∷ arg "-l3_kb"
      ∷ arg (if is_lib w then "40960" else "4096")
      ∷ arg "-l3_assoc"
      ∷ arg (if is_lib w then "10" else "1")
      ∷ arg "-roi_begin"
      ∷ arg "hotskew_roi_begin"
      ∷ arg "-roi_end"
      ∷ arg "hotskew_roi_end"
      ∷ arg "-tag"
      ∷ arg (tag_of w)
      ∷ arg "-o"
      ∷ computed s.prefix
      ∷ arg "--"
      ∷ [])
    ++ app s w

pub data Status : Type 0 where
  running complete failed : Status

-- The manifest; `records` and `ops` are those of the client.
pub record Manifest : Type 0 where
  pub command : List Word
  pub records : Option ℕ
  pub ops : Option ℕ
  pub epoch_traffic : ℕ
  pub status : Status
  pub returncode : Option ℤ

-- A try to connect: the server has exited, refuses, or answers.
pub data Poll : Type 0 where
  died refused connected : Poll

pub data Startup : Type 0 where
  up exited timed_out : Startup

-- What goes wrong in the `try`.
pub data Failure : Type 0 where
  training_exit server_exited startup_timeout client_error server_timeout gzip_timeout gzip_failed
        collection_incomplete :
      Failure

-- The exit codes; `none` is a wait that times out. That of the server is after its signal.
pub record World : Type 0 where
  pub out_exists : Bool
  pub polls : ℕ → Poll
  pub training_code : ℤ
  pub client_code : ℤ
  pub server_end : Option ℤ
  pub gzip_end : Option ℤ
  pub says_complete : Bool
  pub says_capped : Bool

-- `for _ in range(tries)`, from the given try on.
unfoldable pub start_server : (ℕ → Poll) → ℕ → ℕ → Startup
start_server polls zero at = timed_out
start_server polls (suc tries) at =
    let later = start_server polls tries (at + 1) in
    elim (polls at) [ died ↦ exited | refused ↦ later | connected ↦ up ]

-- A step of the `try`, which an exception ends.
pub data Step (A : Type 0) : Type 0 where
  raise : Failure → Step A
  done : A → Step A

unfoldable pub and_then : {A B : Type 0} → Step A → (A → Step B) → Step B
and_then (raise e) f = raise e
and_then (done a) f = f a

-- `if rc: raise`, with what the step gives else.
unfoldable pub when_zero : {A : Type 0} → ℤ → Failure → A → Step A
when_zero (pos zero) e a = done a
when_zero (pos (suc n)) e a = raise e
when_zero (negsuc n) e a = raise e

unfoldable pub ended : Option ℤ → Failure → Step ℤ
ended none e = raise e
ended (some code) e = done code

unfoldable pub answered : Startup → Step (Unit {0})
answered up = done tt
answered exited = raise server_exited
answered timed_out = raise startup_timeout

-- The client's run and the end of the server, whose return code is not looked at.
unfoldable pub served : World → Step ℤ
unfolding and_then answered when_zero ended
served w = and_then (answered (start_server w.polls 120 0)) (λ u.
    and_then (when_zero w.client_code client_error u) (λ v. ended w.server_end server_timeout))

-- The workload's part of the `try`; `process.returncode` after it.
unfoldable pub measured : World → Workload → Step ℤ
unfolding served is_lib when_zero
measured w k =
    if is_lib k then when_zero w.training_code training_exit w.training_code else served w

-- The rest of it: the end of gzip, and what the summary says.
unfoldable pub collected : World → ℤ → Step ℤ
unfolding and_then when_zero ended
collected w returncode = and_then (ended w.gzip_end gzip_timeout) (λ code.
    and_then (when_zero code gzip_failed returncode)
      (λ rc. if not w.says_complete || w.says_capped then raise collection_incomplete else done rc))

unfoldable pub metadata : Setting → Workload → Manifest
unfolding is_lib
metadata s k = record {
  command = command_of s k;
  records = if is_lib k then none else some s.records;
  ops = if is_lib k then none else some s.ops;
  epoch_traffic = 10000000;
  status = running;
  returncode = none;
}

-- The end of a run, with the manifest that it leaves.
pub data Outcome : Type 0 where
  out_exists : Outcome
  finished : Manifest → Outcome
  raised : Failure → Manifest → Outcome

unfoldable pub outcome_of : Manifest → Step ℤ → Outcome
outcome_of m (done rc) = finished (record m { status = complete; returncode = some rc })
outcome_of m (raise e) = raised e (record m { status = failed })

unfoldable pub run_workload : Setting → World → Workload → Outcome
unfolding measured collected and_then outcome_of
run_workload s w k =
    if w.out_exists
    then out_exists
    else outcome_of (metadata s k) (and_then (measured w k) (collected w))
