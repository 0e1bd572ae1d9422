-- ===== src/Campaign/Revalidation.antt =====
-- experiments/revalidation_campaign.py: the two lanes of jobs. A failed job is recorded and the lane
-- goes on; a paused or interrupted one ends it. What is on disk and what the processes leave behind
-- is a `World`, also whether the results can be published; waiting and clocks are not modelled.
pub mod Laws
use Prim.Native.String.{String, ◌++◌ as join}
use text.Mathlib.Text.{◌==◌ as str_eq}
use memory_tiering.Prelude.{
  ℕ, List, [], ◌∷◌, ◌++◌, map, Bool, true, false, Option, none, some, if◌then◌else◌, ◌&&◌, ◌||◌,
  not, all, any, ltb, leb, ◌==◌, ◌*◌, ◌^◌,
}
use memory_tiering.Campaign.{Turn, pass, next, halt, Ended, finished, halted, run_jobs}
use memory_tiering.Campaign.Attempts.{next_attempt}

pub data Lane : Type 0 where
  pin sim : Lane

-- `OUT/pin/<algorithm>`, or `OUT/<lane>/<job>/attempt-<n>`.
pub data Directory : Type 0 where
  results_of : String → Directory
  attempt_of : String → ℕ → Directory

-- `<storage>/<job>/<name of the directory>`.
pub data Checkpoint : Type 0 where
  checkpoint_at : String → String → Directory → Checkpoint

pub data Word : Type 0 where
  arg : String → Word
  number : ℕ → Word
  out_dir : Directory → Word
  simulator : Word

-- What a job launches: `cmd` with its prefix, or `None` with the epoch of the sim lane.
pub data Launch : Type 0 where
  paired : String → String → List Word → Launch
  extension : Launch
  simulation : ℕ → Launch

pub record Job : Type 0 where
  pub job : String
  pub launch : Launch
  pub analyse : Bool

paired_job : String → Bool → String → Job
paired_job algo analyse name = record {
  job = join algo (join "-" name);
  launch = paired algo name (
      (if analyse
        then if str_eq name "bfs" || str_eq name "cc"
          then arg "--dump-pages" ∷ []
          else arg "--gzip-pages" ∷ []
        else [])
      ++ (if str_eq name "bc" || str_eq name "sssp"
          then arg "--graph-prefix"
            ∷ arg "workloads/gapbs/graphs/gplus-snapshot1"
            ∷ arg "--graph-family"
            ∷ arg "Google+ IMC12 snapshot 1"
            ∷ []
          else []));
  analyse = analyse;
}

kernels : List String
kernels = "bfs" ∷ "cc" ∷ "bc" ∷ "sssp" ∷ "pr" ∷ "tc" ∷ []

sim_job : String → ℕ → Job
sim_job name epoch = record { job = name; launch = simulation epoch; analyse = false }

extension_job : String → Job
extension_job name = record { job = name; launch = extension; analyse = true }

unfoldable pub jobs_of : Lane → List Job
unfolding paired_job sim_job extension_job kernels
jobs_of pin =
    map (paired_job "spacesaving" true) kernels
    ++ (map (paired_job "cmsketch" false) kernels
        ++ map extension_job ("redis-a" ∷ "redis-c" ∷ "memcached" ∷ "liblinear" ∷ []))
jobs_of sim =
    map (λ n. sim_job n 10000000) kernels
    ++ (sim_job "liblinear" 10000000
        ∷ sim_job "bc-window-1000000" 1000000
        ∷ sim_job "bc-window-100000000" 100000000
        ∷ [])

pub data Status : Type 0 where
  queued running complete paused interrupted failed : Status

pub record Row : Type 0 where
  pub status : Status
  pub binary_sha : Option String
  pub checkpoint_state : Option Checkpoint
  pub output : Option Directory
  pub command : List Word

-- How `run` ends: a child that returns 75 has paused, any other code but 0 is an error, and so is a
-- drive that is too full before the child starts or while it runs.
pub data Process : Type 0 where
  exited : ℕ → Process
  disk_floor interrupt : Process

pub data Ran : Type 0 where
  ran paused_run error keyboard_interrupt : Ran

unfoldable pub run : ℕ → Process → Ran
run free process = if ltb free (4 * 1024 ^ 3) then error else elim process [
  | exited code ↦ if code == 75 then paused_run else if code == 0 then ran else error
  | disk_floor ↦ error
  | interrupt ↦ keyboard_interrupt
]

-- One summary file of the simulator.
pub record Summary : Type 0 where
  pub events : ℕ
  pub page_observations : ℕ
  pub hist_total : ℕ

pub record Log : Type 0 where
  pub third_exit : Bool
  pub stopping : Bool
  pub summaries : List Summary

pub record Manifest : Type 0 where
  pub complete_status : Bool
  pub tool_sha : String

pub record World : Type 0 where
  pub lane : Lane
  pub fingerprint : String
  pub checkpoint_storage : Option String
  -- Whether a state directory holds `latest.json`.
  pub has_latest : Checkpoint → Bool
  pub taken : String → List ℕ
  -- The manifest at a job's prefix before and after its run.
  pub prior : String → Option Manifest
  pub manifest : String → Option Manifest
  pub free : String → ℕ
  pub process : String → Process
  pub analysis_free : String → ℕ
  pub analysis : String → Process
  pub log : String → Log
  -- `publish()` before and after a job's run, and when the lane ends; a failure of it is not caught.
  pub published_before : String → Bool
  pub published_after : String → Bool
  pub published_end : Bool

pub is_complete : Status → Bool
is_complete complete = true
is_complete _ = false

pub has_fingerprint : World → Option String → Bool
has_fingerprint w none = false
has_fingerprint w (some s) = str_eq s w.fingerprint

is_compatible : World → Option Manifest → Bool
is_compatible w none = false
is_compatible w (some m) = m.complete_status && str_eq m.tool_sha w.fingerprint

-- The earlier checkpoint that a sim job goes on from.
resumable : World → Row → Option Checkpoint
resumable w old = elim (w.lane) [
  | pin ↦ none
  | sim ↦ elim (w.checkpoint_storage) [
    | none ↦ none
    | some d ↦ elim (old.checkpoint_state) [
      | none ↦ none
      | some c ↦ if w.has_latest c then some c else none
    ]
  ]
]

new_attempt : World → String → Directory
new_attempt w job = attempt_of job (next_attempt (w.taken job))

output_of : World → Job → Directory
output_of w j = elim (j.launch) [
  | paired algo name opts ↦ elim (w.prior j.job) [
    | none ↦ results_of algo
    | some m ↦ if is_compatible w (some m) then results_of algo else new_attempt w j.job
  ]
  | extension ↦ new_attempt w j.job
  | simulation epoch ↦ new_attempt w j.job
]

workload_of : String → String
workload_of job =
    if str_eq job "bc-window-1000000" || str_eq job "bc-window-100000000" then "bc" else job

command_of : Job → Directory → List Word
command_of j dir = elim (j.launch) [
  | paired algo name opts ↦
      arg "experiments/run_paired.py"
      ∷ arg name
      ∷ arg "--epoch-traffic"
      ∷ arg "10"
      ∷ arg "--track-algo"
      ∷ arg algo
      ∷ arg "--out"
      ∷ out_dir dir
      ∷ opts
  | extension ↦
      arg "experiments/run_extension_workload.py" ∷ arg j.job ∷ arg "--out" ∷ out_dir dir ∷ []
  | simulation epoch ↦
      simulator
      ∷ arg "-d"
      ∷ out_dir dir
      ∷ arg "src/sim/simcxl/fs_hotskew.py"
      ∷ arg "--workload"
      ∷ arg (workload_of j.job)
      ∷ arg "--big-mem"
      ∷ arg "--switch-at-roi"
      ∷ arg "--max-exits"
      ∷ arg "3"
      ∷ arg "--llc-ways"
      ∷ arg "10"
      ∷ arg "--epoch"
      ∷ number epoch
      ∷ []
]

fresh : World → Job → Row
fresh w j =
    let dir = output_of w j in
    record {
      status = running;
      binary_sha = some w.fingerprint;
      checkpoint_state = elim (w.checkpoint_storage) [
        | none ↦ none
        | some d ↦ elim (w.lane) [ pin ↦ none | sim ↦ some (checkpoint_at d j.job dir) ]
      ];
      output = some dir;
      command = command_of j dir;
    }

launched_from : World → Job → Row → Option Checkpoint → Row
launched_from w j old none = fresh w j
launched_from w j old (some c) = record old {
  status = running;
  binary_sha = some w.fingerprint;
  checkpoint_state = some c;
}

-- The row while the job runs.
pub launched : World → Job → Row → Row
launched w j old = launched_from w j old (resumable w old)

-- Each summary agrees with its histogram, and there is traffic.
simulated : Log → Bool
simulated log =
    log.third_exit
    && log.stopping
    && all (λ s. s.page_observations == s.hist_total) log.summaries
    && any (λ s. ltb 0 s.events) log.summaries

checked : World → Job → Ran
checked w j = elim (w.lane) [
  | pin ↦
      if not (is_compatible w (w.manifest j.job))
      then error
      else if j.analyse
      then run (w.analysis_free j.job) (w.analysis j.job)
      else ran
  | sim ↦ if simulated (w.log j.job) then ran else error
]

-- The body of the `try`.
unfoldable pub attempt : World → Job → Ran
unfolding run checked simulated is_compatible
attempt w j = elim (run (w.free j.job) (w.process j.job)) [
  | ran ↦ checked w j
  | paused_run ↦ paused_run
  | error ↦ error
  | keyboard_interrupt ↦ keyboard_interrupt
]

-- The row that is saved before the first publication.
started : World → Row
started w = record {
  status = running;
  binary_sha = some w.fingerprint;
  checkpoint_state = none;
  output = none;
  command = [];
}

-- The end of a turn; the flag is whether the publication after it succeeds.
pub settle : Bool → Row → Ran → Turn Row
settle true row ran = next (record row { status = complete })
settle false row ran = halt (record row { status = complete })
settle true row error = next (record row { status = failed })
settle false row error = halt (record row { status = failed })
settle published row paused_run = halt (record row { status = paused })
settle published row keyboard_interrupt = halt (record row { status = interrupted })

unfoldable pub turn : World → Job → Row → Turn Row
unfolding is_complete has_fingerprint launched launched_from resumable fresh output_of new_attempt
    command_of workload_of is_compatible settle started
turn w j old =
    if is_complete old.status && has_fingerprint w old.binary_sha
    then pass
    else if not (w.published_before j.job)
    then halt (started w)
    else settle (w.published_after j.job) (launched w j old) (attempt w j)

abbrev pub no_row : Row
no_row = record {
  status = queued;
  binary_sha = none;
  checkpoint_state = none;
  output = none;
  command = [];
}

-- The status that the state file is left with; `left_running` is that of an error outside a job.
pub data Verdict : Type 0 where
  all_complete finished_with_failures stopped_paused stopped_interrupted left_running : Verdict

pub record State : Type 0 where
  pub rows : String → Row
  pub verdict : Verdict
  pub current : Option String
  -- An exception left `main`.
  pub raised : Bool

verdict_of : Status → Verdict
verdict_of paused = stopped_paused
verdict_of interrupted = stopped_interrupted
verdict_of _ = left_running

-- Whether a lane that stops at a job stops by an exception.
raises : World → String → Status → Bool
raises w k paused = not (w.published_after k)
raises w k interrupted = not (w.published_after k)
raises w k _ = true

-- `known` are the keys of the earlier state.
close : World → List String → List Job → Ended Row → State
close w known js (finished rows) = record {
  rows = rows;
  verdict =
      if all (λ k. is_complete (rows k).status) (known ++ map (λ (j : Job). j.job) js)
      then all_complete
      else finished_with_failures;
  current = none;
  raised = not w.published_end;
}
close w known js (halted k rows) = record {
  rows = rows;
  verdict = verdict_of (rows k).status;
  current = some k;
  raised = raises w k (rows k).status;
}

unfoldable pub run_lane : World → List String → (String → Row) → State
unfolding close verdict_of raises is_complete
run_lane w known rows =
    close w known (jobs_of w.lane) (run_jobs (λ (j : Job). j.job) (turn w) (jobs_of w.lane) rows)

code_of : Verdict → ℕ
code_of all_complete = 0
code_of finished_with_failures = 1
code_of stopped_paused = 75
code_of stopped_interrupted = 130
code_of left_running = 1

unfoldable pub exit_code : State → ℕ
unfolding code_of
exit_code s = if s.raised then 1 else code_of s.verdict
