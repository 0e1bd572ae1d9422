-- ===== src/Campaign/Stage2.antt =====
-- experiments/run_pin_fidelity_stage2.py: the declared controls of the second stage, with the hold on
-- multithreaded ones. The waits for the earlier controls and for memory, and clocks, are not modelled.
pub mod Laws
use Prim.Native.String.{String, ◌++◌ as join}
use text.Mathlib.Text.{◌==◌ as str_eq}
use memory_tiering.Prelude.{
  ℕ, List, [], ◌∷◌, ◌++◌, map, Bool, true, false, Option, none, some, if◌then◌else◌, ◌&&◌, ◌||◌,
  not, all, ltb,
}
use memory_tiering.Campaign.{Turn, pass, next, halt, Ended, finished, halted, run_jobs}
use memory_tiering.Campaign.Attempts.{next_attempt}

-- An entry of an option list; only the number of threads is read as a number.
pub data Word : Type 0 where
  arg : String → Word
  number : ℕ → Word

pub record Job : Type 0 where
  pub key : String
  -- `none` for the preparation of the footprint's graph.
  pub name : Option String
  pub options : List Word
  pub footprint : Bool

-- The three controls of a group of kernels.
control : String → List Word → String → Job
control case options name = record {
  key = join case (join "-" name);
  name = some name;
  options = options;
  footprint = false;
}

group : List String → List Job
group names =
    map (control "process" (arg "--scope" ∷ arg "process" ∷ [])) names
    ++ (map (control "threads20" (arg "--threads" ∷ number 20 ∷ [])) names
        ++ map (control "ways9" (arg "--llc-ways" ∷ number 9 ∷ [])) names)

footprint_job : String → List Word → Job
footprint_job key options = record {
  key = key;
  name = some "tc";
  options = options;
  footprint = true;
}

unfoldable pub jobs : List Job
unfolding control group footprint_job
jobs =
    group ("bfs" ∷ "cc" ∷ "bc" ∷ "sssp" ∷ [])
    ++ (record { key = "prepare-tc-footprint"; name = none; options = []; footprint = false }
        ∷ footprint_job "footprint-tc" []
        ∷ footprint_job "footprint20-tc" (arg "--threads" ∷ number 20 ∷ [])
        ∷ group ("pr" ∷ "tc" ∷ []))

-- `int(options[options.index('--threads')+1]) > 1`; without the option, or a number after it, no.
pub threads_above_one : List Word → Bool
threads_above_one [] = false
threads_above_one (arg w ∷ number n ∷ rest) =
    let later = threads_above_one rest in if str_eq w "--threads" then ltb 1 n else later
threads_above_one (_ ∷ rest) = threads_above_one rest

unfoldable pub held_job : Bool → List Word → Bool
unfolding threads_above_one
held_job hold options = hold && threads_above_one options

pub data Status : Type 0 where
  queued running complete interrupted failed : Status

pub data Directory : Type 0 where
  attempt_of : String → ℕ → Directory

-- What `cmd` names besides the words: the directory, the graph and its family, the tool.
pub data Part : Type 0 where
  word : Word → Part
  out_dir : Directory → Part
  graph_path : String → Part
  graph_family : String → Part
  footprint_path : Part
  tool_path : String → Part

pub record Row : Type 0 where
  pub status : Status
  pub output : Option Directory
  pub command : List Part

-- How the body of the `try` ends, its manifest and the publishing after it included.
pub data Result : Type 0 where
  succeeded nonzero_exit incomplete_manifest publishing_failed keyboard_interrupt : Result

pub record World : Type 0 where
  -- `state['multithread_hold']`, which `--single-thread-only` sets.
  pub hold : Bool
  pub tool : Option String
  pub taken : String → List ℕ
  pub result : Job → Result

input_key : String → String
input_key name =
    if str_eq name "bfs" || str_eq name "cc"
    then "twitter-main"
    else if str_eq name "bc"
    then "gplus-bc"
    else if str_eq name "sssp"
    then "gplus-sssp"
    else if str_eq name "pr"
    then "twitter-main"
    else "twitter-tc"

graph_parts : Bool → String → List Part
graph_parts true name =
    word (arg "--graph-prefix")
    ∷ footprint_path
    ∷ word (arg "--graph-family")
    ∷ word (arg "Twitter RSS-selected induced reduction")
    ∷ []
graph_parts false name =
    word (arg "--graph-prefix")
    ∷ graph_path (input_key name)
    ∷ word (arg "--graph-family")
    ∷ graph_family (input_key name)
    ∷ []

tool_parts : Option String → List Part
tool_parts none = []
tool_parts (some t) = word (arg "--tool") ∷ tool_path t ∷ []

-- The new row of a job while it runs.
launched : World → Job → Option String → Row
launched w j none = record {
  status = running;
  output = none;
  command = word (arg "benchmarks/prepare_tc_footprint.py") ∷ [];
}
launched w j (some name) =
    let dir = attempt_of j.key (next_attempt (w.taken j.key)) in
    record {
      status = running;
      output = some dir;
      command =
          (word (arg "experiments/run_paired.py")
            ∷ word (arg name)
            ∷ word (arg "--epoch-traffic")
            ∷ word (arg "10")
            ∷ word (arg "--out")
            ∷ out_dir dir
            ∷ graph_parts j.footprint name)
          ++ (map word j.options ++ tool_parts w.tool);
    }

pub is_complete : Status → Bool
is_complete complete = true
is_complete _ = false

-- A manifest is read only for a job with a name; a failure to publish comes after the row is complete
-- and makes it failed again.
settle : Row → Option String → Result → Turn Row
settle row name succeeded = next (record row { status = complete })
settle row none incomplete_manifest = next (record row { status = complete })
settle row (some name) incomplete_manifest = halt (record row { status = failed })
settle row name nonzero_exit = halt (record row { status = failed })
settle row name publishing_failed = halt (record row { status = failed })
settle row name keyboard_interrupt = halt (record row { status = interrupted })

unfoldable pub turn : World → Job → Row → Turn Row
unfolding is_complete launched graph_parts tool_parts input_key settle
turn w j old =
    if is_complete old.status
    then pass
    else if held_job w.hold j.options
    then pass
    else settle (launched w j j.name) j.name (w.result j)

abbrev pub queued_row : Row
queued_row = record { status = queued; output = none; command = [] }

pub data Phase : Type 0 where
  done held_for_validation stopped : Phase

pub record State : Type 0 where
  pub rows : String → Row
  pub phase : Phase
  pub current : Option String

-- `known` are the keys of the earlier state.
close : List String → Ended Row → State
close known (finished rows) = record {
  rows = rows;
  phase =
      if all (λ k. is_complete (rows k).status) (known ++ map (λ (j : Job). j.key) jobs)
      then done
      else held_for_validation;
  current = none;
}
close known (halted k rows) = record { rows = rows; phase = stopped; current = some k }

unfoldable pub campaign : World → List String → (String → Row) → State
unfolding close is_complete
campaign w known rows = close known (run_jobs (λ (j : Job). j.key) (turn w) jobs rows)
