-- ===== src/Campaign/Fidelity.antt =====
-- experiments/run_fidelity_campaign.py: the declared controls, run one after another. What is on disk
-- and what the processes do is a `World`; waiting, publishing and clocks are not modelled.
pub mod Laws
use Prim.Native.String.{String, ◌++◌ as join}
use text.Mathlib.Text.{◌==◌ as str_eq}
use memory_tiering.Prelude.{
  ℕ, List, [], ◌∷◌, ◌++◌, map, Bool, true, false, Option, none, some, if◌then◌else◌, ◌&&◌,
}
use memory_tiering.Campaign.{Turn, pass, next, halt, Ended, finished, halted, run_jobs}
use memory_tiering.Campaign.Attempts.{next_attempt}

pub record Job : Type 0 where
  pub job : String
  pub case : String
  -- `none` for the preparation of the inputs.
  pub name : Option String
  pub options : List String
  pub key : Option String

cases_of : String → List String → List String → List Job
cases_of case options [] = []
cases_of case options (n ∷ ns) =
    record {
      job = join (join case "-") n;
      case = case;
      name = some n;
      options = options;
      key = none;
    }
    ∷ cases_of case options ns

dataset : String → String → Job
dataset name key = record {
  job = join "dataset-" name;
  case = "dataset";
  name = some name;
  options = [];
  key = some key;
}

unfoldable pub jobs : List Job
unfolding cases_of dataset
jobs =
    cases_of "threads20" ("--threads" ∷ "20" ∷ []) ("bfs" ∷ "cc" ∷ [])
    ++ (cases_of "trials3-close" ("--trials" ∷ "3" ∷ []) ("bfs" ∷ "cc" ∷ [])
        ++ (cases_of "trials3-pool" ("--trials" ∷ "3" ∷ "--roi-epoch" ∷ "0" ∷ [])
              ("bfs" ∷ "cc" ∷ [])
            ++ (cases_of "setup-warmed" ("--warm-setup" ∷ []) ("bfs" ∷ "cc" ∷ [])
                ++ (cases_of "pr-artifact-convergence"
                      ("--pr-iterations" ∷ "1000" ∷ "--pr-tolerance" ∷ "0.0001" ∷ []) ("pr" ∷ [])
                    ++ (record {
                      job = "prepare-inputs";
                      case = "";
                      name = none;
                      options = [];
                      key = none;
                    }
                        ∷ dataset "bfs" "twitter-main"
                        ∷ dataset "cc" "twitter-main"
                        ∷ dataset "pr" "twitter-main"
                        ∷ dataset "tc" "twitter-tc"
                        ∷ dataset "bc" "gplus-bc"
                        ∷ dataset "sssp" "gplus-sssp"
                        ∷ [])))))

pub data Status : Type 0 where
  queued running complete interrupted failed : Status

-- `OUT/case`, or the attempt directory below it.
pub data Directory : Type 0 where
  directory : String → Directory
  attempt_of : String → ℕ → Directory

pub data Word : Type 0 where
  arg : String → Word
  out_dir : Directory → Word
  inputs_file : Word
  graph_path : String → Word
  graph_family : String → Word

pub record Row : Type 0 where
  pub status : Status
  pub tool_sha : Option String
  pub output : Option Directory
  pub command : List Word

-- How the process of a job ended, and its manifest.
pub data Result : Type 0 where
  succeeded nonzero_exit incomplete_manifest keyboard_interrupt : Result

pub record World : Type 0 where
  -- The tool's digest.
  pub digest : String
  -- The status of the manifest in `OUT/case`, if there is one: is it complete?
  pub manifest : String → String → Option Bool
  pub taken : String → List ℕ
  pub result : Job → Result

output_of : World → String → String → Directory
output_of w case name = elim (w.manifest case name) [
  | none ↦ directory case
  | some true ↦ directory case
  | some false ↦ attempt_of case (next_attempt (w.taken case))
]

graph_options : Option String → List Word
graph_options none = []
graph_options (some key) =
    arg "--graph-prefix" ∷ graph_path key ∷ arg "--graph-family" ∷ graph_family key ∷ []

pub is_complete : Status → Bool
is_complete complete = true
is_complete _ = false

pub has_digest : World → Option String → Bool
has_digest w none = false
has_digest w (some d) = str_eq d w.digest

-- The row of a job while it runs.
pub launched : World → Job → Row → Option String → Row
launched w j row none = record row {
  status = running;
  tool_sha = some w.digest;
  command = arg "benchmarks/prepare_fidelity_inputs.py" ∷ arg "--out" ∷ inputs_file ∷ [];
}
launched w j row (some name) =
    let dir = output_of w j.case name in
    record row {
      status = running;
      tool_sha = some w.digest;
      output = some dir;
      command =
          (arg "experiments/run_paired.py"
            ∷ arg name
            ∷ arg "--epoch-traffic"
            ∷ arg "10"
            ∷ arg "--out"
            ∷ out_dir dir
            ∷ map arg j.options)
          ++ graph_options j.key;
    }

-- A manifest is read only for a job with a name.
pub settle : Row → Option String → Result → Turn Row
settle row name succeeded = next (record row { status = complete })
settle row none incomplete_manifest = next (record row { status = complete })
settle row (some name) incomplete_manifest = halt (record row { status = failed })
settle row name nonzero_exit = halt (record row { status = failed })
settle row name keyboard_interrupt = halt (record row { status = interrupted })

unfoldable pub turn : World → Job → Row → Turn Row
unfolding is_complete has_digest launched output_of graph_options settle
turn w j row =
    if is_complete row.status && has_digest w row.tool_sha
    then pass
    else settle (launched w j row j.name) j.name (w.result j)

abbrev pub queued_row : Row
queued_row = record { status = queued; tool_sha = none; output = none; command = [] }

pub record State : Type 0 where
  pub rows : String → Row
  pub status : Status
  pub tool_sha : String
  pub current : Option String

close : World → Ended Row → State
close w (finished rows) = record {
  rows = rows;
  status = complete;
  tool_sha = w.digest;
  current = none;
}
close w (halted k rows) = record {
  rows = rows;
  status = (rows k).status;
  tool_sha = w.digest;
  current = some k;
}

-- `state['jobs']` is given with a queued row for each job that has none.
unfoldable pub campaign : World → (String → Row) → State
unfolding close
campaign w rows = close w (run_jobs (λ (j : Job). j.job) (turn w) jobs rows)
