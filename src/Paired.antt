-- ===== src/Paired.antt =====
-- experiments/run_paired.py: one instrumented run for each workload, its command and its manifest.
-- Integers of the command line are signed; a tolerance is a fraction. Paths, hashes and what the
-- processes do are given by an `Env`: names computed from paths are texts of their own kind, which
-- no literal of the code equals.
pub mod Command
pub mod Store
pub mod Runs
use Prim.Native.String.{String}
use text.Mathlib.Text.{◌==◌ as str_eq}
use memory_tiering.Prelude.{
  ℕ, ◌*◌, List, [], ◌∷◌, ◌++◌, Bool, true, false, Option, none, some, if◌then◌else◌, not, ◌&&◌,
  ◌||◌, zero, suc,
}
use memory_tiering.Prelude.Int.{ℤ, pos, negsuc, neg}

pub data Token : Type 0 where
  word : String → Token
  computed : String → Token
  number : ℤ → Token
  real : ℤ → ℕ → Token

pub data SyncMode : Type 0 where
  legacy mutex : SyncMode

pub data TrackAlgo : Type 0 where
  spacesaving cmsketch : TrackAlgo

-- The parsed options.
pub record Args : Type 0 where
  pub scale : ℤ
  pub threads : ℤ
  pub sync_mode : SyncMode
  pub local_bbl : Bool
  pub private_parallel : Bool
  pub trials : ℤ
  pub application_stats : Bool
  pub pr_iterations : Option ℤ
  pub pr_tolerance : Option (ℤ × ℕ)
  pub roi_epoch : Bool
  pub epoch_refs : ℤ
  pub epoch_traffic : ℤ
  pub graph_prefix : Option String
  pub graph_family : String
  pub llc_ways : ℤ
  pub warm_setup : Bool
  pub process_scope : Bool
  pub max_epochs : ℤ
  pub dump_pages : Bool
  pub gzip_pages : Bool
  pub dump_max_mb : ℤ
  pub track_algo : Option TrackAlgo
  pub track_budgets : String
  pub track_k : ℤ

pub data ArgError : Type 0 where
  epoch_lengths thread_counts scope_with_warm iteration_limit tolerance family unsupported :
      ArgError

abbrev pub positive : ℤ → Bool
positive (pos zero) = false
positive (pos (suc n)) = true
positive (negsuc n) = false

abbrev negative : ℤ → Bool
negative (pos n) = false
negative (negsuc n) = true

abbrev nonzero : ℤ → Bool
nonzero (pos zero) = false
nonzero (pos (suc n)) = true
nonzero (negsuc n) = true

-- Python's `n * i`.
abbrev times : ℕ → ℤ → ℤ
times n (pos i) = pos (n * i)
times n (negsuc i) = neg (n * suc i)

-- `--gzip-pages` implies a dump with no limit.
unfoldable pub normalise : Args → Args
normalise a = if a.gzip_pages then record a { dump_pages = true; dump_max_mb = pos 0 } else a

bad_iterations : Option ℤ → Bool
bad_iterations none = false
bad_iterations (some n) = not (positive n)

bad_tolerance : Option (ℤ × ℕ) → Bool
bad_tolerance none = false
bad_tolerance (some (n, d)) = not (positive n)

-- The checks, in order.
unfoldable pub check_args : Args → Option ArgError
unfolding bad_iterations bad_tolerance
check_args a =
    if not (positive a.epoch_refs) || negative a.epoch_traffic
    then some epoch_lengths
    else if not (positive a.threads) || not (positive a.trials)
    then some thread_counts
    else if a.process_scope && a.warm_setup
    then some scope_with_warm
    else if bad_iterations a.pr_iterations
    then some iteration_limit
    else if bad_tolerance a.pr_tolerance
    then some tolerance
    else elim (a.graph_prefix) [
      | none ↦ none
      | some p ↦ if str_eq a.graph_family "synthetic Kronecker" then some family else none
    ]

-- The paths of a run and what is read of the files.
pub record Env : Type 0 where
  pub machine : String
  pub pin : String
  pub tool : String
  pub binary : String → String
  pub graph : String → String
  pub prefix : String → String
  pub tag : String → String
  pub tool_sha : String
  pub executable_sha : String → String
  pub input_sha : String → String

abbrev pub flag : Bool → Token
flag b = number (if b then pos 1 else pos 0)

abbrev mode_name : SyncMode → Token
mode_name legacy = word "legacy"
mode_name mutex = word "mutex"

abbrev algo_name : TrackAlgo → Token
algo_name spacesaving = word "spacesaving"
algo_name cmsketch = word "cmsketch"

abbrev is_some : Option TrackAlgo → Bool
is_some none = false
is_some (some a) = true

unfoldable pub is_word : String → Token → Bool
is_word w (word v) = str_eq v w
is_word w (computed v) = false
is_word w (number n) = false
is_word w (real n d) = false

-- The command before the edits.
unfoldable pub base_command : Args → Env → String → List Token
base_command a e name =
    word "setarch"
    ∷ computed e.machine
    ∷ word "-R"
    ∷ computed e.pin
    ∷ word "-t"
    ∷ computed e.tool
    ∷ word "-paired"
    ∷ number (pos 1)
    ∷ word "-epoch_refs"
    ∷ number (if nonzero a.epoch_traffic then pos 0 else a.epoch_refs)
    ∷ word "-epoch"
    ∷ number a.epoch_traffic
    ∷ word "-max_epochs"
    ∷ number a.max_epochs
    ∷ word "-dump_pages"
    ∷ flag a.dump_pages
    ∷ word "-dump_max_mb"
    ∷ number a.dump_max_mb
    ∷ word "-track"
    ∷ flag (is_some a.track_algo)
    ∷ word "-l3_kb"
    ∷ number (times 4096 a.llc_ways)
    ∷ word "-l3_assoc"
    ∷ number a.llc_ways
    ∷ word "-warm_outside_roi"
    ∷ flag a.warm_setup
    ∷ word "-roi_begin"
    ∷ word "hotskew_roi_begin"
    ∷ word "-roi_end"
    ∷ word "hotskew_roi_end"
    ∷ word "-roi_epoch"
    ∷ flag a.roi_epoch
    ∷ word "-tag"
    ∷ computed (e.tag name)
    ∷ word "-o"
    ∷ computed (e.prefix name)
    ∷ word "--"
    ∷ computed (e.binary name)
    ∷ word "-f"
    ∷ computed (e.graph name)
    ∷ word "-n"
    ∷ number a.trials
    ∷ []

-- `at = cmd.index(mark); cmd[at:at] = new`. The mark stands in every command that is built.
unfoldable pub insert_before : String → List Token → List Token → List Token
unfolding is_word
insert_before mark new [] = []
insert_before mark new (t ∷ ts) =
    if is_word mark t then new ++ t ∷ ts else t ∷ insert_before mark new ts

drop_four : List Token → List Token
drop_four (a ∷ b ∷ c ∷ d ∷ rest) = rest
drop_four _ = []

-- `at = cmd.index('-roi_begin'); del cmd[at:at+4]`
unfoldable pub delete_roi : List Token → List Token
unfolding is_word drop_four
delete_roi [] = []
delete_roi (t ∷ ts) = if is_word "-roi_begin" t then drop_four (t ∷ ts) else t ∷ delete_roi ts

-- The knobs that are inserted before the application's part.
unfoldable pub sync_knobs : Args → List Token
sync_knobs a =
    (if a.private_parallel then word "-private_parallel" ∷ number (pos 1) ∷ [] else [])
    ++ word "-sync_mode" ∷ mode_name a.sync_mode ∷ word "-local_bbl" ∷ flag a.local_bbl ∷ []

unfoldable pub track_knobs : Args → TrackAlgo → List Token
track_knobs a algo =
    word "-track_algo"
    ∷ algo_name algo
    ∷ word "-track_n"
    ∷ computed a.track_budgets
    ∷ word "-track_k"
    ∷ number a.track_k
    ∷ word "-dump_topk"
    ∷ number (pos 1)
    ∷ []

unfoldable pub pr_options : Args → String → List Token
pr_options a name =
    if str_eq name "pr"
    then (elim (a.pr_iterations) [ none ↦ [] | some n ↦ word "-i" ∷ number n ∷ [] ])
      ++ (elim (a.pr_tolerance) [ none ↦ [] | some (n, d) ↦ word "-t" ∷ real n d ∷ [] ])
    else []

abbrev is_mutex : SyncMode → Bool
is_mutex legacy = false
is_mutex mutex = true

unfoldable pub with_roi : Args → List Token → List Token
with_roi a cmd = if a.process_scope then delete_roi cmd else cmd

with_stats : Args → List Token → List Token
with_stats a cmd = if a.application_stats then cmd ++ word "-a" ∷ [] else cmd

with_sync : Args → List Token → List Token
with_sync a cmd =
    if is_mutex a.sync_mode || a.local_bbl || a.private_parallel
    then insert_before "--" (sync_knobs a) cmd
    else cmd

tracked : Args → Option TrackAlgo → List Token → List Token
tracked a none cmd = cmd
tracked a (some algo) cmd = insert_before "--" (track_knobs a algo) cmd

with_tracker : Args → List Token → List Token
with_tracker a cmd = tracked a a.track_algo cmd

-- The edits in the order of the code.
unfoldable pub command : Args → Env → String → List Token
unfolding with_roi with_stats with_sync with_tracker tracked
command a e name =
    with_tracker a
      (with_sync a (with_stats a (with_roi a (base_command a e name))) ++ pr_options a name)
