-- ===== src/Checkpoint.antt =====
-- experiments/checkpoint_sim.py, `run`: the supervisor of a simulator process, its state directory and
-- what a restart goes on from. What DMTCP and the process do is given as a list of ticks of the loop.
pub mod Files
pub mod Laws
use Prim.Native.String.{String}
use text.Mathlib.Text.{◌==◌ as str_eq}
use memory_tiering.Prelude.{
  ℕ, ◌*◌, ◌-◌, ◌^◌, List, [], ◌∷◌, ◌++◌, Bool, true, false, Option, none, some, if◌then◌else◌, ◌&&◌,
  not, ltb, ◌==◌, length, drop,
}
use memory_tiering.Checkpoint.Files.{
  Disk, Latest, Place, image, read, start_checkpoint, write_all, finalize,
}

pub data Status : Type 0 where
  starting running checkpointing paused complete failed : Status

pub record Saved : Type 0 where
  pub command : List String
  -- The guarded paths, each with its hash.
  pub fingerprint : List String
  pub status : Status

unfoldable pub strings_eq : List String → List String → Bool
strings_eq [] [] = true
strings_eq (a ∷ more) (b ∷ rest) = str_eq a b && strings_eq more rest
strings_eq _ _ = false

pub data Start : Type 0 where
  changed_files hash_mismatch no_checkpoint already_complete : Start
  restart : Place → Start
  launch : Start

is_complete : Status → Bool
is_complete complete = true
is_complete _ = false

-- A read image with the hash that `latest.json` names.
has_hash : Option String → String → Bool
has_hash none h = false
has_hash (some g) h = str_eq g h

begin : Disk → Bool → Start
begin d has_old = elim (d.latest) [
  | some l ↦ if has_hash (read d l.place) l.sha then restart l.place else hash_mismatch
  | none ↦ if has_old then no_checkpoint else launch
]

unfoldable pub start : List String → List String → Option Saved → Disk → Start
unfolding is_complete has_hash begin
start command fingerprint none d = begin d false
start command fingerprint (some old) d =
    if not (strings_eq old.command command && strings_eq old.fingerprint fingerprint)
    then changed_files
    else if is_complete old.status
    then already_complete
    else begin d true

-- What a checkpoint command comes to: the images it leaves when it fails or is not finalized in time,
-- or the one image, its hash, and whether the process has by then ended with success.
pub data Dmtcp : Type 0 where
  not_finalized : List (String × String) → Dmtcp
  finalized : String → String → Bool → Dmtcp

-- A round of the loop: the process has ended, nothing is due, or a checkpoint is made, for a pause or
-- because the interval is over.
pub data Tick : Type 0 where
  process_ended : Bool → Tick
  idle : Tick
  checkpoint : Bool → ℕ → ℕ → Dmtcp → Tick

pub data Exit : Type 0 where
  -- The process still runs.
  alive : Exit
  finished paused_run error : Exit

-- The 25 GiB that a checkpoint needs.
unfoldable pub floor : ℕ
floor = 25 * 1024 ^ 3

unfoldable pub after : Disk → ℕ → Dmtcp → Disk
after d stamp (not_finalized written) = write_all written (start_checkpoint stamp d)
after d stamp (finalized name sha ended) = finalize name sha (start_checkpoint stamp d)

outcome : Bool → Dmtcp → Exit
outcome pause (not_finalized written) = error
outcome false (finalized name sha ended) = alive
outcome true (finalized name sha true) = finished
outcome true (finalized name sha false) = paused_run

pub record Supervisor : Type 0 where
  pub disk : Disk
  pub status : Status
  pub exit : Exit

status_of : Exit → Status
status_of alive = running
status_of finished = complete
status_of paused_run = paused
status_of error = failed

checkpointed : Disk → Bool → ℕ → Dmtcp → Supervisor
checkpointed d pause stamp dmtcp = record {
  disk = after d stamp dmtcp;
  status = status_of (outcome pause dmtcp);
  exit = outcome pause dmtcp;
}

unfoldable pub tick : Disk → Tick → Supervisor
unfolding checkpointed outcome status_of
tick d (process_ended true) = record { disk = d; status = complete; exit = finished }
tick d (process_ended false) = record { disk = d; status = failed; exit = error }
tick d idle = record { disk = d; status = running; exit = alive }
tick d (checkpoint pause stamp free dmtcp) =
    if ltb free floor
    then record { disk = d; status = failed; exit = error }
    else checkpointed d pause stamp dmtcp

-- The loop goes on while the process runs.
unfoldable pub go_on : Exit → Supervisor → Supervisor → Supervisor
go_on alive s later = later
go_on finished s later = s
go_on paused_run s later = s
go_on error s later = s

unfoldable pub supervise : Disk → List Tick → Supervisor
unfolding go_on
supervise d [] = record { disk = d; status = running; exit = alive }
supervise d (t ∷ ts) = let s = tick d t in let later = supervise s.disk ts in go_on s.exit s later
