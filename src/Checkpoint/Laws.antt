-- ===== src/Checkpoint/Laws.antt =====
-- The last finalized snapshot stays available, and a paused simulator can be resumed.
use Prim.Native.String.{String}
use text.Mathlib.TextPositions.{eq_refl}
use memory_tiering.Prelude.{
  ℕ, ◌≡◌, refl, ◌∙◌, inl, inr, List, [], ◌∷◌, ◌++◌, Bool, true, false, Option, none, some, ltb,
  ==_refl, Bool-cases,
}
use memory_tiering.Checkpoint.Files.{
  Disk, Latest, Place, image, kept, unverified, place_eq, move, move_all, set_aside,
  set_aside_latest, start_checkpoint, write, write_all, remove, finalize,
}
use memory_tiering.Checkpoint.{
  restart, start, begin, has_hash, strings_eq, is_complete, Dmtcp, not_finalized, finalized, Tick,
  process_ended, idle, checkpoint, Exit, alive, finished, paused_run, error, floor, after, outcome,
  status_of, checkpointed, Supervisor, tick, go_on, supervise, paused,
}

-- `latest.json` names no unverified image.
abbrev Verified : Place → Type 0
Verified (image n) = Unit
Verified (kept s n) = Unit
Verified (unverified s n) = ⊥

abbrev Aside : Place → Type 0
Aside (image n) = ⊥
Aside (kept s n) = Unit
Aside (unverified s n) = ⊥

abbrev Names : (Place → Type 0) → Option Latest → (Place → Option String) → Type 0
Names P none files = Unit
Names P (some l) files = P l.place × (files l.place ≡ some l.sha)

-- The image that `latest.json` names is there, with its hash, and is no unverified one.
abbrev pub IsAvailable : Disk → Type 0
IsAvailable d = Names Verified d.latest d.files

-- It is in no place that a new checkpoint writes.
abbrev IsAside : Disk → Type 0
IsAside d = Names Aside d.latest d.files

IsAside-IsAvailable : (d : Disk) → IsAside d → IsAvailable d
IsAside-IsAvailable d h = go d.latest h
  where
    weaken : (p : Place) → Aside p → Verified p
    weaken (kept s n) a = tt
    weaken (image n) a = tt
    weaken (unverified s n) a = a

    go : (o : Option Latest) → Names Aside o d.files → Names Verified o d.files
    go none h = tt
    go (some l) h = (weaken l.place h.0, h.1)

set_aside-IsAside :
    (stamp : ℕ) (l : Latest) (p : Place) (d : Disk)
    → d.latest ≡ some l
    → l.place ≡ p
    → Verified p
    → d.files p ≡ some l.sha
    → IsAside (set_aside stamp l p d)
unfolding set_aside move place_eq
set_aside-IsAside stamp l (image n) d e q v h = (tt, rw (==_refl stamp, eq_refl n) h)
set_aside-IsAside stamp l (kept s n) d e q v h = rw e (rw q (tt, h))
set_aside-IsAside stamp l (unverified s n) d e q v h = absurd v

set_aside_latest-IsAside :
    (stamp : ℕ) (d : Disk) → IsAvailable d → IsAside (set_aside_latest stamp d)
unfolding set_aside_latest
set_aside_latest-IsAside stamp d h = go d.latest refl h
  where
    go :
        (o : Option Latest)
        → d.latest ≡ o
        → Names Verified o d.files
        → IsAside (elim o [ none ↦ d | some l ↦ set_aside stamp l l.place d ])
    go none e h = rw e tt
    go (some l) e h = set_aside-IsAside stamp l l.place d e refl h.0 h.1

move_all-Names :
    (stamp : ℕ) (ns : List String) (o : Option Latest) (files : Place → Option String)
    → Names Aside o files
    → Names Aside o (move_all stamp ns files)
unfolding move_all
move_all-Names stamp [] o files h = h
move_all-Names stamp (n ∷ ns) o files h =
    move_all-Names stamp ns o (move (image n) (unverified stamp n) files) (moved o h)
  where
    at : (p : Place) → Aside p → move (image n) (unverified stamp n) files p ≡ files p
    at (kept s m) a = unfold move place_eq in refl
    at (image m) a = absurd a
    at (unverified s m) a = absurd a

    moved :
        (o : Option Latest)
        → Names Aside o files
        → Names Aside o (move (image n) (unverified stamp n) files)
    moved none h = tt
    moved (some l) h = (h.0, at l.place h.0 ∙ h.1)

start_checkpoint-IsAside :
    (stamp : ℕ) (d : Disk) → IsAvailable d → IsAside (start_checkpoint stamp d)
unfolding start_checkpoint
start_checkpoint-IsAside stamp d h =
    let aside = set_aside_latest stamp (record d { history = d.history ++ stamp ∷ [] }) in
    move_all-Names stamp aside.images aside.latest aside.files
      (set_aside_latest-IsAside stamp (record d { history = d.history ++ stamp ∷ [] }) h)

write_all-IsAside :
    (written : List (String × String)) (d : Disk) → IsAside d → IsAside (write_all written d)
unfolding write_all
write_all-IsAside [] d h = h
write_all-IsAside ((name, sha) ∷ rest) d h =
    write_all-IsAside rest (record d { files = write name sha d.files; images = name ∷ d.images })
      (kept_at d.latest h)
  where
    at : (p : Place) → Aside p → write name sha d.files p ≡ d.files p
    at (kept s m) a = unfold write place_eq in refl
    at (image m) a = absurd a
    at (unverified s m) a = absurd a

    kept_at : (o : Option Latest) → Names Aside o d.files → Names Aside o (write name sha d.files)
    kept_at none h = tt
    kept_at (some l) h = (h.0, at l.place h.0 ∙ h.1)

finalize-IsAvailable : (name sha : String) (d : Disk) → IsAvailable (finalize name sha d)
unfolding finalize remove write place_eq
finalize-IsAvailable name sha d = (tt, rw (eq_refl name) refl)

after-IsAvailable :
    (d : Disk) (stamp : ℕ) (r : Dmtcp) → IsAvailable d → IsAvailable (after d stamp r)
unfolding after
after-IsAvailable d stamp (not_finalized written) h =
    IsAside-IsAvailable (write_all written (start_checkpoint stamp d))
      (write_all-IsAside written (start_checkpoint stamp d) (start_checkpoint-IsAside stamp d h))
after-IsAvailable d stamp (finalized name sha e) h =
    finalize-IsAvailable name sha (start_checkpoint stamp d)

tick-IsAvailable : (d : Disk) (t : Tick) → IsAvailable d → IsAvailable (tick d t).disk
unfolding tick
tick-IsAvailable d (process_ended true) h = h
tick-IsAvailable d (process_ended false) h = h
tick-IsAvailable d idle h = h
tick-IsAvailable d (checkpoint pause stamp free r) h = elim (Bool-cases (ltb free floor)) [
  | inl b ↦ rw b h
  | inr b ↦ rw b (after-IsAvailable d stamp r h)
]

go_on-IsAvailable :
    (x : Exit) (s later : Supervisor)
    → IsAvailable s.disk
    → IsAvailable later.disk
    → IsAvailable (go_on x s later).disk
unfolding go_on
go_on-IsAvailable alive s later h k = k
go_on-IsAvailable finished s later h k = h
go_on-IsAvailable paused_run s later h k = h
go_on-IsAvailable error s later h k = h

-- However the supervision goes, with checkpoints that fail, are not finalized or find the drive full,
-- if the image that `latest.json` names is on disk with its hash at the start, the same holds of the
-- image that it names at the end.
pub supervise-IsAvailable :
    (ts : List Tick) (d : Disk) → IsAvailable d → IsAvailable (supervise d ts).disk
unfolding supervise
supervise-IsAvailable [] d h = h
supervise-IsAvailable (t ∷ ts) d h =
    go_on-IsAvailable (tick d t).exit (tick d t) (supervise (tick d t).disk ts)
      (tick-IsAvailable d t h) (supervise-IsAvailable ts (tick d t).disk (tick-IsAvailable d t h))

strings_eq_refl : (ss : List String) → strings_eq ss ss ≡ true
unfolding strings_eq
strings_eq_refl [] = refl
strings_eq_refl (s ∷ ss) = rw (eq_refl s, strings_eq_refl ss)

-- A restart of the same command on the same files goes on from the image of `latest.json`.
abbrev pub Resumes : List String → List String → Supervisor → Type 0
Resumes command fingerprint s =
    (l : Latest) × (s.disk.latest ≡ some l)
    × (start command fingerprint
          (some (record { command = command; fingerprint = fingerprint; status = s.status })) s.disk
        ≡ restart l.place)

finalized-Resumes :
    (command fingerprint : List String) (name sha : String) (d : Disk)
    → Resumes command fingerprint
        (record { disk = finalize name sha d; status = paused; exit = paused_run })
unfolding start finalize begin has_hash is_complete remove write place_eq
finalized-Resumes command fingerprint name sha d = (
  record { place = image name; sha = sha },
  refl,
  rw (strings_eq_refl command, strings_eq_refl fingerprint, eq_refl name, eq_refl sha) refl,
)

checkpointed-Resumes :
    (command fingerprint : List String) (d : Disk) (pause : Bool) (stamp : ℕ) (r : Dmtcp)
    → outcome pause r ≡ paused_run
    → Resumes command fingerprint (checkpointed d pause stamp r)
unfolding outcome checkpointed status_of after
checkpointed-Resumes command fingerprint d pause stamp (not_finalized written) e = absurd (cc)
checkpointed-Resumes command fingerprint d false stamp (finalized name sha x) e = absurd (cc)
checkpointed-Resumes command fingerprint d true stamp (finalized name sha true) e = absurd (cc)
checkpointed-Resumes command fingerprint d true stamp (finalized name sha false) e =
    finalized-Resumes command fingerprint name sha (start_checkpoint stamp d)

tick-Resumes :
    (command fingerprint : List String) (d : Disk) (t : Tick)
    → (tick d t).exit ≡ paused_run
    → Resumes command fingerprint (tick d t)
unfolding tick checkpointed
tick-Resumes command fingerprint d (process_ended true) e = absurd (cc)
tick-Resumes command fingerprint d (process_ended false) e = absurd (cc)
tick-Resumes command fingerprint d idle e = absurd (cc)
tick-Resumes command fingerprint d (checkpoint pause stamp free r) e =
    elim (Bool-cases (ltb free floor)) [
      | inl b ↦ absurd (no_pause (rw b at e))
      | inr b ↦ rw b (checkpointed-Resumes command fingerprint d pause stamp r (rw b at e))
    ]
  where
    no_pause : ¬ (error ≡ paused_run)
    no_pause p = cc

-- When a run ends as paused, whatever it did before, running the same command on the same guarded
-- files again resumes from the image that `latest.json` names: its hash agrees, and neither a refusal
-- nor a launch from the beginning can happen.
pub supervise-Resumes :
    (command fingerprint : List String) (ts : List Tick) (d : Disk)
    → (supervise d ts).exit ≡ paused_run
    → Resumes command fingerprint (supervise d ts)
unfolding supervise
supervise-Resumes command fingerprint [] d e = absurd (cc)
supervise-Resumes command fingerprint (t ∷ ts) d e =
    go (tick d t).exit (tick d t) (supervise (tick d t).disk ts) refl
      (tick-Resumes command fingerprint d t)
      (supervise-Resumes command fingerprint ts (tick d t).disk) e
  where
    go :
        (x : Exit) (s later : Supervisor)
        → s.exit ≡ x
        → (s.exit ≡ paused_run → Resumes command fingerprint s)
        → (later.exit ≡ paused_run → Resumes command fingerprint later)
        → (go_on x s later).exit ≡ paused_run
        → Resumes command fingerprint (go_on x s later)
    go alive s later p here there q = unfold go_on in there q
    go finished s later p here there q = unfold go_on in here q
    go paused_run s later p here there q = unfold go_on in here q
    go error s later p here there q = unfold go_on in here q
