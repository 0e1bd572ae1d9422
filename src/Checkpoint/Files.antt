-- ===== src/Checkpoint/Files.antt =====
-- experiments/checkpoint_sim.py: the images of a state directory. A file is its hash.
use Prim.Native.String.{String}
use text.Mathlib.Text.{◌==◌ as str_eq}
use memory_tiering.Prelude.{
  ℕ, ◌-◌, List, [], ◌∷◌, ◌++◌, Bool, false, Option, none, some, if◌then◌else◌, ◌&&◌, not, ◌==◌,
  length, take, drop, contains, filter,
}

-- `images/<name>`, `history/<stamp>/<name>` and `history/<stamp>/unverified-<name>`.
pub data Place : Type 0 where
  image : String → Place
  kept : ℕ → String → Place
  unverified : ℕ → String → Place

-- `latest.json`.
pub record Latest : Type 0 where
  pub place : Place
  pub sha : String

pub record Disk : Type 0 where
  pub latest : Option Latest
  pub files : Place → Option String
  -- The names in `images`, and the directories of `history` in their order.
  pub images : List String
  pub history : List ℕ

unfoldable pub place_eq : Place → Place → Bool
place_eq (image a) (image b) = str_eq a b
place_eq (kept s a) (kept t b) = (s == t) && str_eq a b
place_eq (unverified s a) (unverified t b) = (s == t) && str_eq a b
place_eq _ _ = false

abbrev pub read : Disk → Place → Option String
read d p = d.files p

unfoldable pub move : Place → Place → (Place → Option String) → Place → Option String
move old new files p =
    if place_eq p new then files old else if place_eq p old then none else files p

unfoldable pub set_aside : ℕ → Latest → Place → Disk → Disk
set_aside stamp l (image n) d = record d {
  latest = some (record { place = kept stamp n; sha = l.sha });
  files = move (image n) (kept stamp n) d.files;
  images = filter (λ m. not (str_eq m n)) d.images;
}
set_aside stamp l (kept s n) d = d
set_aside stamp l (unverified s n) d = d

-- An image that `latest.json` names in `images` goes to the new directory, and `latest.json` with it.
unfoldable pub set_aside_latest : ℕ → Disk → Disk
unfolding set_aside
set_aside_latest stamp d = elim (d.latest) [ none ↦ d | some l ↦ set_aside stamp l l.place d ]

unfoldable pub move_all : ℕ → List String → (Place → Option String) → Place → Option String
move_all stamp [] files = files
move_all stamp (n ∷ ns) files = move_all stamp ns (move (image n) (unverified stamp n) files)

-- The new directory, the image of `latest.json`, then every other image.
unfoldable pub start_checkpoint : ℕ → Disk → Disk
unfolding move_all
start_checkpoint stamp d =
    let aside = set_aside_latest stamp (record d { history = d.history ++ stamp ∷ [] }) in
    record aside { files = move_all stamp aside.images aside.files; images = [] }

unfoldable pub write : String → String → (Place → Option String) → Place → Option String
write name sha files p = if place_eq p (image name) then some sha else files p

-- The images that a checkpoint which is not finalized leaves.
unfoldable pub write_all : List (String × String) → Disk → Disk
unfolding write
write_all [] d = d
write_all ((name, sha) ∷ rest) d =
    write_all rest (record d { files = write name sha d.files; images = name ∷ d.images })

-- `rmtree` of the directories `gone`.
unfoldable pub remove : List ℕ → (Place → Option String) → Place → Option String
remove gone files (image n) = files (image n)
remove gone files (kept s n) = if contains gone s then none else files (kept s n)
remove gone files (unverified s n) = if contains gone s then none else files (unverified s n)

-- `history[:-2]`
abbrev pub obsolete : List ℕ → List ℕ
obsolete history = take (length history - 2) history

abbrev pub recent : List ℕ → List ℕ
recent history = drop (length history - 2) history

-- The finalized image becomes `latest.json`, and all directories but the last two go.
unfoldable pub finalize : String → String → Disk → Disk
unfolding write remove
finalize name sha d = record {
  latest = some (record { place = image name; sha = sha });
  files = remove (obsolete d.history) (write name sha d.files);
  images = name ∷ d.images;
  history = recent d.history;
}
