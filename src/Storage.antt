-- ===== src/Storage.antt =====
-- experiments/migrate_raw_storage.py: record files are copied to the research drive, verified, and
-- replaced by links. A file is its content, a text; its digest and what a copy leaves behind are
-- arguments. Paths are relative, to `results` and to the drive's directory alike.
pub mod Laws
use Prim.Native.String.{String}
use text.Mathlib.Text.{◌==◌ as str_eq}
use memory_tiering.Prelude.{
  List, [], ◌∷◌, Bool, true, false, Option, none, some, if◌then◌else◌, not, ◌&&◌,
}

pub data Entry : Type 0 where
  absent : Entry
  regular : String → Entry
  -- A link to a file of the drive.
  link : String → Entry

pub record World : Type 0 where
  -- `findmnt` finds the ext4 drive at `/mnt/research`.
  pub mounted : Bool
  pub results : String → Entry
  pub drive : String → Option String
  -- The digests that the `.sha256.json` files record.
  pub digests : String → Option String

pub data Migrated : Type 0 where
  migrated not_mounted destination_differs copy_failed : World → Migrated

unfoldable pub assign : {A : Type 0} → (String → A) → String → A → String → A
assign f path a p = if str_eq p path then a else f p

abbrev on_drive : (String → Option String) → Entry → Option String
on_drive drive absent = none
on_drive drive (regular c) = some c
on_drive drive (link t) = drive t

-- What a program reads at a path of `results`.
unfoldable pub read : World → String → Option String
read w p = on_drive w.drive (w.results p)

module _ (sha : String → String) (copy : String → String → String) (suffix : String → Bool) where
  -- The link replaces the file, and the digest is recorded.
  replace_by_link : World → String → String → World
  replace_by_link w path h = record w {
    results = assign w.results path (link path);
    digests = assign w.digests path (some h);
  }

  -- `target` is there already, or it is copied to a partial file and renamed.
  move_content : World → String → String → Option String → Migrated
  move_content w path c (some d) =
      if str_eq (sha d) (sha c)
      then migrated (replace_by_link w path (sha c))
      else destination_differs w
  move_content w path c none =
      let d = copy path c in
      if str_eq (sha d) (sha c)
      then migrated
          (replace_by_link (record w { drive = assign w.drive path (some d) }) path (sha c))
      else copy_failed w

  move_entry : World → String → Entry → Migrated
  move_entry w path absent = migrated w
  move_entry w path (link t) = migrated w
  move_entry w path (regular c) =
      if suffix path then move_content w path c (w.drive path) else migrated w

  unfoldable pub migrate_one : World → String → Migrated
  unfolding move_entry move_content replace_by_link
  migrate_one w path = move_entry w path (w.results path)

  -- An exception ends the loop.
  unfoldable pub migrate_all : World → List String → Migrated
  migrate_all w [] = migrated w
  migrate_all w (path ∷ paths) = elim (migrate_one w path) [
    | migrated w' ↦ migrate_all w' paths
    | not_mounted w' ↦ not_mounted w'
    | destination_differs w' ↦ destination_differs w'
    | copy_failed w' ↦ copy_failed w'
  ]

  unfoldable pub migrate : World → List String → Migrated
  migrate w paths = if w.mounted then migrate_all w paths else not_mounted w
