-- ===== src/Storage/Laws.antt =====
-- No record is lost by a migration.
use Prim.Native.String.{String}
use text.Mathlib.Text.{◌==◌ as str_eq}
use text.Mathlib.TextEquality.{eq_iff}
use text.Mathlib.TextPositions.{eq_refl}
use memory_tiering.Prelude.{
  ◌≡◌, refl, ap, ◌∙◌, inl, inr, List, [], ◌∷◌, Bool, true, false, Option, none, some, if◌then◌else◌,
  Bool-cases,
}
use memory_tiering.Storage.{
  Entry, absent, regular, link, World, Migrated, migrated, not_mounted, destination_differs,
  copy_failed, assign, on_drive, read, replace_by_link, move_content, move_entry, migrate_one,
  migrate_all, migrate,
}

abbrev pub world_of : Migrated → World
world_of (migrated w) = w
world_of (not_mounted w) = w
world_of (destination_differs w) = w
world_of (copy_failed w) = w

module _ (sha : String → String) where
  -- What was read at a path is read there later, with the same digest.
  abbrev pub Keeps : World → World → Type 0
  Keeps v w =
      (p c : String) → read v p ≡ some c → (d : String) × (read w p ≡ some d) × (sha d ≡ sha c)

  Keeps-refl : (w : World) → Keeps w w
  Keeps-refl w p c h = (c, h, refl)

  Keeps-trans : (u v w : World) → Keeps u v → Keeps v w → Keeps u w
  Keeps-trans u v w a b p c h =
      let (d, hd, ed) = a p c h in let (e, he, ee) = b p d hd in (e, he, ee ∙ ed)

  -- A file with a copy of the same digest on the drive gives way to a link.
  replace_by_link-Keeps :
      (copy : String → String → String) (suffix : String → Bool) (w : World) (path c d h : String)
      → w.results path ≡ regular c
      → w.drive path ≡ some d
      → sha d ≡ sha c
      → Keeps w (replace_by_link sha copy suffix w path h)
  unfolding replace_by_link assign read
  replace_by_link-Keeps copy suffix w path c d h r s e p x g = elim (Bool-cases (str_eq p path)) [
    | inl b ↦ (d, rw b s, e ∙ ap sha (there ((eq_iff p path).0 b)))
    | inr b ↦ (x, rw b g, refl)
  ]
    where
      same : some c ≡ some x → c ≡ x
      same q = cc

      there : p ≡ path → c ≡ x
      there q = same (rw (q, r) at g)

  -- A new file on the drive hides nothing that a link leads to.
  add_copy-Keeps :
      (w : World) (path d : String)
      → w.drive path ≡ none
      → Keeps w (record w { drive = assign w.drive path (some d) })
  unfolding read assign
  add_copy-Keeps w path d n p x g = go (w.results p) g
    where
      go :
          (r : Entry)
          → on_drive w.drive r ≡ some x
          → (y : String) × (on_drive (assign w.drive path (some d)) r ≡ some y) × (sha y ≡ sha x)
      go absent q = absurd (cc)
      go (regular c) q = (x, q, refl)
      go (link t) q = elim (Bool-cases (str_eq t path)) [
        | inl b ↦ absurd (clash ((eq_iff t path).0 b) q)
        | inr b ↦ (x, rw b q, refl)
      ]
        where
          clash : t ≡ path → w.drive t ≡ some x → ⊥
          clash same q = cc

  module _ (copy : String → String → String) (suffix : String → Bool) where
    move_content-Keeps :
        (w : World) (path c : String) (o : Option String)
        → w.results path ≡ regular c
        → w.drive path ≡ o
        → Keeps w (world_of (move_content sha copy suffix w path c o))
    unfolding move_content
    move_content-Keeps w path c (some d) r s = elim (Bool-cases (str_eq (sha d) (sha c))) [
      | inr b ↦ rw b (Keeps-refl w)
      | inl b ↦
          rw b (
            replace_by_link-Keeps copy suffix w path c d (sha c) r s ((eq_iff (sha d) (sha c)).0 b))
    ]
    move_content-Keeps w path c none r s = elim (Bool-cases (str_eq (sha (copy path c)) (sha c))) [
      | inr b ↦ rw b (Keeps-refl w)
      | inl b ↦ rw b (
          Keeps-trans w copied (replace_by_link sha copy suffix copied path (sha c))
            (add_copy-Keeps w path (copy path c) s)
            (replace_by_link-Keeps copy suffix copied path c (copy path c) (sha c) r placed
              ((eq_iff (sha (copy path c)) (sha c)).0 b)))
    ]
      where
        copied : World
        copied = record w { drive = assign w.drive path (some (copy path c)) }

        placed : copied.drive path ≡ some (copy path c)
        placed = unfold assign in (rw (eq_refl path) refl)

    move_entry-Keeps :
        (w : World) (path : String) (r : Entry)
        → w.results path ≡ r
        → Keeps w (world_of (move_entry sha copy suffix w path r))
    unfolding move_entry
    move_entry-Keeps w path absent q = Keeps-refl w
    move_entry-Keeps w path (link t) q = Keeps-refl w
    move_entry-Keeps w path (regular c) q = elim (Bool-cases (suffix path)) [
      | inl b ↦ rw b (move_content-Keeps w path c (w.drive path) q refl)
      | inr b ↦ rw b (Keeps-refl w)
    ]

    migrate_all-Keeps :
        (paths : List String) (w : World) → Keeps w (world_of (migrate_all sha copy suffix w paths))
    unfolding migrate_all
    migrate_all-Keeps [] w = Keeps-refl w
    migrate_all-Keeps (path ∷ paths) w =
        go (migrate_one sha copy suffix w path)
          (unfold migrate_one in (move_entry-Keeps w path (w.results path) refl))
          (λ v. migrate_all-Keeps paths v)
      where
        go :
            (m : Migrated)
            → Keeps w (world_of m)
            → ((v : World) → Keeps v (world_of (migrate_all sha copy suffix v paths)))
            → Keeps w (
                world_of (elim m [
                  | migrated w' ↦ migrate_all sha copy suffix w' paths
                  | not_mounted w' ↦ not_mounted w'
                  | destination_differs w' ↦ destination_differs w'
                  | copy_failed w' ↦ copy_failed w'
                ]))
        go (migrated v) k rest =
            Keeps-trans w v (world_of (migrate_all sha copy suffix v paths)) k (rest v)
        go (not_mounted v) k rest = k
        go (destination_differs v) k rest = k
        go (copy_failed v) k rest = k

    -- Whatever a copy leaves behind, also when the migration stops with an error half-way, every file
    -- of the results that could be read before it can be read after it, at its own path, with the same
    -- digest.
    pub migrate-Keeps :
        (paths : List String) (w : World) → Keeps w (world_of (migrate sha copy suffix w paths))
    unfolding migrate
    migrate-Keeps paths w = go w.mounted
      where
        go :
            (b : Bool)
            → Keeps w (world_of (if b then migrate_all sha copy suffix w paths else not_mounted w))
        go true = migrate_all-Keeps paths w
        go false = Keeps-refl w
