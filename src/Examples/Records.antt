-- ===== src/Examples/Records.antt =====
-- A migration of two files whose second copy is damaged.
use Prim.Native.String.{String, ◌++◌ as join}
use text.Mathlib.Text.{◌==◌ as str_eq}
use memory_tiering.Prelude.{[], ◌∷◌, Bool, true, none, if◌then◌else◌}
use memory_tiering.Storage.{World, absent, regular, migrate}
use memory_tiering.Storage.Laws.{Keeps, world_of, migrate-Keeps}

abbrev digest : String → String
digest c = join "sha-" c

-- The copy of `b` loses its content.
abbrev faulty : String → String → String
faulty path c = if str_eq path "b" then "" else c

abbrev any_suffix : String → Bool
any_suffix path = true

abbrev disks : World
disks = record {
  mounted = true;
  results = λ p.
      if str_eq p "a" then regular "first" else if str_eq p "b" then regular "second" else absent;
  drive = λ p. none;
  digests = λ p. none;
}

migrate-Keeps_example :
    Keeps digest disks (world_of (migrate digest faulty any_suffix disks ("a" ∷ "b" ∷ [])))
migrate-Keeps_example = migrate-Keeps digest faulty any_suffix ("a" ∷ "b" ∷ []) disks
