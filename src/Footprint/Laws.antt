-- ===== src/Footprint/Laws.antt =====
-- The selected graph against the other candidates.
use Prim.Native.String.{String}
use text.Mathlib.Text.{◌==◌ as str_eq}
use memory_tiering.Prelude.{◌≤◌, List, All}
use memory_tiering.Footprint.{Trial}

-- No candidate deviates less.
abbrev pub IsLeast : Trial → List Trial → Type 0
IsLeast b ts = All (λ (t : Trial). b.deviation ≤ t.deviation) ts
