-- ===== src/Histogram.antt =====
-- src/analysis/plot_paired.py, `read_hist`: a histogram of 65 bins from the rows of a file.
pub mod Laws
use Prim.Native.String.{String}
use text.Mathlib.Text.{◌==◌ as str_eq}
use memory_tiering.Prelude.{
  ℕ, ◌+◌, ◌*◌, ◌≤◌, List, [], ◌∷◌, Bool, true, false, Option, none, some, if◌then◌else◌, ◌&&◌, ◌||◌,
  not, ltb, leb, ◌==◌, suc, zero, length, contains,
}
use memory_tiering.Prelude.Int.{ℤ, pos, negsuc}

-- A row of the file.
pub record Row : Type 0 where
  pub scope : String
  pub stream : String
  pub population : String
  pub words : ℤ
  pub pages : ℤ
  pub events : ℤ

pub data Error : Type 0 where
  invalid_bin negative_count inconsistent_events incomplete : Error

-- The bins as a function, `seen`, and `events`.
pub record Reading : Type 0 where
  pub hist : ℕ → ℕ
  pub seen : List ℕ
  pub events : Option ℤ

pub data Read : Type 0 where
  refused : Error → Read
  read : Reading → Read

unfoldable pub int_eq : ℤ → ℤ → Bool
int_eq (pos a) (pos b) = a == b
int_eq (negsuc a) (negsuc b) = a == b
int_eq _ _ = false

unfoldable pub agrees : Option ℤ → ℤ → Bool
agrees none e = true
agrees (some f) e = int_eq f e

unfoldable pub set_bin : (ℕ → ℕ) → ℕ → ℕ → ℕ → ℕ
set_bin hist n v k = if k == n then v else hist k

unfoldable pub read_bin : Reading → ℤ → ℤ → ℤ → Read
unfolding agrees int_eq
read_bin s (negsuc n) pages events = refused invalid_bin
read_bin s (pos n) pages events =
    if contains s.seen n || not (leb n 64) then refused invalid_bin else elim pages [
      | negsuc p ↦ refused negative_count
      | pos p ↦
          if not (agrees s.events events)
          then refused inconsistent_events
          else read (record { hist = set_bin s.hist n p; seen = n ∷ s.seen; events = some events })
    ]

unfoldable pub selects : String → String → String → Row → Bool
selects scope stream population r =
    str_eq r.scope scope && str_eq r.stream stream && str_eq r.population population

abbrev pub empty : Reading
empty = record { hist = λ n. 0; seen = []; events = none }

-- `len(seen) != 65`
finish : Reading → Read
finish s = if length s.seen == 65 then read s else refused incomplete

module _ (p : Row → Bool) where
  unfoldable pub read_rows : List Row → Reading → Read
  unfolding finish
  read_rows [] s = finish s
  read_rows (r ∷ rs) s =
      let skipped = read_rows rs s in
      if not (p r) then skipped else elim (read_bin s r.words r.pages r.events) [
        | refused e ↦ refused e
        | read s' ↦ read_rows rs s'
      ]

unfoldable pub read_hist : List Row → String → String → String → Read
read_hist rows scope stream population = read_rows (selects scope stream population) rows empty
