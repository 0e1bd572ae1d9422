-- ===== src/Curves/Summary.antt =====
-- src/analysis/hotskew.py: `load_summary` and `figure4_from_summary`.
use Prim.Native.String.{String}
use text.Mathlib.Text.{◌==◌ as str_eq}
use memory_tiering.Prelude.{
  ℕ, zero, suc, List, [], ◌∷◌, Bool, true, false, Option, some, none, map, leb, ◌==◌, if◌then◌else◌,
}
use memory_tiering.Prelude.Int.{ℤ, pos, ◌+ℤ◌}
use memory_tiering.Histogram.{int_eq}

-- What the loop asks of a line: the prefixes it starts with, whether it is blank, the two fields at its
-- first comma, each as `int` reads it (`none` is its ValueError), and its key and value.
pub record Line : Type 0 where
  pub full_histogram : Bool
  pub figure10 : Bool
  pub comment : Bool
  pub log2_bucket : Bool
  pub blank : Bool
  pub fields : Option (Option ℤ × Option ℤ)
  pub key_value : Option (String × String)

pub data Section : Type 0 where
  no_section unique access : Section

pub record Meta : Type 0 where
  pub section : Section
  pub entries : List (String × String)
  pub unique_hist : ℕ → ℤ
  pub access_hist : List (ℤ × ℤ)

abbrev pub empty_meta : Meta
empty_meta = record {
  section = no_section;
  entries = [];
  unique_hist = λ k. pos 0;
  access_hist = [];
}

unfoldable pub in_section : Section → Bool
in_section no_section = false
in_section s = true

unfoldable pub set_unique : Meta → ℕ → ℤ → Meta
set_unique m n v = record m { unique_hist = λ k. if k == n then v else m.unique_hist k }

-- `access_hist[a] = b`
unfoldable pub set_access : List (ℤ × ℤ) → ℤ → ℤ → List (ℤ × ℤ)
unfolding int_eq
set_access [] k v = (k, v) ∷ []
set_access ((k', v') ∷ rest) k v =
    let others = set_access rest k v in if int_eq k' k then (k, v) ∷ rest else (k', v') ∷ others

-- A line of a histogram; a number that `int` refuses changes nothing.
unfoldable pub set_field : Meta → Section → Option ℤ → Option ℤ → Meta
unfolding set_unique set_access
set_field m unique (some (pos n)) (some v) = if leb n 64 then set_unique m n v else m
set_field m access (some a) (some v) = record m { access_hist = set_access m.access_hist a v }
set_field m s a b = m

-- `meta[key] = value`: a key keeps its place.
unfoldable pub set_entry : List (String × String) → String → String → List (String × String)
set_entry [] k v = (k, v) ∷ []
set_entry ((k', v') ∷ rest) k v =
    let others = set_entry rest k v in if str_eq k' k then (k, v) ∷ rest else (k', v') ∷ others

unfoldable pub add_key : Meta → Option (String × String) → Meta
unfolding set_entry in_section
add_key m none = m
add_key m (some (k, v)) =
    if in_section m.section then m else record m { entries = set_entry m.entries k v }

unfoldable pub read_line : Meta → Line → Meta
unfolding in_section set_field add_key
read_line m l =
    if l.full_histogram
    then record m { section = unique }
    else if l.figure10
    then record m { section = access }
    else if l.comment
    then (if l.log2_bucket then m else record m { section = no_section })
    else if l.blank
    then m
    else if in_section m.section
    then elim (l.fields) [ some f ↦ set_field m m.section f.0 f.1 | none ↦ add_key m l.key_value ]
    else add_key m l.key_value

-- A key that the file sets twice has its last value.
unfoldable pub read_lines : Meta → List Line → Meta
unfolding read_line
read_lines m [] = m
read_lines m (l ∷ ls) = read_lines (read_line m l) ls

unfoldable pub load_summary : List Line → Meta
unfolding read_lines
load_summary lines = read_lines empty_meta lines

-- `np.cumsum(hist)[n]`
unfoldable pub cumulative : (ℕ → ℤ) → ℕ → ℤ
cumulative hist zero = hist 0
cumulative hist (suc n) = cumulative hist n +ℤ hist (suc n)

pub record IntRatio : Type 0 where
  pub num : ℤ
  pub den : ℤ

unfoldable pub cdf_point : (ℕ → ℤ) → ℤ → ℕ → Option IntRatio
unfolding int_eq cumulative
cdf_point hist total n =
    if int_eq total (pos 0) then none else some (record { num = cumulative hist n; den = total })

-- The points of `ns` are at most 64.
unfoldable pub figure4_from_summary : List Line → List ℕ → List (Option IntRatio)
unfolding load_summary cdf_point
figure4_from_summary lines ns =
    let hist : ℕ → ℤ = (load_summary lines).unique_hist in
    map (cdf_point hist (cumulative hist 64)) ns
