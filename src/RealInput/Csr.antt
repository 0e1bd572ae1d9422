-- ===== src/RealInput/Csr.antt =====
-- experiments/validate_pin_real_input.py, `selected_nodes` and `induce`: the part of a graph in
-- compressed rows. The arrays are what the file holds; there are less than 2 ^ 31 vertices, as a
-- neighbour is an int32.
pub mod Laws
pub mod Layout
pub mod Whole
use Prim.Native.Nat.{bit_xor}
use memory_tiering.Prelude.{
  ℕ, zero, suc, ◌+◌, ◌-◌, ◌*◌, ◌/◌, ◌%◌, ◌^◌, List, [], ◌∷◌, ◌++◌, Bool, true, false, Option, some,
  none, map, ltb, leb, ◌==◌, if◌then◌else◌, not, ◌&&◌, ◌||◌, length, take, drop, any, contains,
  get_elem?,
}
use memory_tiering.Prelude.Int.{ℤ, pos, negsuc, pos_part, ltb_ℤ}
use memory_tiering.Histogram.{int_eq}

-- SplitMix64, in uint64.
unfoldable pub mixed : ℕ → ℕ
mixed vertex =
    let a = (vertex + 0x9e3779b97f4a7c15) % 2 ^ 64 in
    let b = (bit_xor a (a / 2 ^ 30) * 0xbf58476d1ce4e5b9) % 2 ^ 64 in
    let c = (bit_xor b (b / 2 ^ 27) * 0x94d049bb133111eb) % 2 ^ 64 in bit_xor c (c / 2 ^ 31)

-- `np.flatnonzero(value % denominator == 0)`, from the vertex `v` on.
unfoldable pub selected_from : (ℕ → ℕ) → ℕ → ℕ → ℕ → List ℕ
selected_from mix denominator v zero = []
selected_from mix denominator v (suc n) =
    let later = selected_from mix denominator (v + 1) n in
    if mix v % denominator == 0 then v ∷ later else later

unfoldable pub selected_nodes : ℕ → ℕ → List ℕ
unfolding selected_from mixed
selected_nodes nodes denominator = selected_from mixed denominator 0 nodes

-- The header, the size and the two arrays of the source.
pub record Source : Type 0 where
  pub directed : Bool
  pub edges : ℤ
  pub nodes : ℤ
  pub size : ℕ
  pub offsets : List ℤ
  pub neighbors : List ℤ

pub data Error : Type 0 where
  bad_header bad_size invalid_offsets empty_selection invalid_neighbor unsorted_row : Error

unfoldable pub last_of : ℤ → List ℤ → ℤ
last_of x [] = x
last_of x (y ∷ ys) = last_of y ys

-- `np.any(np.diff(offsets) < 0)`
unfoldable pub decreases : ℤ → List ℤ → Bool
decreases x [] = false
decreases x (y ∷ ys) = let later = decreases y ys in if ltb_ℤ y x then true else later

unfoldable pub offsets_valid : List ℤ → ℤ → Bool
unfolding last_of decreases
offsets_valid [] edges = false
offsets_valid (x ∷ xs) edges =
    int_eq x (pos 0) && int_eq (last_of x xs) edges && not (decreases x xs)

-- `mapping[v]`: the place of `v` in the selection; `none` is -1.
unfoldable pub place_of : List ℕ → ℕ → ℕ → Option ℕ
place_of [] i v = none
place_of (c ∷ cs) i v = let later = place_of cs (i + 1) v in if c == v then some i else later

unfoldable pub keep : Option ℕ → List ℕ → List ℕ
keep none rest = rest
keep (some i) rest = i ∷ rest

-- `remapped[remapped >= 0]`
unfoldable pub retained : List ℕ → List ℤ → List ℕ
unfolding place_of keep
retained chosen [] = []
retained chosen (v ∷ row) = keep (place_of chosen 0 (pos_part v)) (retained chosen row)

-- `row.min() < 0 or row.max() >= nodes`
unfoldable pub out_of_range : ℕ → List ℤ → Bool
out_of_range nodes row = any (λ v. ltb_ℤ v (pos 0) || leb nodes (pos_part v)) row

-- `np.any(np.diff(retained) <= 0)`
unfoldable pub not_increasing : List ℕ → Bool
not_increasing [] = false
not_increasing (x ∷ []) = false
not_increasing (x ∷ y ∷ rest) =
    let later = not_increasing (y ∷ rest) in if leb y x then true else later

unfoldable pub offset_at : List ℤ → ℕ → ℕ
offset_at offsets v = elim (get_elem? offsets v) [ none ↦ 0 | some a ↦ pos_part a ]

-- `neighbors[offsets[vertex]:offsets[vertex+1]]`
unfoldable pub row_of : Source → ℕ → List ℤ
unfolding offset_at
row_of s v =
    take (offset_at s.offsets (v + 1) - offset_at s.offsets v)
      (drop (offset_at s.offsets v) s.neighbors)

pub data Rows : Type 0 where
  refused : Error → Rows
  rows : List (List ℕ) → Rows

unfoldable pub cons_row : List ℕ → Rows → Rows
cons_row row (refused e) = refused e
cons_row row (rows rs) = rows (row ∷ rs)

-- The loop over the selected vertices.
unfoldable pub induced_rows : Source → List ℕ → ℕ → List ℕ → Rows
unfolding row_of out_of_range retained not_increasing cons_row
induced_rows s chosen index [] = rows []
induced_rows s chosen index (v ∷ vs) =
    let row = row_of s v in
    let kept = retained chosen row in
    let rest = induced_rows s chosen (index + 1) vs in
    if out_of_range (pos_part s.nodes) row
    then refused invalid_neighbor
    else if not_increasing kept || contains kept index
    then refused unsorted_row
    else cons_row kept rest

-- `new_offsets`
unfoldable pub offsets_of : ℕ → List (List ℕ) → List ℕ
offsets_of first [] = first ∷ []
offsets_of first (r ∷ rs) = first ∷ offsets_of (first + length r) rs

unfoldable pub entries_of : List (List ℕ) → ℕ
entries_of [] = 0
entries_of (r ∷ rs) = length r + entries_of rs

-- The file that is written.
pub record Induced : Type 0 where
  pub nodes : ℕ
  pub directed_entries : ℕ
  pub offsets : List ℕ
  pub adjacency : List (List ℕ)
  pub bytes : ℕ

pub data Outcome : Type 0 where
  failed : Error → Outcome
  induced : Induced → Outcome

unfoldable pub written : List ℕ → Rows → Outcome
unfolding offsets_of entries_of
written chosen (refused e) = failed e
written chosen (rows rs) = induced (record {
  nodes = length chosen;
  directed_entries = entries_of rs;
  offsets = offsets_of 0 rs;
  adjacency = rs;
  bytes = 17 + (length chosen + 1) * 8 + entries_of rs * 4;
})

unfoldable pub induce : Source → ℕ → Outcome
unfolding offsets_valid induced_rows written selected_nodes
induce s denominator =
    let nodes = pos_part s.nodes in
    let chosen = selected_nodes nodes denominator in
    if s.directed || not (ltb_ℤ (pos 0) s.nodes) || ltb_ℤ s.edges (pos 0)
    then failed bad_header
    else if not (s.size == 17 + (nodes + 1) * 8 + pos_part s.edges * 4)
    then failed bad_size
    else if not (offsets_valid s.offsets s.edges)
    then failed invalid_offsets
    else if length chosen == 0
    then failed empty_selection
    else written chosen (induced_rows s chosen 0 chosen)
