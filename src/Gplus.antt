-- ===== src/Gplus.antt =====
-- benchmarks/prepare_gplus.py: the selection of a snapshot's edges, and when the output is published.
-- A row is the list of its fields, whole numbers; a field that is no number raises like a wrong count.
pub mod Laws
use memory_tiering.Prelude.{
  ℕ, ◌+◌, ◌^◌, max, List, [], ◌∷◌, ◌++◌, Bool, true, false, Option, none, some, if◌then◌else◌, ◌&&◌,
  ◌||◌, not, ltb, leb, ◌==◌, suc, length,
}
use memory_tiering.Prelude.Int.{ℤ, pos, negsuc, ltb_ℤ}

pub record Edge : Type 0 where
  pub u : ℕ
  pub v : ℕ
  pub timestamp : ℕ

-- `fields`, with its three columns in range, or the ValueError.
nonneg : ℤ → Option ℕ
nonneg (pos n) = some n
nonneg (negsuc n) = none

in_range : Option ℕ → Option ℕ → Option ℕ → Option Edge
in_range (some u) (some v) (some t) =
    if ltb u (2 ^ 31) && ltb v (2 ^ 31) && leb t 3
    then some (record { u = u; v = v; timestamp = t })
    else none
in_range _ _ _ = none

unfoldable pub parse_row : List ℤ → Option Edge
unfolding nonneg in_range
parse_row (u ∷ v ∷ t ∷ []) = in_range (nonneg u) (nonneg v) (nonneg t)
parse_row _ = none

-- The file written, `count`, `kept` and `max_node`, which starts at -1: `none`.
pub record Selection : Type 0 where
  pub target : List (ℕ × ℕ)
  pub input_edges : ℕ
  pub selected_edges : ℕ
  pub max_node_id : Option ℕ

pub data Selected : Type 0 where
  -- The row, from 1, that is rejected.
  bad_row : ℕ → Selected
  selected : Selection → Selected

unfoldable pub raise_max : Option ℕ → Edge → Option ℕ
raise_max none e = some (max e.u e.v)
raise_max (some m) e = some (max m (max e.u e.v))

unfoldable pub scan_edge : ℕ → Selection → Edge → Selection
unfolding raise_max
scan_edge snapshot s e =
    if ltb e.timestamp snapshot
    then record {
      target = s.target ++ (e.u, e.v) ∷ [];
      input_edges = s.input_edges + 1;
      selected_edges = s.selected_edges + 1;
      max_node_id = raise_max s.max_node_id e;
    }
    else record s { input_edges = s.input_edges + 1 }

unfoldable pub scan : ℕ → Selection → List (List ℤ) → Selected
scan snapshot s [] = selected s
scan snapshot s (row ∷ rows) = elim (parse_row row) [
  | none ↦ bad_row (s.input_edges + 1)
  | some e ↦ scan snapshot (scan_edge snapshot s e) rows
]

abbrev pub nothing_yet : Selection
nothing_yet = record { target = []; input_edges = 0; selected_edges = 0; max_node_id = none }

unfoldable pub select_edges : List (List ℤ) → ℕ → Selected
select_edges source snapshot = scan snapshot nothing_yet source

-- `EXPECTED`
unfoldable pub expected : ℕ → ℕ
expected snapshot =
    if snapshot == 1
    then 47130325
    else if snapshot == 2
    then 271915755
    else if snapshot == 3
    then 410445770
    else 462994069

-- An archive: the social-edge members, and the nested archives of the known name with theirs.
pub record Archive : Type 0 where
  pub members : List (List (List ℤ))
  pub nested : List (List (List (List ℤ)))

pub data Prepared : Type 0 where
  exists_already ambiguous_nested not_one_member : Prepared
  rejected_row : ℕ → Prepared
  count_differs : Selection → Prepared
  published : Selection → Prepared

publish : ℕ → Selected → Prepared
publish snapshot (bad_row n) = rejected_row n
publish snapshot (selected s) =
    if s.selected_edges == expected snapshot then published s else count_differs s

from_members : ℕ → List (List (List ℤ)) → Prepared
from_members snapshot (source ∷ []) = publish snapshot (select_edges source snapshot)
from_members snapshot _ = not_one_member

from_archive : ℕ → List (List (List ℤ)) → List (List (List (List ℤ))) → Prepared
from_archive snapshot members [] = from_members snapshot members
from_archive snapshot members (inner ∷ []) = from_members snapshot inner
from_archive snapshot members (a ∷ b ∷ more) = ambiguous_nested

-- `exists` says that the output, its manifest or its partial file is there.
unfoldable pub prepare : Bool → Archive → ℕ → Prepared
unfolding from_archive from_members publish
prepare exists archive snapshot =
    if exists then exists_already else from_archive snapshot archive.members archive.nested
