-- ===== src/Examples/Inputs.antt =====
-- Three edges of two snapshots, and a histogram file with rows of another scope in between.
use Prim.Native.String.{String}
use memory_tiering.Prelude.{
  ℕ, zero, suc, ◌≡◌, refl, List, [], ◌∷◌, map, true, All, length, contains,
}
use memory_tiering.Prelude.Int.{ℤ, pos}
use memory_tiering.Gplus.{Edge, Selection, selected, select_edges, parse_row}
use memory_tiering.Gplus.Laws.{Parses, snapshot_edges, ends, select_edges-snapshot}
use memory_tiering.Histogram.{
  Row, Reading, Read, refused, read, read_hist, read_rows, selects, empty, read_bin,
}
use memory_tiering.Histogram.Laws.{Holds, read_hist-Holds}

abbrev rows : List (List ℤ)
rows =
    (pos 5 ∷ pos 7 ∷ pos 0 ∷ []) ∷ (pos 7 ∷ pos 9 ∷ pos 2 ∷ []) ∷ (pos 1 ∷ pos 2 ∷ pos 0 ∷ []) ∷ []

abbrev edge : ℕ → ℕ → ℕ → Edge
edge u v t = record { u = u; v = v; timestamp = t }

abbrev edges : List Edge
edges = edge 5 7 0 ∷ edge 7 9 2 ∷ edge 1 2 0 ∷ []

rows-Parses : Parses rows edges
unfolding parse_row
rows-Parses = (refl, (refl, (refl, tt)))

select_edges-snapshot_example :
    (t : Selection) × (select_edges rows 1 ≡ selected t)
    × (t.target ≡ map ends (snapshot_edges 1 edges))
    × (t.input_edges ≡ length edges)
    × (t.selected_edges ≡ length (snapshot_edges 1 edges))
select_edges-snapshot_example = select_edges-snapshot rows edges 1 rows-Parses

abbrev row : String → ℕ → ℕ → Row
row scope n pages = record {
  scope = scope;
  stream = "fills";
  population = "own";
  words = pos n;
  pages = pos pages;
  events = pos 12;
}

-- Rows for the bins below a bound, with one of an epoch before each.
abbrev bins : ℕ → List Row
bins zero = []
bins (suc n) = row "epoch" 3 1 ∷ row "pooled" n n ∷ bins n

abbrev reading_of : Read → Reading
reading_of (refused e) = empty
reading_of (read t) = t

abbrev result : Reading
result = reading_of (read_hist (bins 65) "pooled" "fills" "own")

succeeds : read_hist (bins 65) "pooled" "fills" "own" ≡ read result
unfolding read_hist read_rows selects read_bin contains
succeeds = refl

read_hist-Holds_example :
    All (λ r. selects "pooled" "fills" "own" r ≡ true → Holds result r) (bins 65)
read_hist-Holds_example = read_hist-Holds (bins 65) "pooled" "fills" "own" result succeeds
