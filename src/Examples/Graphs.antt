-- ===== src/Examples/Graphs.antt =====
-- Three candidate inputs, none within the tolerance.
use memory_tiering.Prelude.{ℕ, ◌*◌, ◌^◌, ◌==◌, List, [], ◌∷◌, false, none, if◌then◌else◌}
use memory_tiering.Footprint.{Graph, Trial, Selection, World, trial_of}

-- A candidate, with the peak that its rule leads to.
abbrev graph_of : ℕ → Graph
graph_of n = record {
  directed = false;
  edges = 10;
  nodes = 4;
  size = 97;
  peak_rss_kib = if n == 11 then 4000000 else if n == 10 then 3000000 else 6000000;
}

abbrev store : World
store = record { saved = none; free = 200 * 1024 ^ 3; assets = ("h", "h") ∷ []; graph = graph_of }

abbrev measured : List Trial
measured = trial_of 11 (graph_of 11) ∷ trial_of 10 (graph_of 10) ∷ trial_of 12 (graph_of 12) ∷ []

abbrev choice : Selection
choice = record {
  selected = trial_of 11 (graph_of 11);
  candidates = measured;
  within_10_percent = false;
}
