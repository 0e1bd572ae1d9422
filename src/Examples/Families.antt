-- ===== src/Examples/Families.antt =====
-- A preparation of four small graphs, in the second attempt directory.
use memory_tiering.Prelude.{◌*◌, ◌^◌, ◌≡◌, refl, [], ◌∷◌, true, false, none, all}
use memory_tiering.InputFamilies.{
  Key, gplus_sssp, Graph, World, Meta, prepare_inputs, prepared, kept, failed,
}
use memory_tiering.InputFamilies.Laws.{IsPrepared, prepare_inputs-IsPrepared}

abbrev graph_of : Key → Graph
graph_of gplus_sssp = record {
  directed = true;
  edges = 3;
  nodes = 4;
  size = 145;
  sha = "a1";
  weighted = true;
}
graph_of key = record {
  directed = false;
  edges = 6;
  nodes = 4;
  size = 81;
  sha = "b2";
  weighted = false;
}

abbrev storage : World
storage = record {
  saved = none;
  storage_exists = true;
  free = 100 * 1024 ^ 3;
  taken = 1 ∷ [];
  assets = ("c3", "c3") ∷ [];
  succeeds = λ c. true;
  graph = graph_of;
  peak_rss_kib = λ workload. 2048;
}

meta : Meta
unfolding prepare_inputs
meta = elim (prepare_inputs storage) [
  | prepared m ↦ m
  | kept ↦ record { attempt = 0; inputs = []; native_memory = [] }
  | failed e ↦ record { attempt = 0; inputs = []; native_memory = [] }
]

preparation_runs : prepare_inputs storage ≡ prepared meta
unfolding prepare_inputs meta all
preparation_runs = refl

prepare_inputs-IsPrepared_example : IsPrepared storage meta
prepare_inputs-IsPrepared_example = prepare_inputs-IsPrepared storage meta preparation_runs
