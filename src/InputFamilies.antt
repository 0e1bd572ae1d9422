-- ===== src/InputFamilies.antt =====
-- benchmarks/prepare_fidelity_inputs.py: the input graphs of the campaigns. The file system and the
-- native tools are an argument: which commands succeed, and what the files that they write hold.
pub mod Laws
use Prim.Native.String.{String}
use text.Mathlib.Text.{◌==◌ as str_eq}
use memory_tiering.Prelude.{
  ℕ, ◌+◌, ◌*◌, ◌^◌, ◌≡◌, List, [], ◌∷◌, ◌++◌, Bool, true, false, Option, some, none, map, ltb, ◌==◌,
  if◌then◌else◌, ◌||◌, not, all,
}
use memory_tiering.Campaign.Attempts.{next_attempt}

pub data Key : Type 0 where
  twitter_main twitter_tc gplus_bc gplus_sssp : Key

-- The header of a serialized graph, the size and the digest of its file; `weighted` is the suffix `.wsg`.
pub record Graph : Type 0 where
  pub directed : Bool
  pub edges : ℕ
  pub nodes : ℕ
  pub size : ℕ
  pub sha : String
  pub weighted : Bool

unfoldable pub edge_bytes : Bool → ℕ
edge_bytes true = 8
edge_bytes false = 4

unfoldable pub directions : Bool → ℕ
directions true = 2
directions false = 1

unfoldable pub expected_size : Graph → ℕ
unfolding edge_bytes directions
expected_size g = 17 + directions g.directed * ((g.nodes + 1) * 8 + g.edges * edge_bytes g.weighted)

pub data Failure : Type 0 where
  input_changed no_space source_changed command_failed wrong_size : Failure

pub data Workload : Type 0 where
  gapbs_bfs gapbs_cc gapbs_pr gapbs_tc gapbs_bc gapbs_sssp : Workload

-- The commands: the build and the selection, the input of a key, its conversion, and a native run.
pub data Command : Type 0 where
  build select : Command
  convert prepare : Key → Command
  run_native : Workload → Command

pub record World : Type 0 where
  -- An earlier preparation: for each graph the recorded digest and that of its file.
  pub saved : Option (List (String × String))
  pub storage_exists : Bool
  pub free : ℕ
  pub taken : List ℕ
  pub assets : List (String × String)
  pub succeeds : Command → Bool
  pub graph : Key → Graph
  pub peak_rss_kib : Workload → ℕ

pub data Step (A : Type 0) : Type 0 where
  stopped : Failure → Step A
  done : A → Step A

unfoldable pub and_then : {A B : Type 0} → Step A → (A → Step B) → Step B
and_then (stopped e) f = stopped e
and_then (done a) f = f a

unfoldable pub run : {A : Type 0} → World → Command → A → Step A
run w c a = if w.succeeds c then done a else stopped command_failed

unfoldable pub collect : World → Key → Step (Key × Graph)
unfolding expected_size
collect w key =
    if not ((w.graph key).size == expected_size (w.graph key))
    then stopped wrong_size
    else done (key, w.graph key)

unfoldable pub twitter_graph : World → Key → Step (Key × Graph)
unfolding run and_then collect
twitter_graph w key = and_then (run w (convert key) key) (collect w)

unfoldable pub gplus_graph : World → Key → Step (Key × Graph)
unfolding run and_then collect
gplus_graph w key =
    and_then (run w (prepare key) key) (λ k. and_then (run w (convert k) k) (collect w))

unfoldable pub each : {A B : Type 0} → (A → Step B) → List A → Step (List B)
unfolding and_then
each f [] = done []
each f (x ∷ xs) = and_then (f x) (λ y. and_then (each f xs) (λ ys. done (y ∷ ys)))

-- `graphs`, in the order in which the keys are set.
unfoldable pub graphs : World → Step (List (Key × Graph))
unfolding each twitter_graph gplus_graph and_then
graphs w =
    and_then (each (twitter_graph w) (twitter_main ∷ twitter_tc ∷ []))
      (λ ts. and_then (each (gplus_graph w) (gplus_bc ∷ gplus_sssp ∷ [])) (λ gs. done (ts ++ gs)))

pub record Native : Type 0 where
  pub workload : Workload
  pub key : Key
  pub peak_rss_kib : ℕ

unfoldable pub native_cases : List (Workload × Key)
native_cases =
    (gapbs_bfs, twitter_main)
    ∷ (gapbs_cc, twitter_main)
    ∷ (gapbs_pr, twitter_main)
    ∷ (gapbs_tc, twitter_tc)
    ∷ (gapbs_bc, gplus_bc)
    ∷ (gapbs_sssp, gplus_sssp)
    ∷ []

unfoldable pub native_run : World → Workload × Key → Step Native
unfolding run
native_run w (workload, key) =
    run w (run_native workload)
      (record { workload = workload; key = key; peak_rss_kib = w.peak_rss_kib workload })

pub record Meta : Type 0 where
  pub attempt : ℕ
  pub inputs : List (Key × Graph)
  pub native_memory : List Native

pub data Outcome : Type 0 where
  failed : Failure → Outcome
  kept : Outcome
  prepared : Meta → Outcome

unfoldable pub outcome_of : Step Meta → Outcome
outcome_of (stopped e) = failed e
outcome_of (done m) = prepared m

unfoldable pub prepare_all : World → Step Meta
unfolding run and_then graphs each native_run native_cases
prepare_all w = and_then (run w build twitter_main) (λ b. and_then (run w select b) (λ s.
    and_then (graphs w) (λ gs.
      and_then (each (native_run w) native_cases)
        (λ ns. done (record { attempt = next_attempt w.taken; inputs = gs; native_memory = ns })))))

unfoldable pub prepare_new : World → Outcome
unfolding prepare_all outcome_of
prepare_new w =
    if not w.storage_exists || ltb w.free (100 * 1024 ^ 3)
    then failed no_space
    else if not (all (λ a. str_eq a.1 a.0) w.assets)
    then failed source_changed
    else outcome_of (prepare_all w)

unfoldable pub prepare_inputs : World → Outcome
unfolding prepare_new
prepare_inputs w = elim (w.saved) [
  | some digests ↦ if all (λ d. str_eq d.1 d.0) digests then kept else failed input_changed
  | none ↦ prepare_new w
]

-- The digests that a second run finds: the recorded ones, and those of the same files.
unfoldable pub saved_of : World → Meta → World
saved_of w m = record w { saved = some (map (λ g. (g.1.sha, (w.graph g.0).sha)) m.inputs) }
