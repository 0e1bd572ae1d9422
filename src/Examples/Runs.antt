-- ===== src/Examples/Runs.antt =====
-- One run of run_paired.py from an empty directory, a rerun of it, and a fidelity campaign.
use Prim.Native.String.{String}
use memory_tiering.Prelude.{
  ℕ, ◌≤◌, ◌<◌, ◌≡◌, refl, [], ◌∷◌, ◌++◌, true, false, none, some, All, contains,
}
use memory_tiering.Prelude.Int.{pos}
use memory_tiering.Paired.{Args, Env, SyncMode, TrackAlgo, command, pr_options}
use memory_tiering.Paired.Command.{application, application-command, benchmark, stats_option}
use memory_tiering.Paired.Store.{Outcome, finished, raised, Store, save, metadata, run_paired}
use memory_tiering.Paired.Runs.{store_of, run_paired-keeps}
use memory_tiering.Campaign.Attempts.{next_attempt, next_attempt-free}
use memory_tiering.Campaign.{run_jobs, put}
use memory_tiering.Campaign.Fidelity.{
  Job, jobs, World, Result, campaign, queued_row, complete, turn,
}
use memory_tiering.Campaign.Fidelity.Laws.{IsDone, campaign-complete}

abbrev args : Args
args = record {
  scale = pos 23;
  threads = pos 1;
  sync_mode = SyncMode.mutex;
  local_bbl = true;
  private_parallel = false;
  trials = pos 3;
  application_stats = true;
  pr_iterations = some (pos 1000);
  pr_tolerance = some (pos 1, 10000);
  roi_epoch = true;
  epoch_refs = pos 10;
  epoch_traffic = pos 10;
  graph_prefix = none;
  graph_family = "synthetic Kronecker";
  llc_ways = pos 10;
  warm_setup = false;
  process_scope = true;
  max_epochs = pos 0;
  dump_pages = false;
  gzip_pages = true;
  dump_max_mb = pos 6144;
  track_algo = some TrackAlgo.cmsketch;
  track_budgets = "50,128";
  track_k = pos 128;
}

abbrev env : Env
env = record {
  machine = "x86_64";
  pin = "pin";
  tool = "hotskew.so";
  binary = λ n. n;
  graph = λ n. "kron-23.sg";
  prefix = λ n. n;
  tag = λ n. n;
  tool_sha = "t";
  executable_sha = λ n. "e";
  input_sha = λ n. "i";
}

abbrev clean : String → Outcome
clean n =
    finished
      (record { rc_zero = true; says_complete = true; says_limited = false; paired_exists = true })

abbrev broken : String → Outcome
broken n = raised

abbrev empty : Store
empty n = none

abbrev results : Store
results = store_of (run_paired args env clean ("bfs" ∷ "pr" ∷ []) empty)

application-command_example :
    application (command args env "pr")
    ≡ (benchmark args env "pr" ++ stats_option args) ++ pr_options args "pr"
application-command_example = application-command args env "pr"

run_paired-keeps_example :
    store_of
      (run_paired args env broken ("cc" ∷ []) (save empty "bfs" (metadata args env "bfs")))
      "bfs"
    ≡ some (metadata args env "bfs")
run_paired-keeps_example =
    run_paired-keeps args env broken ("cc" ∷ []) (save empty "bfs" (metadata args env "bfs")) "bfs"
      (metadata args env "bfs") (unfold save in refl)

next_attempt-free_example :
    (contains (2 ∷ 1 ∷ 4 ∷ []) (next_attempt (2 ∷ 1 ∷ 4 ∷ [])) ≡ false)
    × (1 ≤ next_attempt (2 ∷ 1 ∷ 4 ∷ []))
    × ((k : ℕ) → 1 ≤ k → k < next_attempt (2 ∷ 1 ∷ 4 ∷ []) → contains (2 ∷ 1 ∷ 4 ∷ []) k ≡ true)
next_attempt-free_example = next_attempt-free (2 ∷ 1 ∷ 4 ∷ [])

abbrev machine : World
machine = record {
  digest = "tool";
  manifest = λ case name. some false;
  taken = λ case. 1 ∷ [];
  result = λ j. Result.succeeded;
}

machine_complete : (campaign machine (λ k. queued_row)).status ≡ complete
unfolding campaign jobs turn run_jobs put
machine_complete = refl

campaign-complete_example :
    All (λ (j : Job). IsDone machine ((campaign machine (λ k. queued_row)).rows j.job)) jobs
campaign-complete_example = campaign-complete machine (λ k. queued_row) machine_complete
