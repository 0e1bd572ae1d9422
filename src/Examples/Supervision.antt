-- ===== src/Examples/Supervision.antt =====
-- A lane with a failing job, a second stage under the hold, and a simulator that is paused after a
-- checkpoint that was not finalized.
use Prim.Native.String.{String}
use memory_tiering.Prelude.{
  ℕ, zero, suc, ◌≡◌, refl, List, [], ◌∷◌, true, false, none, some, All, ◌*◌, ◌^◌,
}
use memory_tiering.Campaign.Handover.{start, hand_over, sim_command, IsStarted, hand_over-IsStarted}
use memory_tiering.Campaign.Revalidation
use memory_tiering.Campaign.Revalidation.{run_lane, jobs_of, attempt, exited}
use memory_tiering.Campaign.Revalidation.Laws.{IsSettled, run_lane-IsSettled}
use memory_tiering.Campaign.Stage2
use memory_tiering.Campaign.Stage2.Laws.{campaign-held, multithreaded}
use memory_tiering.Checkpoint.Files.{Disk}
use memory_tiering.Checkpoint.{
  Tick, idle, checkpoint, not_finalized, finalized, supervise, tick, floor, paused_run,
}
use memory_tiering.Checkpoint.Laws.{IsAvailable, Resumes, supervise-IsAvailable, supervise-Resumes}

-- Every job of the sim lane fails.
abbrev failing : Revalidation.World
failing = record {
  lane = Revalidation.sim;
  fingerprint = "gem5";
  checkpoint_storage = some "storage";
  has_latest = λ c. false;
  taken = λ job. [];
  prior = λ job. none;
  manifest = λ job. none;
  free = λ job. 8 * 1024 ^ 3;
  process = λ job. exited 1;
  analysis_free = λ job. 0;
  analysis = λ job. exited 0;
  log = λ job. record { third_exit = false; stopping = false; summaries = [] };
  published_before = λ job. true;
  published_after = λ job. true;
  published_end = true;
}

fails : (j : Revalidation.Job) → attempt failing j ≡ Revalidation.error
unfolding attempt Revalidation.run
fails j = refl

run_lane-IsSettled_example :
    All
      (λ (j : Revalidation.Job).
        IsSettled failing ((run_lane failing [] (λ k. Revalidation.no_row)).rows j.job))
      (jobs_of Revalidation.sim)
    × ((run_lane failing [] (λ k. Revalidation.no_row)).current ≡ none)
run_lane-IsSettled_example =
    run_lane-IsSettled failing [] (λ k. Revalidation.no_row) not_paused not_interrupted (λ k. refl)
      (λ k. refl)
  where
    not_paused : (j : Revalidation.Job) → ¬ (attempt failing j ≡ Revalidation.paused_run)
    not_paused j h = let e = fails j in cc

    not_interrupted :
        (j : Revalidation.Job) → ¬ (attempt failing j ≡ Revalidation.keyboard_interrupt)
    not_interrupted j h = let e = fails j in cc

abbrev held : Stage2.World
held = record { hold = true; tool = none; taken = λ k. []; result = λ j. Stage2.Result.succeeded }

campaign-held_example :
    All
      (λ key. (Stage2.campaign held [] (λ k. Stage2.queued_row)).rows key ≡ Stage2.queued_row)
      multithreaded
campaign-held_example = campaign-held held [] (λ k. Stage2.queued_row) refl

abbrev empty_disk : Disk
empty_disk = record { latest = none; files = λ p. none; images = []; history = [] }

abbrev ticks : List Tick
ticks =
    idle
    ∷ checkpoint false 1 (30 * 1024 ^ 3) (finalized "a" "hash-a" false)
    ∷ idle
    ∷ checkpoint true 2 (30 * 1024 ^ 3) (finalized "b" "hash-b" false)
    ∷ []

abbrev cut_short : List Tick
cut_short =
    checkpoint false 1 (30 * 1024 ^ 3) (finalized "a" "hash-a" false)
    ∷ checkpoint false 2 (30 * 1024 ^ 3) (not_finalized (("b", "partial") ∷ []))
    ∷ []

supervise-IsAvailable_example : IsAvailable (supervise empty_disk cut_short).disk
supervise-IsAvailable_example = supervise-IsAvailable cut_short empty_disk tt

pauses : (supervise empty_disk ticks).exit ≡ paused_run
unfolding supervise tick floor
pauses = refl

supervise-Resumes_example :
    Resumes ("gem5" ∷ []) ("gem5" ∷ "hash" ∷ []) (supervise empty_disk ticks)
supervise-Resumes_example =
    supervise-Resumes ("gem5" ∷ []) ("gem5" ∷ "hash" ∷ []) ticks empty_disk pauses

-- Two rounds of waiting.
abbrev rounds_seen : ℕ → String
rounds_seen zero = "running"
rounds_seen (suc zero) = "waiting"
rounds_seen _ = "complete"

abbrev launched_command : List String
launched_command =
    "experiments/revalidation_campaign.py" ∷ "sim" ∷ "--checkpoint-storage"
    ∷ "/mnt/research/memory-tiering/simulator-checkpoints" ∷ "--checkpoint-validation"
    ∷ "/mnt/research/memory-tiering/checkpoint-validation/full-system-1/validation.json" ∷ []

hands_over : hand_over rounds_seen 3 0 ≡ start launched_command
unfolding hand_over sim_command
hands_over = refl

hand_over-IsStarted_example : IsStarted rounds_seen 0 3 launched_command
hand_over-IsStarted_example = hand_over-IsStarted rounds_seen 3 0 launched_command hands_over
