-- ===== src/Campaign/Handover.antt =====
-- experiments/resume_sim_after_fidelity.py: the wait for the fidelity campaign, after which the sim
-- lane takes the process over. `seen` is the status that the state file has at each round. The source's
-- loop has no bound; here it has fuel, and `still_waiting` is a wait that its fuel does not see end.
use Prim.Native.String.{String}
use text.Mathlib.Text.{◌==◌ as str_eq}
use text.Mathlib.TextEquality.{eq_iff}
use memory_tiering.Prelude.{
  ℕ, zero, suc, ◌+◌, ◌≤◌, ◌<◌, ◌≡◌, ◌≢◌, false, inl, inr, List, [], ◌∷◌, ◌==◌, ◌||◌, if◌then◌else◌,
  Bool-cases, arith,
}

pub data Handover : Type 0 where
  start : List String → Handover
  not_started still_waiting : Handover

-- `command` without the interpreter; the script is below the repository's root.
unfoldable pub sim_command : List String
sim_command =
    "experiments/revalidation_campaign.py" ∷ "sim" ∷ "--checkpoint-storage"
    ∷ "/mnt/research/memory-tiering/simulator-checkpoints" ∷ "--checkpoint-validation"
    ∷ "/mnt/research/memory-tiering/checkpoint-validation/full-system-1/validation.json" ∷ []

unfoldable pub hand_over : (ℕ → String) → ℕ → ℕ → Handover
unfolding sim_command
hand_over seen zero at = still_waiting
hand_over seen (suc fuel) at =
    let status = seen at in
    let later = hand_over seen fuel (at + 1) in
    if str_eq status "complete"
    then start sim_command
    else if str_eq status "interrupted" || str_eq status "failed" || str_eq status "paused"
    then not_started
    else later

-- A status that lets the wait go on.
abbrev Unsettled : String → Type 0
Unsettled status =
    (status ≢ "complete") × (status ≢ "interrupted") × (status ≢ "failed") × (status ≢ "paused")

-- A start with a command: at some round the status was `complete`, at every round before it neither
-- that nor one of a stopped campaign, and the command is the one of the sim lane.
pub record IsStarted (seen : ℕ → String) (at end : ℕ) (command : List String) : Type 0 where
  pub round : ℕ
  pub low : at ≤ round
  pub high : round < end
  pub completed : seen round ≡ "complete"
  pub waited : (j : ℕ) → at ≤ j → j < round → Unsettled (seen j)
  pub is_command :
      command
      ≡ "experiments/revalidation_campaign.py" ∷ "sim" ∷ "--checkpoint-storage"
        ∷ "/mnt/research/memory-tiering/simulator-checkpoints" ∷ "--checkpoint-validation"
        ∷ "/mnt/research/memory-tiering/checkpoint-validation/full-system-1/validation.json" ∷ []

differs : (s t : String) → str_eq s t ≡ false → s ≢ t
differs s t h e = let same = (eq_iff s t).1 e in cc

Unsettled-eq :
    (s : String)
    → str_eq s "complete" ≡ false
    → (str_eq s "interrupted" || str_eq s "failed" || str_eq s "paused") ≡ false
    → Unsettled s
Unsettled-eq s a b = (
  differs s "complete" a,
  differs s "interrupted" (ground (arith, b)),
  differs s "failed" (ground (arith, b)),
  differs s "paused" (ground (arith, b)),
)

-- The simulator is started only at a round at which the campaign's status is `complete`, when at no
-- earlier round it was `interrupted`, `failed` or `paused`, and nothing was started before; what is
-- started is the sim lane with the checkpoint storage and validation that are written out.
pub hand_over-IsStarted :
    (seen : ℕ → String) (fuel at : ℕ) (command : List String)
    → hand_over seen fuel at ≡ start command
    → IsStarted seen at (at + fuel) command
unfolding hand_over
hand_over-IsStarted seen zero at command h = absurd (cc)
hand_over-IsStarted seen (suc fuel) at command h = elim (Bool-cases (str_eq (seen at) "complete")) [
  | inl e ↦
      let here : command ≡ sim_command = ground (arith, h, e) in
      record {
        round = at;
        low = omega arith;
        high = omega arith;
        completed = (eq_iff (seen at) "complete").0 e;
        waited = λ j a b. absurd (omega (arith, a, b));
        is_command = here;
      }
  | inr e ↦
      elim (Bool-cases (
        str_eq (seen at) "interrupted" || str_eq (seen at) "failed" || str_eq (seen at) "paused")) [
          | inl s ↦ absurd (ground (arith, h, e, s))
          | inr s ↦
              let later =
                hand_over-IsStarted seen fuel (at + 1) command (ground (arith, h, e, s)) in
              let here = Unsettled-eq (seen at) e s in
              record {
                round = later.round;
                low = omega (arith, later.low);
                high = omega (arith, later.high);
                completed = later.completed;
                waited = λ j a b. elim (Bool-cases (j == at)) [
                  | inl k ↦ let same : j ≡ at = ground (arith, k) in rw same here
                  | inr k ↦ later.waited j (ground (arith, a, k)) b
                ];
                is_command = later.is_command;
              }
        ]
]
