-- ===== src/Latency.antt =====
-- src/analysis/latency_model.py, `evaluate`: a serial memory cost over a trace, with the pages that
-- stay in the fast tier from window to window. Latencies are whole numbers of some unit of time, so
-- sums are exact; quotients are kept as their two sides.
pub mod Costs
pub mod Bounds
use memory_tiering.Prelude.{
  ℕ, ◌+◌, ◌-◌, ◌*◌, ◌≡◌, List, [], ◌∷◌, Bool, true, false, Option, some, none, map, ltb, ◌==◌,
  if◌then◌else◌, filter, length, contains, sum_by, not, ◌||◌,
}
use memory_tiering.Numpy.{Numpy}
use memory_tiering.Trace.{Record, accesses, in_epoch}
use memory_tiering.Trace.Load.{PagesFile, Loaded, load_pages}
use memory_tiering.Placement.{candidates, fixed_capacity}
use memory_tiering.Study.{Policy, picked, hits}

pub data Scheme : Type 0 where
  all_cxl all_local : Scheme
  placed : Policy → Scheme

pub record Latencies : Type 0 where
  pub fast : ℕ
  pub slow : ℕ
  pub migration : ℕ
  pub words_num : ℕ
  pub words_den : ℕ
  pub frac_num : ℕ
  pub frac_den : ℕ

-- The dictionaries of the loop: `stall`, `migs` and `resident`, and `total_acc`.
pub record Tier : Type 0 where
  pub stall : Scheme → ℕ
  pub migs : Scheme → ℕ
  pub resident : Policy → List ℕ
  pub total_acc : ℕ

abbrev pub cold : Tier
cold = record { stall = λ p. 0; migs = λ p. 0; resident = λ p. []; total_acc = 0 }

-- `chosen - resident[name]`
unfoldable pub promoted : List ℕ → List ℕ → List ℕ
promoted chosen resident = filter (λ pg. not (contains resident pg)) chosen

window_stall : Latencies → Tier → (Policy → List ℕ) → List Record → Scheme → ℕ
window_stall l t chosen cur all_cxl = sum_by accesses cur * l.slow
window_stall l t chosen cur all_local = sum_by accesses cur * l.fast
window_stall l t chosen cur (placed p) =
    let fast = sum_by accesses (hits (chosen p) cur) in
    fast * l.fast
    + (sum_by accesses cur - fast) * l.slow
    + length (promoted (chosen p) (t.resident p)) * l.migration

window_migs : Tier → (Policy → List ℕ) → Scheme → ℕ
window_migs t chosen (placed p) = length (promoted (chosen p) (t.resident p))
window_migs t chosen _ = 0

-- One round of the loop over neighbouring windows; a window with no access is passed over.
unfoldable pub run_window : Latencies → (Policy → List ℕ) → List Record → Tier → Tier
unfolding window_stall window_migs
run_window l chosen cur t = if (length cur == 0) || (sum_by accesses cur == 0) then t else record {
  stall = λ p. t.stall p + window_stall l t chosen cur p;
  migs = λ p. t.migs p + window_migs t chosen p;
  resident = chosen;
  total_acc = t.total_acc + sum_by accesses cur;
}

-- The candidates of the previous window, with no tracker, and the oracle's.
unfoldable pub placement : Numpy → Latencies → ℕ → List Record → List Record → Policy → List ℕ
placement np l capacity prev cur =
    picked np (candidates np prev capacity l.words_num l.words_den none) cur capacity

unfoldable pub run_epochs : Numpy → Latencies → ℕ → List Record → ℕ → List ℕ → Tier → Tier
run_epochs np l capacity recs a [] t = t
run_epochs np l capacity recs a (b ∷ later) t =
    let prev = in_epoch recs a in
    let cur = in_epoch recs b in
    run_epochs np l capacity recs b later
      (if length prev == 0 then t else run_window l (placement np l capacity prev cur) cur t)

pub record Cost : Type 0 where
  pub epochs : ℕ
  pub capacity_pages : ℕ
  pub tier : Tier

pub data Evaluation : Type 0 where
  refused : Loaded → Evaluation
  value_error nothing : Evaluation
  cost : Cost → Evaluation

evaluate_capacity : Numpy → Latencies → List Record → ℕ → List ℕ → ℕ → Evaluation
evaluate_capacity np l recs a later capacity =
    let t = run_epochs np l capacity recs a later cold in
    if t.total_acc == 0
    then nothing
    else cost (record { epochs = length (a ∷ later); capacity_pages = capacity; tier = t })

evaluate_epochs : Numpy → Latencies → List Record → List ℕ → Evaluation
evaluate_epochs np l recs [] = nothing
evaluate_epochs np l recs (a ∷ []) = nothing
evaluate_epochs np l recs (a ∷ b ∷ later) = elim (fixed_capacity recs l.frac_num l.frac_den) [
  | none ↦ value_error
  | some capacity ↦ evaluate_capacity np l recs a (b ∷ later) capacity
]

evaluate_records : Numpy → Latencies → Loaded → Evaluation
evaluate_records np l (Loaded.loaded recs) =
    if length recs == 0
    then nothing
    else evaluate_epochs np l recs (np.unique (map (λ r. r.epoch) recs))
evaluate_records np l e = refused e

unfoldable pub evaluate : Numpy → Latencies → PagesFile → Evaluation
unfolding evaluate_records evaluate_epochs evaluate_capacity
evaluate np l file = evaluate_records np l (load_pages file true true)
