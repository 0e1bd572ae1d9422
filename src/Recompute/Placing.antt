-- ===== src/Recompute/Placing.antt =====
-- src/analysis/revalidate_extensions.py, the loop of `analyse`: the pages that each policy holds over
-- the windows, and the cost of a window under each migration cost.
use memory_tiering.Prelude.{
  ℕ, ◌+◌, ◌-◌, ◌*◌, ◌/◌, max, List, [], ◌∷◌, ◌++◌, Bool, true, false, none, map, ◌==◌,
  if◌then◌else◌, ◌&&◌, length, sum_by, any, filter, contains,
}
use memory_tiering.Numpy.{Numpy}
use memory_tiering.Trace.{Record, accesses}
use memory_tiering.Trace.Load.{saturates}
use memory_tiering.Placement.{by_accesses, choose, candidates}
use memory_tiering.Study.{Policy, oracle, count_only, hpt_driven, hwt_driven}
use memory_tiering.Latency.{promoted}

pub data Fraction : Type 0 where
  tenth quarter half : Fraction

abbrev pub fractions : List Fraction
fractions = tenth ∷ quarter ∷ half ∷ []

unfoldable pub divisor : Fraction → ℕ
divisor tenth = 10
divisor quarter = 4
divisor half = 2

-- `max(1, int(len(rec) * f))`
unfoldable pub capacity_of : List Record → Fraction → ℕ
unfolding divisor
capacity_of rec f = max 1 (length rec / divisor f)

-- A row of `placements`.
pub record Placed : Type 0 where
  pub epoch : ℕ
  pub fraction : Fraction
  pub capacity_pages : ℕ
  pub policy : Policy
  pub events : ℕ
  pub fast_events : ℕ
  pub promotions : ℕ
  pub migration_ns : ℕ
  pub serial_cost_ns : ℕ

abbrev pub migrations : List ℕ
migrations = 0 ∷ 1000 ∷ 3000 ∷ 10000 ∷ 30000 ∷ []

unfoldable pub placed : ℕ → Fraction → ℕ → Policy → ℕ → ℕ → ℕ → ℕ → Placed
placed epoch f capacity p events fast new mig = record {
  epoch = epoch;
  fraction = f;
  capacity_pages = capacity;
  policy = p;
  events = events;
  fast_events = fast;
  promotions = new;
  migration_ns = mig;
  serial_cost_ns = fast * 100 + (events - fast) * 220 + new * mig;
}

-- `selections`: the policies of a window, each with its pages.
unfoldable pub selections : Numpy → List Record → List Record → ℕ → List (Policy × List ℕ)
selections np prev rec capacity =
    let best : Policy × List ℕ = (oracle, choose np (by_accesses rec) capacity) in
    let c = candidates np prev capacity 8 1 none in
    if any saturates prev
    then (count_only, choose np (by_accesses prev) capacity) ∷ best ∷ []
    else (count_only, c.count_only)
      ∷ (hpt_driven, c.hpt_driven)
      ∷ (hwt_driven, c.hwt_driven)
      ∷ best
      ∷ []

abbrev pub Resident : Type 0
Resident = Fraction → Policy → List ℕ

unfoldable pub same_policy : Policy → Policy → Bool
same_policy oracle oracle = true
same_policy count_only count_only = true
same_policy hpt_driven hpt_driven = true
same_policy hwt_driven hwt_driven = true
same_policy _ _ = false

unfoldable pub same_fraction : Fraction → Fraction → Bool
unfolding divisor
same_fraction f g = divisor f == divisor g

-- `resident[fraction, policy] = chosen`
unfoldable pub set_resident : Resident → Fraction → Policy → List ℕ → Resident
unfolding same_policy same_fraction
set_resident resident f p chosen g q =
    if same_fraction f g && same_policy p q then chosen else resident g q

unfoldable pub window_epoch : List Record → ℕ
window_epoch [] = 0
window_epoch (r ∷ rs) = r.epoch

-- `fast`
unfoldable pub fast_accesses : List ℕ → List Record → ℕ
fast_accesses chosen rows = sum_by accesses (filter (λ r. contains chosen r.page) rows)

-- The five rows of a selection.
unfoldable pub rows_of : List Record → Fraction → ℕ → Policy → List ℕ → List ℕ → List Placed
unfolding placed window_epoch
rows_of rec f capacity p chosen before =
    map
      (placed (window_epoch rec) f capacity p (sum_by accesses rec) (fast_accesses chosen rec)
        (length (promoted chosen before)))
      migrations

pub record Placing : Type 0 where
  pub rows : List Placed
  pub resident : Resident

unfoldable pub place : List Record → Fraction → ℕ → List (Policy × List ℕ) → Placing → Placing
unfolding rows_of set_resident
place rec f capacity [] s = s
place rec f capacity ((p, chosen) ∷ more) s = place rec f capacity more (record {
  rows = s.rows ++ rows_of rec f capacity p chosen (s.resident f p);
  resident = set_resident s.resident f p chosen;
})

unfoldable pub place_all :
    Numpy → List Record → List Record → (Fraction → ℕ) → List Fraction → Placing → Placing
unfolding place selections
place_all np prev rec capacities [] s = s
place_all np prev rec capacities (f ∷ fs) s =
    place_all np prev rec capacities fs
      (place rec f (capacities f) (selections np prev rec (capacities f)) s)
