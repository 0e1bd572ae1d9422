-- ===== src/Latency/Bounds.antt =====
-- What the cost model reports, whatever the trace.
use memory_tiering.Prelude.{
  ℕ, ◌+◌, ◌-◌, ◌*◌, ◌≤◌, ◌≡◌, refl, List, [], ◌∷◌, true, false, ◌==◌, if◌then◌else◌, length,
  contains, sum_by, sum_by-filter-le, length-filter, count_if-le, not, map, Option-cases,
  Bool-cases, inl, inr, arith, ◌||◌,
}
use memory_tiering.Numpy.{Numpy}
use memory_tiering.Trace.{Record, accesses, in_epoch}
use memory_tiering.Trace.Load.{PagesFile, Loaded, load_pages, load_pages_complete}
use memory_tiering.Placement.{candidates, fixed_capacity}
use memory_tiering.Placement.Optimal.{Distinct, length-choose-le}
use memory_tiering.Study.{Policy, oracle, count_only, hpt_driven, hwt_driven, picked, hits}
use memory_tiering.Study.Laws.{DistinctWindows, hits-le-oracle}
use memory_tiering.Latency.{
  all_cxl, all_local, placed, Latencies, Tier, cold, promoted, run_window, placement, run_epochs,
  Cost, cost, evaluate, evaluate_records, evaluate_epochs, evaluate_capacity,
}
use memory_tiering.Latency.Costs.{serial, serial-le, serial_bounds}

-- What the loop keeps: the two reference schemes cost the latency of every access, a policy costs
-- at least the fast latency and at most the slow one for each access besides its promotions, and
-- the oracle costs the least besides promotions.
record IsPriced (l : Latencies) (windows capacity : ℕ) (t : Tier) : Type 0 where
  slowest : t.stall all_cxl ≡ t.total_acc * l.slow
  fastest : t.stall all_local ≡ t.total_acc * l.fast
  lower : (p : Policy) → t.total_acc * l.fast + t.migs (placed p) * l.migration ≤ t.stall (placed p)
  upper : (p : Policy) → t.stall (placed p) ≤ t.total_acc * l.slow + t.migs (placed p) * l.migration
  least :
      (p : Policy)
      → t.stall (placed oracle) + t.migs (placed p) * l.migration
        ≤ t.stall (placed p) + t.migs (placed oracle) * l.migration
  migrations : (p : Policy) → t.migs (placed p) ≤ windows * capacity

length-promoted-le : (chosen resident : List ℕ) → length (promoted chosen resident) ≤ length chosen
unfolding promoted
length-promoted-le chosen resident = omega (
  arith,
  length-filter (λ pg. not (contains resident pg)) chosen,
  count_if-le (λ pg. not (contains resident pg)) chosen,
)

module _ (np : Numpy) (l : Latencies) (capacity : ℕ) (le : l.fast ≤ l.slow) where
  length-placement-le :
      (prev cur : List Record) (p : Policy) → length (placement np l capacity prev cur p) ≤ capacity
  unfolding placement picked candidates
  length-placement-le prev cur oracle = length-choose-le np _ capacity
  length-placement-le prev cur count_only = length-choose-le np _ capacity
  length-placement-le prev cur hpt_driven = length-choose-le np _ capacity
  length-placement-le prev cur hwt_driven = length-choose-le np _ capacity

  run_window-IsPriced :
      (prev cur : List Record) (windows : ℕ) (t : Tier)
      → Distinct (λ r. r.page) cur
      → IsPriced l windows capacity t
      → IsPriced l (windows + 1) capacity (run_window l (placement np l capacity prev cur) cur t)
  unfolding run_window
  run_window-IsPriced prev cur windows t d h =
      elim (Bool-cases ((length cur == 0) || (sum_by accesses cur == 0))) [
        | inl e ↦ rw e (record {
          slowest = h.slowest;
          fastest = h.fastest;
          lower = h.lower;
          upper = h.upper;
          least = h.least;
          migrations = λ p. omega (arith, h.migrations p);
        })
        | inr e ↦ rw e (record {
          slowest = omega (arith, h.slowest);
          fastest = omega (arith, h.fastest);
          lower = λ p. omega (arith, h.lower p, (priced p).0);
          upper = λ p. omega (arith, h.upper p, (priced p).1);
          least = λ p. omega (arith, h.least p, cheapest p);
          migrations = λ p. omega (
            arith,
            h.migrations p,
            length-promoted-le (chosen p) (t.resident p),
            length-placement-le prev cur p,
          );
        })
      ]
    where
      chosen : Policy → List ℕ
      chosen = placement np l capacity prev cur

      total : ℕ
      total = sum_by accesses cur

      fast : Policy → ℕ
      fast p = sum_by accesses (hits (chosen p) cur)

      fast-le : (p : Policy) → fast p ≤ total
      fast-le p = unfold hits in sum_by-filter-le accesses (λ r. contains (chosen p) r.page) cur

      priced :
          (p : Policy)
          → (total * l.fast ≤ serial total (fast p) l.fast l.slow)
            × (serial total (fast p) l.fast l.slow ≤ total * l.slow)
      priced p = serial_bounds total (fast p) l.fast l.slow (fast-le p) le

      most : (p : Policy) → fast p ≤ fast oracle
      most p =
          unfold placement picked in
          hits-le-oracle np cur capacity (chosen p) d (length-placement-le prev cur p)

      cheapest :
          (p : Policy)
          → serial total (fast oracle) l.fast l.slow ≤ serial total (fast p) l.fast l.slow
      cheapest p = serial-le total (fast p) (fast oracle) l.fast l.slow (most p) (fast-le oracle) le

  run_epochs-IsPriced :
      (recs : List Record) (a : ℕ) (later : List ℕ) (windows : ℕ) (t : Tier)
      → DistinctWindows recs
      → IsPriced l windows capacity t
      → IsPriced l (windows + length later) capacity (run_epochs np l capacity recs a later t)
  unfolding run_epochs
  run_epochs-IsPriced recs a [] windows t d h = record {
    slowest = h.slowest;
    fastest = h.fastest;
    lower = h.lower;
    upper = h.upper;
    least = h.least;
    migrations = λ p. omega (arith, h.migrations p);
  }
  run_epochs-IsPriced recs a (b ∷ later) windows t d h =
      let rest = run_epochs-IsPriced recs b later (windows + 1) _ d step in
      record {
        slowest = rest.slowest;
        fastest = rest.fastest;
        lower = rest.lower;
        upper = rest.upper;
        least = rest.least;
        migrations = λ p. omega (arith, rest.migrations p);
      }
    where
      prev : List Record
      prev = in_epoch recs a

      cur : List Record
      cur = in_epoch recs b

      step :
          IsPriced l
            (windows + 1)
            capacity
            (if length prev == 0 then t else run_window l (placement np l capacity prev cur) cur t)
      step = elim (Bool-cases (length prev == 0)) [
        | inl e ↦ rw e (record {
          slowest = h.slowest;
          fastest = h.fastest;
          lower = h.lower;
          upper = h.upper;
          least = h.least;
          migrations = λ p. omega (arith, h.migrations p);
        })
        | inr e ↦ rw e (run_window-IsPriced prev cur windows t (d b) h)
      ]

-- How a cost came about.
record Origin (np : Numpy) (l : Latencies) (recs : List Record) (c : Cost) : Type 0 where
  first : ℕ
  later : List ℕ
  epochs : c.epochs ≡ length (first ∷ later)
  tier : c.tier ≡ run_epochs np l c.capacity_pages recs first later cold
  nonzero : (c.tier.total_acc == 0) ≡ false

module _ (np : Numpy) (l : Latencies) (recs : List Record) (c : Cost) where
  evaluate_capacity-cost :
      (a : ℕ) (later : List ℕ) (capacity : ℕ)
      → evaluate_capacity np l recs a later capacity ≡ cost c
      → Origin np l recs c
  unfolding evaluate_capacity
  evaluate_capacity-cost a later capacity h = record {
    first = a;
    later = later;
    epochs = ground arith;
    tier = ground arith;
    nonzero = ground arith;
  }

  evaluate_epochs-cost : (es : List ℕ) → evaluate_epochs np l recs es ≡ cost c → Origin np l recs c
  unfolding evaluate_epochs
  evaluate_epochs-cost [] h = absurd (cc)
  evaluate_epochs-cost (a ∷ []) h = absurd (cc)
  evaluate_epochs-cost (a ∷ b ∷ later) h =
      elim (Option-cases (fixed_capacity recs l.frac_num l.frac_den)) [
        | inl e ↦ absurd (ground arith)
        | inr (n, e) ↦ evaluate_capacity-cost a (b ∷ later) n (rw (e, evaluate_epochs) at h)
      ]

  evaluate_records-cost :
      (r : Loaded) → r ≡ Loaded.loaded recs → evaluate_records np l r ≡ cost c → Origin np l recs c
  unfolding evaluate_records
  evaluate_records-cost r e h = elim (Bool-cases (length recs == 0)) [
    | inl z ↦ absurd (ground arith)
    | inr s ↦ evaluate_epochs-cost (np.unique (map (λ r. r.epoch) recs)) (ground arith)
  ]

evaluate-cost :
    (np : Numpy) (l : Latencies) (file : PagesFile) (c : Cost)
    → evaluate np l file ≡ cost c
    → Origin np l file.records c
unfolding evaluate
evaluate-cost np l file c h = go (load_pages file true true) refl h
  where
    go :
        (r : Loaded)
        → load_pages file true true ≡ r
        → evaluate_records np l r ≡ cost c
        → Origin np l file.records c
    go (Loaded.loaded recs) e h =
        rw (← (load_pages_complete file recs e).0) (evaluate_records-cost np l recs c _ refl h)
    go _ e h = absurd (unfold evaluate_records in cc)

evaluate-IsPriced :
    (np : Numpy) (l : Latencies) (file : PagesFile) (c : Cost)
    → l.fast ≤ l.slow
    → DistinctWindows file.records
    → evaluate np l file ≡ cost c
    → IsPriced l (c.epochs - 1) c.capacity_pages c.tier
evaluate-IsPriced np l file c le d h =
    let o = evaluate-cost np l file c h in
    let e : 0 + length o.later ≡ c.epochs - 1 = omega (arith, o.epochs) in
    rw (o.tier, ← e)
      (run_epochs-IsPriced np l c.capacity_pages le file.records o.first o.later 0 cold d start)
  where
    start : IsPriced l 0 c.capacity_pages cold
    start = record {
      slowest = omega arith;
      fastest = omega arith;
      lower = λ p. omega arith;
      upper = λ p. omega arith;
      least = λ p. omega arith;
      migrations = λ p. omega arith;
    }

-- When the fast tier is no slower than the slow one and no page is recorded twice in a window: a
-- policy's stall in a completed evaluation is at least that of all accesses being local plus what
-- its promotions cost, and at most that of all accesses going to CXL plus the same, and it makes at
-- most `capacity` promotions in each window after the first.
pub stall_bounds :
    (np : Numpy) (l : Latencies) (file : PagesFile) (c : Cost) (p : Policy)
    → l.fast ≤ l.slow
    → DistinctWindows file.records
    → evaluate np l file ≡ cost c
    → (c.tier.stall all_local + c.tier.migs (placed p) * l.migration ≤ c.tier.stall (placed p))
      × (c.tier.stall (placed p) ≤ c.tier.stall all_cxl + c.tier.migs (placed p) * l.migration)
      × (c.tier.migs (placed p) ≤ (c.epochs - 1) * c.capacity_pages)
stall_bounds np l file c p le d h =
    let v = evaluate-IsPriced np l file c le d h in
    (omega (arith, v.fastest, v.lower p), omega (arith, v.slowest, v.upper p), v.migrations p)

-- Under the same conditions no policy stalls less than the oracle, once what each pays for its
-- promotions is left out.
pub stall-oracle-le :
    (np : Numpy) (l : Latencies) (file : PagesFile) (c : Cost) (p : Policy)
    → l.fast ≤ l.slow
    → DistinctWindows file.records
    → evaluate np l file ≡ cost c
    → c.tier.stall (placed oracle) + c.tier.migs (placed p) * l.migration
      ≤ c.tier.stall (placed p) + c.tier.migs (placed oracle) * l.migration
stall-oracle-le np l file c p le d h = (evaluate-IsPriced np l file c le d h).least p
