-- ===== src/Recompute/Tally.antt =====
-- src/analysis/revalidate_extensions.py, the loop of `analyse`: what is counted, window by window.
-- Sums of counters are taken to stay below 2 ^ 63, where numpy's int64 sums are exact; a quotient is
-- kept as its two sides.
pub mod Laws
use memory_tiering.Prelude.{
  ℕ, ◌+◌, ◌-◌, ◌*◌, ◌/◌, ◌≡◌, max, List, [], ◌∷◌, ◌++◌, Bool, true, false, Option, some, none, map,
  ltb, ◌==◌, if◌then◌else◌, not, ◌&&◌, ◌||◌, length, sum_by, count_if, any, all,
}
use memory_tiering.Numpy.{Numpy}
use memory_tiering.Trace.{Record, accesses, popcount64}
use memory_tiering.Trace.Load.{saturates}
use memory_tiering.Placement.{by_accesses, choose, candidates, Candidates}
use memory_tiering.Study.{Policy, oracle, count_only, hpt_driven, hwt_driven}
use memory_tiering.Latency.{promoted}
use memory_tiering.Turnover.{Change, top_k_of_epoch, change}
use memory_tiering.Granularity
use memory_tiering.Granularity.{sweep_records}
use memory_tiering.Recompute.Windows.{Ending, Stream, finished}
use memory_tiering.Recompute.Checks.{Failure, unreadable, window_failure, Group, add_cells}
use memory_tiering.Recompute.Placing.{Fraction, fractions, capacity_of, Placing, place_all}

abbrev pub ks : List ℕ
ks = 128 ∷ 10000 ∷ 128000 ∷ []

-- The variables of the loop; `turnover` has the rows at each `k`.
pub record Tally : Type 0 where
  pub granularity : List Group
  pub turnover : ℕ → List Change
  pub placing : Placing
  pub capacities : Fraction → ℕ
  pub histogram : ℕ → ℕ
  pub observed : ℕ
  pub events : ℕ
  pub count : ℕ
  pub saturated : Bool
  pub prev : Option (List Record)

abbrev pub empty_tally : Tally
empty_tally = record {
  granularity = [];
  turnover = λ k. [];
  placing = record { rows = []; resident = λ f p. [] };
  capacities = λ f. 0;
  histogram = λ k. 0;
  observed = 0;
  events = 0;
  count = 0;
  saturated = false;
  prev = none;
}

-- `np.bincount(words, minlength=65)` at one bin.
unfoldable pub bincount : Numpy → List Record → ℕ → ℕ
bincount np rec k = count_if (λ r. popcount64 np r.mask == k) rec

-- The sets of a `k` that is positive are always there.
unfoldable pub hot_pages : Numpy → List Record → ℕ → List ℕ
hot_pages np rec k = elim (top_k_of_epoch np rec k) [ none ↦ [] | some pages ↦ pages ]

unfoldable pub turnover_row : Numpy → List Record → List Record → ℕ → Change
unfolding hot_pages
turnover_row np prev rec k = change (hot_pages np prev k) (hot_pages np rec k) rec

-- The last part of a round: the first window fixes the capacities, any other adds its rows.
unfoldable pub add_rows : Numpy → List Record → Option (List Record) → Tally → Tally
unfolding turnover_row
add_rows np rec none t = record t { capacities = capacity_of rec; prev = some rec }
add_rows np rec (some before) t = record t {
  turnover = λ k. t.turnover k ++ turnover_row np before rec k ∷ [];
  placing = place_all np before rec t.capacities fractions t.placing;
  prev = some rec;
}

unfoldable pub add_window : Numpy → List Record → Tally → Tally
unfolding add_rows bincount
add_window np rec t = add_rows np rec t.prev (record t {
  granularity = add_cells t.granularity (sweep_records np rec);
  histogram = λ k. t.histogram k + bincount np rec k;
  observed = t.observed + length rec;
  events = t.events + sum_by accesses rec;
  count = t.count + 1;
  saturated = t.saturated || any saturates rec;
})

pub data Counted : Type 0 where
  failed : Failure → Counted
  counted : Tally → Counted

unfoldable pub run_windows : Numpy → List (List Record) → Tally → Counted
unfolding add_window
run_windows np [] t = counted t
run_windows np (rec ∷ more) t =
    let rest = run_windows np more (add_window np rec t) in
    elim (window_failure np rec) [ none ↦ rest | some e ↦ failed e ]

-- The generator raises after the windows that it yields.
unfoldable pub ending_failure : Ending → Counted → Counted
ending_failure finished c = c
ending_failure e (failed f) = failed f
ending_failure e (counted t) = failed (unreadable e)

unfoldable pub run_stream : Numpy → Stream → Counted
unfolding ending_failure
run_stream np s = ending_failure s.ending (run_windows np s.yielded empty_tally)
