-- ===== src/Placement.antt =====
-- src/analysis/causal_placement.py: the choice of pages for the fast tier from the previous window,
-- and the capacity. Counts are whole numbers, so numpy's float64 copies of them are numbers here.
-- `words_per_page` is a fraction `num / den`, and so is `fast_frac`.
pub mod Optimal
use memory_tiering.Prelude.{
  ℕ, ◌+◌, ◌-◌, ◌*◌, ◌/◌, ◌%◌, ◌^◌, min, max, List, [], ◌∷◌, ◌++◌, Bool, true, false, Option, some,
  none, map, ltb, leb, ◌==◌, if◌then◌else◌, ◌&&◌, filter, take, length, contains, to_set, count_if,
  zero, suc,
}
use memory_tiering.Prelude.Int.{pos, neg}
use memory_tiering.Numpy.{Numpy}
use memory_tiering.Trace.{Record, accesses}

-- A page with its score: one entry of the parallel arrays `pages` and `scores`.
pub record Scored : Type 0 where
  pub page : ℕ
  pub score : ℕ

unfoldable pub by_accesses : List Record → List Scored
by_accesses rows = map (λ r. record { page = r.page; score = accesses r }) rows

-- The rows of positive score, highest score first, ties by address, cut at the capacity.
unfoldable pub best : Numpy → List Scored → ℕ → List Scored
best np rows capacity =
    take capacity (np.lexsort (λ s. s.page) (λ s. neg s.score) (filter (λ s. ltb 0 s.score) rows))

unfoldable pub choose : Numpy → List Scored → ℕ → List ℕ
unfolding best
choose np rows capacity =
    if capacity == 0 then [] else to_set (map (λ s. s.page) (best np rows capacity))

-- One word counter of the previous window: `flat[i]`, with `i // 64` and `i % 64`.
pub record Cell : Type 0 where
  pub row : ℕ
  pub page : ℕ
  pub word : ℕ
  pub count : ℕ

unfoldable pub cells_of : ℕ → ℕ → ℕ → List ℕ → List Cell
cells_of row page word [] = []
cells_of row page word (c ∷ cs) =
    record { row = row; page = page; word = word; count = c } ∷ cells_of row page (word + 1) cs

-- `prev['words'].ravel()`
unfoldable pub ravel : ℕ → List Record → List Cell
unfolding cells_of
ravel row [] = []
ravel row (r ∷ rs) = cells_of row r.page 0 r.words ++ ravel (row + 1) rs

unfoldable pub word_budget : List Cell → ℕ → ℕ → ℕ → ℕ
word_budget flat capacity num den =
    min (count_if (λ c. ltb 0 c.count) flat) (max 1 (capacity * num / den))

-- Cells above the threshold, then tied cells in address order until the budget is used up.
unfoldable pub select_words : Numpy → List Cell → ℕ → List Cell
select_words np flat zero = []
select_words np flat (suc n) =
    let threshold = np.kth (map (λ c. c.count) flat) (length flat - suc n) in
    let selected = filter (λ c. ltb threshold c.count) flat in
    let ties =
      np.lexsort (λ c. 0) (λ c. pos ((c.page * 64) % 2 ^ 64 + c.word))
        (filter (λ c. c.count == threshold) flat) in
    selected ++ take (suc n - length selected) ties

-- `np.bincount(selected // 64)` at each row.
unfoldable pub popularity : List Cell → ℕ → List Record → List Scored
popularity selected row [] = []
popularity selected row (r ∷ rs) =
    record { page = r.page; score = count_if (λ c. c.row == row) selected }
    ∷ popularity selected (row + 1) rs

-- A tracker's report of one window: its hottest pages and words, hottest first.
pub record Snapshot : Type 0 where
  pub hpt : List ℕ
  pub hwt : List ℕ

-- `{pg: len(hpt) - i}`, read at a page; a later entry of the comprehension wins.
unfoldable pub rank_from : List ℕ → ℕ → ℕ
rank_from [] pg = 0
rank_from (p ∷ ps) pg =
    let later = rank_from ps pg in
    if contains ps pg then later else if p == pg then suc (length ps) else 0

-- The distinct reported words of a page.
unfoldable pub word_counts : List ℕ → ℕ → ℕ
word_counts hwt pg = count_if (λ word. (word / 64) == pg) (to_set hwt)

pub record Scores : Type 0 where
  pub counts : List Scored
  pub pop : List Scored

unfoldable pub scores : Numpy → List Record → ℕ → ℕ → ℕ → Option Snapshot → Scores
unfolding by_accesses ravel word_budget select_words popularity
scores np prev capacity num den none =
    let flat = ravel 0 prev in
    record {
      counts = by_accesses prev;
      pop = popularity (select_words np flat (word_budget flat capacity num den)) 0 prev;
    }
scores np prev capacity num den (some t) = record {
  counts = map (λ (r : Record). record { page = r.page; score = rank_from t.hpt r.page }) prev;
  pop = map (λ (r : Record). record { page = r.page; score = word_counts t.hwt r.page }) prev;
}

-- `np.where(eligible, pop, 0)`
unfoldable pub where_eligible : List ℕ → List Scored → List Scored
where_eligible hpt pop =
    map (λ s. record { page = s.page; score = if contains hpt s.page then s.score else 0 }) pop

pub record Candidates : Type 0 where
  pub count_only : List ℕ
  pub hpt_driven : List ℕ
  pub hwt_driven : List ℕ

unfoldable pub candidates : Numpy → List Record → ℕ → ℕ → ℕ → Option Snapshot → Candidates
unfolding scores choose where_eligible
candidates np prev capacity num den tracker =
    let s = scores np prev capacity num den tracker in
    let hpt = choose np s.counts capacity in
    record {
      count_only = hpt;
      hpt_driven = choose np (where_eligible hpt s.pop) capacity;
      hwt_driven = choose np s.pop capacity;
    }

-- `recs['epoch'].min()`
unfoldable pub first_epoch : ℕ → List Record → ℕ
first_epoch m [] = m
first_epoch m (r ∷ rs) = first_epoch (min m r.epoch) rs

-- `none` is the ValueError of a fraction outside (0, 1], or of the minimum of no epochs.
unfoldable pub fixed_capacity : List Record → ℕ → ℕ → Option ℕ
unfolding first_epoch
fixed_capacity [] num den = none
fixed_capacity (r ∷ rs) num den =
    let first = first_epoch r.epoch rs in
    if ltb 0 num && leb num den
    then some (max 1 (count_if (λ r. r.epoch == first) (r ∷ rs) * num / den))
    else none
