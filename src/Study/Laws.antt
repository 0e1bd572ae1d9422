-- ===== src/Study/Laws.antt =====
-- What the study reports, whatever the trace: the oracle bounds every policy, and shares are at
-- most one.
use memory_tiering.Prelude.{
  ℕ, ◌+◌, ◌≤◌, ◌≡◌, refl, ap, List, [], ◌∷◌, true, false, ◌&&◌, some, ◌==◌, filter, length,
  contains, sum_by, sum_by-filter-le, All, Sorted, Bool-cases, Option-cases, inl, inr, arith,
}
use memory_tiering.Numpy.{Numpy}
use memory_tiering.Trace.{Record, accesses, in_epoch}
use memory_tiering.Trace.Load.{PagesFile, Loaded, load_pages, load_pages_complete}
use memory_tiering.Placement.{by_accesses, choose, candidates, fixed_capacity}
use memory_tiering.Placement.Optimal.{Distinct, caught, caught-le-choose, length-choose-le}
use memory_tiering.Study.{
  Policy, oracle, count_only, hpt_driven, hwt_driven, Totals, hits, score_window, Setting,
  chosen_for, score_epochs, study, evaluate, evaluate_records, evaluate_epochs, Study, no_totals,
}

caught-by_accesses :
    (pages : List ℕ) (cur : List Record)
    → caught pages (by_accesses cur) ≡ sum_by accesses (hits pages cur)
unfolding by_accesses hits sum_by filter
caught-by_accesses pages [] = refl
caught-by_accesses pages (r ∷ cur) = elim (Bool-cases (contains pages r.page)) [
  | inl e ↦ rw e (ap (λ n. accesses r + n) (caught-by_accesses pages cur))
  | inr e ↦ rw e (caught-by_accesses pages cur)
]

-- The page of every row but the head's differs from the head's, also among the scored rows.
Distinct-by_accesses :
    (cur : List Record) → Distinct (λ r. r.page) cur → Distinct (λ s. s.page) (by_accesses cur)
unfolding by_accesses
Distinct-by_accesses [] d = tt
Distinct-by_accesses (r ∷ cur) d = (others cur d.0, Distinct-by_accesses cur d.1)
  where
    others :
        (rs : List Record)
        → All (λ b. (r.page == b.page) ≡ false) rs
        → All (λ b. (r.page == b.page) ≡ false) (by_accesses rs)
    others [] h = tt
    others (x ∷ rs) h = (h.0, others rs h.1)

-- Windows in which no page is recorded twice.
abbrev pub DistinctWindows : List Record → Type 0
DistinctWindows recs = (e : ℕ) → Distinct (λ r. r.page) (in_epoch recs e)

-- It is enough that no two records have the same epoch and page.
pub DistinctWindows-of_keys :
    (recs : List Record)
    → Sorted (λ a b. ((a.epoch == b.epoch) && (a.page == b.page)) ≡ false) recs
    → DistinctWindows recs
unfolding in_epoch filter
DistinctWindows-of_keys [] d e = tt
DistinctWindows-of_keys (r ∷ recs) d e = elim (Bool-cases (r.epoch == e)) [
  | inl h ↦ rw h (others h recs d.0, DistinctWindows-of_keys recs d.1 e)
  | inr h ↦ rw h (DistinctWindows-of_keys recs d.1 e)
]
  where
    others :
        (r.epoch == e) ≡ true
        → (rs : List Record) → All (λ b. ((r.epoch == b.epoch) && (r.page == b.page)) ≡ false) rs
        → All (λ b. (r.page == b.page) ≡ false) (filter (λ r. r.epoch == e) rs)
    others h [] a = tt
    others h (b ∷ rs) a = elim (Bool-cases (b.epoch == e)) [
      | inl k ↦ rw k (ground arith, others h rs a.1)
      | inr k ↦ rw k (others h rs a.1)
    ]

-- Every policy fills the fast tier with at most `capacity` pages.
pub length-chosen_for-le :
    (np : Numpy) (s : Setting) (capacity : ℕ) (prev : List Record) (a : ℕ) (cur : List Record)
    (p : Policy)
    → length (chosen_for np s capacity prev a cur p) ≤ capacity
unfolding chosen_for candidates
length-chosen_for-le np s capacity prev a cur oracle = length-choose-le np _ capacity
length-chosen_for-le np s capacity prev a cur count_only = length-choose-le np _ capacity
length-chosen_for-le np s capacity prev a cur hpt_driven = length-choose-le np _ capacity
length-chosen_for-le np s capacity prev a cur hwt_driven = length-choose-le np _ capacity

pub hits-le-oracle :
    (np : Numpy) (cur : List Record) (capacity : ℕ) (pages : List ℕ)
    → Distinct (λ r. r.page) cur
    → length pages ≤ capacity
    → sum_by accesses (hits pages cur)
      ≤ sum_by accesses (hits (choose np (by_accesses cur) capacity) cur)
hits-le-oracle np cur capacity pages d h = omega (
  arith,
  caught-by_accesses pages cur,
  caught-by_accesses (choose np (by_accesses cur) capacity) cur,
  caught-le-choose np (by_accesses cur) capacity pages (Distinct-by_accesses cur d) h,
)

-- What is kept of the sums after any number of windows.
record IsBounded (t : Totals) : Type 0 where
  oracle_most : (p : Policy) → t.captured p ≤ t.captured oracle
  in_total : (p : Policy) → t.captured p ≤ t.total

score_window-IsBounded :
    (np : Numpy) (s : Setting) (capacity : ℕ) (prev : List Record) (a : ℕ) (cur : List Record)
    (t : Totals)
    → Distinct (λ r. r.page) cur
    → IsBounded t
    → IsBounded (score_window np (chosen_for np s capacity prev a cur) cur t)
unfolding score_window
score_window-IsBounded np s capacity prev a cur t d h = record {
  oracle_most = λ p.
      let pages = chosen_for np s capacity prev a cur p in
      omega (
        arith,
        h.oracle_most p,
        own,
        hits-le-oracle np cur capacity pages d (length-chosen_for-le np s capacity prev a cur p),
      );
  in_total = λ p. omega (
    arith,
    h.in_total p,
    sum_by-filter-le accesses (λ r. contains (chosen_for np s capacity prev a cur p) r.page) cur,
  );
}
  where
    own :
        sum_by accesses (hits (choose np (by_accesses cur) capacity) cur)
        ≡ sum_by accesses (hits (chosen_for np s capacity prev a cur oracle) cur)
    own = unfold chosen_for in refl

score_epochs-IsBounded :
    (np : Numpy) (s : Setting) (capacity : ℕ) (recs : List Record) (a : ℕ) (later : List ℕ)
    (t : Totals)
    → DistinctWindows recs
    → IsBounded t
    → IsBounded (score_epochs np s capacity recs a later t)
unfolding score_epochs
score_epochs-IsBounded np s capacity recs a [] t d h = h
score_epochs-IsBounded np s capacity recs a (b ∷ later) t d h =
    score_epochs-IsBounded np s capacity recs b later _ d
      (score_window-IsBounded np s capacity (in_epoch recs a) a (in_epoch recs b) t (d b) h)

-- How a study came about: at least two windows of the dump, scored at the fixed capacity.
pub record Origin (np : Numpy) (s : Setting) (recs : List Record) (r : Study) : Type 0 where
  pub first : ℕ
  pub second : ℕ
  pub later : List ℕ
  pub capacity : fixed_capacity recs s.frac_num s.frac_den ≡ some r.capacity_pages
  pub epochs : r.epochs ≡ length (first ∷ second ∷ later)
  pub totals : r.totals ≡ score_epochs np s r.capacity_pages recs first (second ∷ later) no_totals

evaluate_epochs-study :
    (np : Numpy) (s : Setting) (recs : List Record) (es : List ℕ) (r : Study)
    → evaluate_epochs np s recs es ≡ study r
    → Origin np s recs r
unfolding evaluate_epochs
evaluate_epochs-study np s recs [] r h = absurd (cc)
evaluate_epochs-study np s recs (a ∷ []) r h = absurd (cc)
evaluate_epochs-study np s recs (a ∷ b ∷ later) r h =
    elim (Option-cases (fixed_capacity recs s.frac_num s.frac_den)) [
      | inl e ↦ absurd (ground arith)
      | inr (c, e) ↦ record {
        first = a;
        second = b;
        later = later;
        capacity = ground arith;
        epochs = ground arith;
        totals = ground arith;
      }
    ]

evaluate_records-study :
    (np : Numpy) (s : Setting) (recs : List Record) (l : Loaded) (r : Study)
    → (l ≡ Loaded.loaded recs)
    → evaluate_records np s l ≡ study r
    → Origin np s recs r
unfolding evaluate_records
evaluate_records-study np s recs l r e h = evaluate_epochs-study np s recs _ r (rw e at h)

pub evaluate-study :
    (np : Numpy) (s : Setting) (file : PagesFile) (r : Study)
    → evaluate np s file ≡ study r
    → Origin np s file.records r
unfolding evaluate
evaluate-study np s file r h = go (load_pages file true true) refl h
  where
    go :
        (l : Loaded)
        → load_pages file true true ≡ l
        → evaluate_records np s l ≡ study r
        → Origin np s file.records r
    go (Loaded.loaded recs) e h =
        rw (← (load_pages_complete file recs e).0) (evaluate_records-study np s recs _ r refl h)
    go _ e h = absurd (unfold evaluate_records in cc)

-- When no page is recorded twice in a window, no policy of a completed study captures more accesses
-- than the oracle does, with a tracker or without, and none captures more than there are: every hit
-- rate is at most the oracle's, and at most one.
pub captured-le-oracle :
    (np : Numpy) (s : Setting) (file : PagesFile) (r : Study) (p : Policy)
    → DistinctWindows file.records
    → evaluate np s file ≡ study r
    → (r.totals.captured p ≤ r.totals.captured oracle) × (r.totals.captured p ≤ r.totals.total)
captured-le-oracle np s file r p d h =
    let o = evaluate-study np s file r h in
    let bounded =
      score_epochs-IsBounded np s r.capacity_pages file.records o.first (o.second ∷ o.later)
        no_totals d (record { oracle_most = λ p. omega arith; in_total = λ p. omega arith }) in
    rw (o.totals) (bounded.oracle_most p, bounded.in_total p)
