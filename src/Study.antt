-- ===== src/Study.antt =====
-- src/analysis/placement_study.py: the score of each policy over consecutive windows, and the
-- tracker reports it may read. Quotients are kept as their two sides.
pub mod Laws
pub mod Bytes
use memory_tiering.Prelude.{
  ℕ, ◌+◌, ◌*◌, ◌≡◌, List, [], ◌∷◌, ◌++◌, Bool, true, false, Option, some, none, map, ltb, ◌==◌,
  if◌then◌else◌, filter, length, contains, sum_by, any, not, ◌&&◌, ◌||◌, zero, suc,
}
use memory_tiering.Numpy.{Numpy}
use memory_tiering.Trace.{Record, accesses, popcount64, in_epoch, page_bytes}
use memory_tiering.Trace.Load.{PagesFile, Loaded, load_pages}
use memory_tiering.Placement.{by_accesses, choose, Snapshot, Candidates, candidates, fixed_capacity}

pub data Kind : Type 0 where
  hpt hwt unknown : Kind

-- A row of `<prefix>.topk.csv`.
pub record TopkRow : Type 0 where
  pub n : ℕ
  pub epoch : ℕ
  pub kind : Kind
  pub key : ℕ

abbrev Reports : Type 0
Reports = List (ℕ × Snapshot)

-- `tracker.get(e, {'hpt': [], 'hwt': []})`
unfoldable pub report_of : Reports → ℕ → Snapshot
report_of [] e = record { hpt = []; hwt = [] }
report_of ((e', s) ∷ rest) e = if e' == e then s else report_of rest e

pub put_report : ℕ → Snapshot → Reports → Reports
put_report e s [] = (e, s) ∷ []
put_report e s ((e', t) ∷ rest) = if e' == e then (e, s) ∷ rest else (e', t) ∷ put_report e s rest

pub data Tracker : Type 0 where
  reports : Reports → Tracker
  key_error no_budget_rows : Tracker

-- The loop, with `out` so far and whether a row was seen. A kind that is no key is a KeyError.
load_rows : Option ℕ → List TopkRow → Reports → Bool → Tracker
load_rows budget [] [] true = no_budget_rows
load_rows budget [] out seen = reports out
load_rows budget (row ∷ rows) out seen =
    let skip : Bool = elim budget [ none ↦ false | some b ↦ not (row.n == b) ] in
    let s = report_of out row.epoch in
    elim skip [
      | true ↦ load_rows budget rows out true
      | false ↦ elim (row.kind) [
        | hpt ↦
            load_rows budget rows
              (put_report row.epoch (record { hpt = s.hpt ++ row.key ∷ []; hwt = s.hwt }) out) true
        | hwt ↦
            load_rows budget rows
              (put_report row.epoch (record { hpt = s.hpt; hwt = s.hwt ++ row.key ∷ [] }) out) true
        | unknown ↦ key_error
      ]
    ]

unfoldable pub load_tracker_topk : Option ℕ → List TopkRow → Tracker
unfolding load_rows report_of put_report
load_tracker_topk budget rows = load_rows budget rows [] false

pub data Policy : Type 0 where
  oracle count_only hpt_driven hwt_driven : Policy

-- The three dictionaries and the sum that the loop carries.
pub record Totals : Type 0 where
  pub captured : Policy → ℕ
  pub useful : Policy → ℕ
  pub allocated : Policy → ℕ
  pub total : ℕ

abbrev pub no_totals : Totals
no_totals = record { captured = λ p. 0; useful = λ p. 0; allocated = λ p. 0; total = 0 }

-- `picked`, with the oracle's pages of the current window.
unfoldable pub picked : Numpy → Candidates → List Record → ℕ → Policy → List ℕ
picked np c cur capacity oracle = choose np (by_accesses cur) capacity
picked np c cur capacity count_only = c.count_only
picked np c cur capacity hpt_driven = c.hpt_driven
picked np c cur capacity hwt_driven = c.hwt_driven

-- The rows of the current window whose page is in the fast tier.
unfoldable pub hits : List ℕ → List Record → List Record
hits pages cur = filter (λ r. contains pages r.page) cur

-- One round of the loop.
unfoldable pub score_window : Numpy → (Policy → List ℕ) → List Record → Totals → Totals
unfolding hits
score_window np chosen cur t = record {
  captured = λ p. t.captured p + sum_by accesses (hits (chosen p) cur);
  useful = λ p. t.useful p + sum_by (λ r. popcount64 np r.mask) (hits (chosen p) cur) * 64;
  allocated = λ p. t.allocated p + length (chosen p) * page_bytes;
  total = t.total + sum_by accesses cur;
}

-- The parameters of a study: `fast_frac` and `hwt_words_per_page` as fractions.
pub record Setting : Type 0 where
  pub frac_num : ℕ
  pub frac_den : ℕ
  pub words_num : ℕ
  pub words_den : ℕ
  pub tracker : Option (List (ℕ × Snapshot))

unfoldable pub snapshot_of : Option (List (ℕ × Snapshot)) → ℕ → Option Snapshot
unfolding report_of
snapshot_of none e = none
snapshot_of (some r) e = some (report_of r e)

unfoldable pub chosen_for : Numpy → Setting → ℕ → List Record → ℕ → List Record → Policy → List ℕ
unfolding snapshot_of picked
chosen_for np s capacity prev a cur =
    picked np (candidates np prev capacity s.words_num s.words_den (snapshot_of s.tracker a)) cur
      capacity

-- The loop over neighbouring epochs.
unfoldable pub score_epochs : Numpy → Setting → ℕ → List Record → ℕ → List ℕ → Totals → Totals
score_epochs np s capacity recs a [] t = t
score_epochs np s capacity recs a (b ∷ later) t =
    let cur = in_epoch recs b in
    score_epochs np s capacity recs b later
      (score_window np (chosen_for np s capacity (in_epoch recs a) a cur) cur t)

pub record Study : Type 0 where
  pub epochs : ℕ
  pub capacity_pages : ℕ
  pub totals : Totals

pub data Evaluation : Type 0 where
  refused : Loaded → Evaluation
  value_error no_study : Evaluation
  study : Study → Evaluation

evaluate_epochs : Numpy → Setting → List Record → List ℕ → Evaluation
evaluate_epochs np s recs [] = no_study
evaluate_epochs np s recs (a ∷ []) = no_study
evaluate_epochs np s recs (a ∷ b ∷ later) = elim (fixed_capacity recs s.frac_num s.frac_den) [
  | none ↦ value_error
  | some capacity ↦ study (record {
    epochs = length (a ∷ b ∷ later);
    capacity_pages = capacity;
    totals = score_epochs np s capacity recs a (b ∷ later) no_totals;
  })
]

evaluate_records : Numpy → Setting → Loaded → Evaluation
evaluate_records np s (Loaded.loaded recs) =
    evaluate_epochs np s recs (np.unique (map (λ r. r.epoch) recs))
evaluate_records np s e = refused e

unfoldable pub evaluate : Numpy → Setting → PagesFile → Evaluation
unfolding evaluate_records evaluate_epochs
evaluate np s file = evaluate_records np s (load_pages file true true)
