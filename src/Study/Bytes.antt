-- ===== src/Study/Bytes.antt =====
-- The bytes that the study reports as useful and as allocated.
use memory_tiering.Prelude.{
  ℕ, ◌+◌, ◌-◌, ◌*◌, ◌≤◌, ◌<◌, ◌≡◌, List, [], ◌∷◌, Bool, ◌==◌, filter, length, contains, count_if,
  sum_by, All, All-filter, Bool-cases, inl, inr, arith, ◌^◌, suc,
}
use memory_tiering.Numpy.{Numpy}
use memory_tiering.Trace.{Record, popcount64, in_epoch, page_bytes}
use memory_tiering.Trace.Bits.{popcount64-le}
use memory_tiering.Trace.Load.{PagesFile}
use memory_tiering.Placement.Optimal.{Distinct, count-contains-le}
use memory_tiering.Study.{
  Policy, Totals, score_window, Setting, chosen_for, score_epochs, study, evaluate, Study,
  no_totals,
}
use memory_tiering.Study.Laws.{DistinctWindows, length-chosen_for-le, evaluate-study}

-- The masks are uint64.
abbrev pub Masks : List Record → Type 0
Masks recs = All (λ r. r.mask < 2 ^ 64) recs

words-le :
    (np : Numpy) (p : Record → Bool) (recs : List Record)
    → Masks recs
    → sum_by (λ r. popcount64 np r.mask) (filter p recs) ≤ count_if p recs * 64
unfolding sum_by filter count_if
words-le np p [] h = omega arith
words-le np p (r ∷ recs) h = elim (Bool-cases (p r)) [
  | inl e ↦ rw e (omega (arith, popcount64-le np r.mask h.0, words-le np p recs h.1))
  | inr e ↦ rw e (omega (arith, words-le np p recs h.1))
]

-- The bytes of the fast tier over the windows so far, and that the useful ones are among them.
record IsWithin (capacity windows : ℕ) (t : Totals) : Type 0 where
  useful : (p : Policy) → t.useful p ≤ t.allocated p
  allocated : (p : Policy) → t.allocated p ≤ windows * (capacity * page_bytes)

module _ (np : Numpy) (s : Setting) (capacity : ℕ) where
  score_window-IsWithin :
      (prev : List Record) (a : ℕ) (cur : List Record) (windows : ℕ) (t : Totals)
      → Distinct (λ r. r.page) cur
      → Masks cur
      → IsWithin capacity windows t
      → IsWithin capacity
          (windows + 1)
          (score_window np (chosen_for np s capacity prev a cur) cur t)
  unfolding score_window
  score_window-IsWithin prev a cur windows t d m h = record {
    useful = λ p.
        let pages = chosen_for np s capacity prev a cur p in
        omega (
          arith,
          h.useful p,
          words-le np (λ r. contains pages r.page) cur m,
          count-contains-le (λ (r : Record). r.page) pages cur d,
        );
    allocated = λ p. omega (arith, h.allocated p, length-chosen_for-le np s capacity prev a cur p);
  }

  score_epochs-IsWithin :
      (recs : List Record) (a : ℕ) (later : List ℕ) (windows : ℕ) (t : Totals)
      → DistinctWindows recs
      → Masks recs
      → IsWithin capacity windows t
      → IsWithin capacity (windows + length later) (score_epochs np s capacity recs a later t)
  unfolding score_epochs
  score_epochs-IsWithin recs a [] windows t d m h = record {
    useful = h.useful;
    allocated = λ p. omega (arith, h.allocated p);
  }
  score_epochs-IsWithin recs a (b ∷ later) windows t d m h =
      let cur = in_epoch recs b in
      let step =
        score_window-IsWithin (in_epoch recs a) a cur windows t (d b)
          (unfold in_epoch in All-filter (λ r. r.mask < 2 ^ 64) (λ r. r.epoch == b) recs m) h in
      let rest = score_epochs-IsWithin recs b later (windows + 1) _ d m step in
      record { useful = rest.useful; allocated = λ p. omega (arith, rest.allocated p) }

-- When masks are 64-bit and no page is recorded twice in a window, every policy of a completed study
-- allocates at most the capacity in each window after the first, and the bytes it counts as useful
-- are at most those it allocates.
pub useful-le-allocated :
    (np : Numpy) (s : Setting) (file : PagesFile) (r : Study) (p : Policy)
    → DistinctWindows file.records
    → Masks file.records
    → evaluate np s file ≡ study r
    → (r.totals.useful p ≤ r.totals.allocated p)
      × (r.totals.allocated p ≤ (r.epochs - 1) * (r.capacity_pages * page_bytes))
useful-le-allocated np s file r p d m h =
    let o = evaluate-study np s file r h in
    let within =
      score_epochs-IsWithin np s r.capacity_pages file.records o.first (o.second ∷ o.later) 0
        no_totals d m (record { useful = λ p. omega arith; allocated = λ p. omega arith }) in
    rw (o.totals, o.epochs)
      (within.useful p, rw (← windows_lem (length o.later)) (within.allocated p))
  where
    windows_lem : (n : ℕ) → 0 + suc n ≡ suc (suc n) - 1
    windows_lem n = omega arith
