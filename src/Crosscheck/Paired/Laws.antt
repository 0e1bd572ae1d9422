-- ===== src/Crosscheck/Paired/Laws.antt =====
-- A run is checked alike on its raw rows and on the compact file that is published for it.
use Prim.Native.String.{String}
use text.Mathlib.Text.{◌==◌ as str_eq}
use text.Mathlib.TextEquality.{eq_iff}
use memory_tiering.Prelude.{
  ◌≡◌, refl, sym, ap, ◌∙◌, inl, inr, List, [], ◌∷◌, Bool, true, false, Option, some, none,
  if◌then◌else◌, not, ◌&&◌, filter, Bool-cases, arith,
}
use memory_tiering.Histogram.{
  Row, Reading, refused, read, read_bin, read_rows, read_hist, selects, empty,
}
use memory_tiering.Numpy.{Float64}
use memory_tiering.Crosscheck.Paired.{
  PairedRun, rows_of, rejected, unreadable, incomplete_run, assertion, after, require, Counted,
  counted, histogram, own, own_again, Histograms, pooled, whole, totals_agree, fill_pages_agree,
  unions_agree, checked_rows, checked_histograms, compacted, publish_compact,
}

-- Rows that are skipped may be left out of the file.
read_rows-filter :
    (p q : Row → Bool) (rows : List Row) (s : Reading)
    → ((r : Row) → p r ≡ true → q r ≡ true)
    → read_rows p (filter q rows) s ≡ read_rows p rows s
unfolding filter read_rows
read_rows-filter p q [] s h = refl
read_rows-filter p q (r ∷ rs) s h = elim (Bool-cases (p r)) [
  | inl e ↦
      rw (h r e, e)
        (λ i. elim (read_bin s r.words r.pages r.events) [
          | refused x ↦ refused x
          | read t ↦ read_rows-filter p q rs t h i
        ])
  | inr e ↦ elim (Bool-cases (q r)) [
    | inl d ↦ rw (d, e) (read_rows-filter p q rs s h)
    | inr d ↦ rw (d, e) (read_rows-filter p q rs s h)
  ]
]

selected-scope :
    (scope stream population : String) (r : Row)
    → selects scope stream population r ≡ true
    → r.scope ≡ scope
unfolding selects
selected-scope scope stream population r h = (eq_iff r.scope scope).0 (ground (arith, h))

module _ (rows : List Row) (scope : String) (other : str_eq scope "epoch" ≡ false) where
  histogram-compacted :
      (stream population : String)
      → histogram (compacted rows) scope stream population ≡ histogram rows scope stream population
  unfolding histogram compacted read_hist
  histogram-compacted stream population =
      ap (λ r. elim r [ refused e ↦ rejected (unreadable e) | read t ↦ counted t t.events ])
        (read_rows-filter (selects scope stream population) (λ r. not (str_eq r.scope "epoch")) rows
          empty
          (λ r h. let same = selected-scope scope stream population r h in rw (same, other) refl))

  own-compacted : (stream : String) → own (compacted rows) scope stream ≡ own rows scope stream
  unfolding own
  own-compacted stream = rw (histogram-compacted stream "own") refl

  own_again-compacted :
      (stream : String) (first : Counted)
      → own_again (compacted rows) scope stream first ≡ own_again rows scope stream first
  unfolding own_again
  own_again-compacted stream first = rw (own-compacted stream) refl

module _ (rows : List Row) where
  pooled-compacted : pooled (compacted rows) ≡ pooled rows
  unfolding pooled
  pooled-compacted =
      rw
        (
          own-compacted rows "pooled" refl "accesses",
          own-compacted rows "pooled" refl "fills",
          own-compacted rows "pooled" refl "traffic",
        )
        refl

  whole-compacted : (p : Histograms) → whole (compacted rows) p ≡ whole rows p
  unfolding whole
  whole-compacted p =
      rw
        (
          own_again-compacted rows "whole" refl "accesses" p.accesses,
          own_again-compacted rows "whole" refl "fills" p.fills,
          own_again-compacted rows "whole" refl "traffic" p.traffic,
        )
        refl

  checked_rows-compacted :
      (fl : Float64) (run : PairedRun)
      → checked_rows fl run (compacted rows) ≡ checked_rows fl run rows
  unfolding checked_rows
  checked_rows-compacted fl run i = after (pooled-compacted i) (λ p.
      after (whole-compacted p i) (λ w. after (require (totals_agree run p) assertion p) (λ q.
        after (histogram-compacted rows "pooled" refl "accesses" "fill_pages" i) (λ access.
          after (histogram-compacted rows "pooled" refl "fills" "fill_pages" i) (λ fills.
            require (fill_pages_agree fl access fills && unions_agree run.warm_setup w) assertion
              (record { pooled_hists = p; whole_hists = w }))))))

  checked_rows-run :
      (fl : Float64) (run : PairedRun) (c : Option (List Row))
      → checked_rows fl (record run { compact = c }) rows ≡ checked_rows fl run rows
  unfolding checked_rows totals_agree
  checked_rows-run fl run c = refl

rows_of-raw : (run : PairedRun) → run.compact ≡ none → rows_of run ≡ run.raw
unfolding rows_of
rows_of-raw run e = ap (λ c. elim c [ some rows ↦ rows | none ↦ run.raw ]) e

-- A check does not depend on which file it reads: after the compact file of a run is published, the
-- check of the run gives what it gave on the raw rows, error or histograms.
pub checked_histograms-publish_compact :
    (fl : Float64) (run : PairedRun)
    → checked_histograms fl (publish_compact run run.compact) ≡ checked_histograms fl run
checked_histograms-publish_compact fl run = by_file run.compact refl
  where
    by_file :
        (c : Option (List Row))
        → run.compact ≡ c
        → checked_histograms fl (publish_compact run c) ≡ checked_histograms fl run
    by_file (some rows) e = unfold publish_compact in refl
    by_file none e =
        unfold publish_compact checked_histograms rows_of in
        ap (λ x. if not run.complete then rejected incomplete_run else x)
          (checked_rows-run (compacted run.raw) fl run (some (compacted run.raw))
            ∙ checked_rows-compacted run.raw fl run
            ∙ ap (checked_rows fl run) (sym (rows_of-raw run e)))
