-- ===== src/Crosscheck/Paired.antt =====
-- src/analysis/compare_reproduction.py, `checked_histograms`: the checks of a paired run, and the compact
-- file that it publishes. Files are their rows; a failed assertion and a ValueError are both a refusal.
pub mod Laws
use Prim.Native.String.{String}
use text.Mathlib.Text.{◌==◌ as str_eq}
use memory_tiering.Prelude.{
  ℕ, zero, suc, ◌+◌, ◌*◌, ◌^◌, List, [], ◌∷◌, Bool, true, false, Option, some, none, ltb, leb, ◌==◌,
  if◌then◌else◌, not, ◌&&◌, ◌||◌, filter,
}
use memory_tiering.Prelude.Int.{ℤ, pos, negsuc, ltb_ℤ}
use memory_tiering.Numpy.{Float64}
use memory_tiering.Histogram
use memory_tiering.Histogram.{Row, Reading, Read, refused, read, read_hist, int_eq}

pub data Error : Type 0 where
  incomplete_run empty_histogram counts_disagree assertion : Error
  unreadable : Histogram.Error → Error

-- The files of a run: `mem_refs_profiled` and `dram_accesses` are what `int` reads in the summary.
pub record PairedRun : Type 0 where
  pub complete : Bool
  pub warm_setup : Bool
  pub compact : Option (List Row)
  pub raw : List Row
  pub mem_refs_profiled : ℤ
  pub dram_accesses : ℤ
  pub unique_hist : ℕ → ℕ

-- `path`
unfoldable pub rows_of : PairedRun → List Row
rows_of run = elim (run.compact) [ some rows ↦ rows | none ↦ run.raw ]

unfoldable pub cumulative : (ℕ → ℕ) → ℕ → ℕ
cumulative hist zero = hist 0
cumulative hist (suc n) = cumulative hist n + hist (suc n)

-- `hist.sum()`
unfoldable pub hist_sum : (ℕ → ℕ) → ℕ
unfolding cumulative
hist_sum hist = cumulative hist 64

-- `np.array_equal`, over the bins up to `n`.
unfoldable pub same_hist : ℕ → (ℕ → ℕ) → (ℕ → ℕ) → Bool
same_hist zero f g = f 0 == g 0
same_hist (suc n) f g = same_hist n f g && (f (suc n) == g (suc n))

-- A histogram and its count of events.
pub record Counted : Type 0 where
  pub hist : ℕ → ℕ
  pub events : ℤ

pub data Outcome (A : Type 0) : Type 0 where
  rejected : Error → Outcome A
  passed : A → Outcome A

unfoldable pub after : {A B : Type 0} → Outcome A → (A → Outcome B) → Outcome B
after (rejected e) f = rejected e
after (passed a) f = f a

unfoldable pub counted : Reading → Option ℤ → Outcome Counted
counted r none = rejected assertion
counted r (some e) = passed (record { hist = r.hist; events = e })

-- `read_hist(path, scope, stream, population)`
unfoldable pub histogram : List Row → String → String → String → Outcome Counted
unfolding counted
histogram rows scope stream population = elim (read_hist rows scope stream population) [
  | refused e ↦ rejected (unreadable e)
  | read r ↦ counted r r.events
]

unfoldable pub require : {A : Type 0} → Bool → Error → A → Outcome A
require true e a = passed a
require false e a = rejected e

unfoldable pub own : List Row → String → String → Outcome Counted
unfolding histogram after require hist_sum
own rows scope stream =
    after (histogram rows scope stream "own")
      (λ c. require (not (hist_sum c.hist == 0)) empty_histogram c)

-- The second reading of a stream has the count of the first.
unfoldable pub own_again : List Row → String → String → Counted → Outcome Counted
unfolding own after require
own_again rows scope stream first =
    after (own rows scope stream) (λ c. require (int_eq c.events first.events) counts_disagree c)

pub record Histograms : Type 0 where
  pub accesses : Counted
  pub fills : Counted
  pub traffic : Counted

unfoldable pub pooled : List Row → Outcome Histograms
unfolding own after
pooled rows = after (own rows "pooled" "accesses") (λ a. after (own rows "pooled" "fills") (λ f.
    after (own rows "pooled" "traffic")
      (λ t. passed (record { accesses = a; fills = f; traffic = t }))))

unfoldable pub whole : List Row → Histograms → Outcome Histograms
unfolding own_again after
whole rows p = after (own_again rows "whole" "accesses" p.accesses) (λ a.
    after (own_again rows "whole" "fills" p.fills) (λ f.
      after (own_again rows "whole" "traffic" p.traffic)
        (λ t. passed (record { accesses = a; fills = f; traffic = t }))))

-- `a <= b <= c * 3`
unfoldable pub triple : ℤ → ℤ
triple (pos n) = pos (3 * n)
triple (negsuc n) = negsuc (3 * n + 2)

unfoldable pub totals_agree : PairedRun → Histograms → Bool
unfolding triple same_hist
totals_agree run p =
    int_eq p.accesses.events run.mem_refs_profiled
    && int_eq p.traffic.events run.dram_accesses
    && not (ltb_ℤ p.traffic.events p.fills.events)
    && not (ltb_ℤ (triple p.accesses.events) p.traffic.events)
    && same_hist 64 p.traffic.hist run.unique_hist

-- `np.all(cdf(access) <= cdf(fills) + 1e-12)`, up to bin `n`, for histograms of the same sum.
unfoldable pub below : Float64 → ℕ → (ℕ → ℕ) → (ℕ → ℕ) → Bool
unfolding cumulative hist_sum
below fl zero a f = fl.cdf_le (cumulative a 0) (cumulative f 0) (hist_sum f)
below fl (suc n) a f =
    below fl n a f && fl.cdf_le (cumulative a (suc n)) (cumulative f (suc n)) (hist_sum f)

-- The checks over the pages that were filled.
unfoldable pub fill_pages_agree : Float64 → Counted → Counted → Bool
unfolding below hist_sum
fill_pages_agree fl access fills =
    (hist_sum access.hist == hist_sum fills.hist)
    && not (hist_sum fills.hist == 0)
    && below fl 64 access.hist fills.hist

unfoldable pub unions_agree : Bool → Histograms → Bool
unfolding same_hist
unions_agree true w = true
unions_agree false w =
    same_hist 64 w.accesses.hist w.fills.hist && same_hist 64 w.accesses.hist w.traffic.hist

pub record Checked : Type 0 where
  pub pooled_hists : Histograms
  pub whole_hists : Histograms

unfoldable pub checked_rows : Float64 → PairedRun → List Row → Outcome Checked
unfolding pooled whole after require totals_agree histogram fill_pages_agree unions_agree
checked_rows fl run rows = after (pooled rows) (λ p. after (whole rows p) (λ w.
    after (require (totals_agree run p) assertion p) (λ q.
      after (histogram rows "pooled" "accesses" "fill_pages") (λ access.
        after (histogram rows "pooled" "fills" "fill_pages") (λ fills.
          require (fill_pages_agree fl access fills && unions_agree run.warm_setup w) assertion
            (record { pooled_hists = p; whole_hists = w }))))))

unfoldable pub checked_histograms : Float64 → PairedRun → Outcome Checked
unfolding checked_rows rows_of
checked_histograms fl run =
    if not run.complete then rejected incomplete_run else checked_rows fl run (rows_of run)

-- The compact file that a check of a run without one leaves: all rows but those of the epochs.
unfoldable pub compacted : List Row → List Row
compacted rows = filter (λ r. not (str_eq r.scope "epoch")) rows

unfoldable pub publish_compact : PairedRun → Option (List Row) → PairedRun
unfolding compacted
publish_compact run (some rows) = run
publish_compact run none = record run { compact = some (compacted run.raw) }
