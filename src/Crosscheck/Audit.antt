-- ===== src/Crosscheck/Audit.antt =====
-- src/analysis/audit_results.py, `main`: the audit of the paired campaigns. A failed assertion and a
-- ValueError are both a refusal; a run's `raw` rows are those of its `.paired.csv`.
pub mod Laws
use Prim.Native.String.{String}
use memory_tiering.Prelude.{ℕ, List, [], ◌∷◌, Bool, true, false, leb, if◌then◌else◌, not, ◌&&◌}
use memory_tiering.Numpy.{Float64}
use memory_tiering.Histogram.{Row, int_eq}
use memory_tiering.Crosscheck.Paired.{
  PairedRun, Outcome, rejected, passed, assertion, after, require, Counted, histogram, Histograms,
  hist_sum, same_hist, fill_pages_agree, unions_agree,
}

-- `observed[stream]`
pub record Observed : Type 0 where
  pub pooled_hist : Counted
  pub whole_hist : Counted

unfoldable pub observe : List Row → String → Outcome Observed
unfolding after require histogram hist_sum
observe rows stream = after (histogram rows "pooled" stream "own") (λ p.
    after (histogram rows "whole" stream "own") (λ w.
      require (int_eq p.events w.events && leb (hist_sum w.hist) (hist_sum p.hist)) assertion
        (record { pooled_hist = p; whole_hist = w })))

pub record Audited : Type 0 where
  pub accesses_seen : Observed
  pub fills_seen : Observed
  pub traffic_seen : Observed

unfoldable pub wholes : Audited → Histograms
wholes a = record {
  accesses = a.accesses_seen.whole_hist;
  fills = a.fills_seen.whole_hist;
  traffic = a.traffic_seen.whole_hist;
}

unfoldable pub summary_agrees : PairedRun → Audited → Bool
unfolding same_hist
summary_agrees run a =
    int_eq a.accesses_seen.pooled_hist.events run.mem_refs_profiled
    && int_eq a.traffic_seen.pooled_hist.events run.dram_accesses
    && same_hist 64 a.traffic_seen.pooled_hist.hist run.unique_hist

unfoldable pub observe_all : List Row → Outcome Audited
unfolding observe after
observe_all rows = after (observe rows "accesses") (λ a. after (observe rows "fills") (λ f.
    after (observe rows "traffic")
      (λ t. passed (record { accesses_seen = a; fills_seen = f; traffic_seen = t }))))

-- The last assertions, over the pages that were filled and the whole run.
unfoldable pub audit_fills : Float64 → PairedRun → Audited → Counted → Counted → Outcome Audited
unfolding require fill_pages_agree unions_agree wholes
audit_fills fl run a access fills =
    require (fill_pages_agree fl access fills && unions_agree run.warm_setup (wholes a)) assertion a

unfoldable pub audit_run : Float64 → PairedRun → Outcome Audited
unfolding observe_all after require summary_agrees histogram audit_fills
audit_run fl run = after (observe_all run.raw) (λ a.
    after (require (summary_agrees run a) assertion a) (λ b.
      after (histogram run.raw "pooled" "accesses" "fill_pages") (λ access.
        after (histogram run.raw "pooled" "fills" "fill_pages") (audit_fills fl run b access))))

-- The loop over the manifests; a run that is not complete is passed over.
unfoldable pub audit : Float64 → List PairedRun → Outcome (List Audited)
unfolding audit_run after
audit fl [] = passed []
audit fl (run ∷ runs) =
    let rest = audit fl runs in
    if not run.complete
    then rest
    else after (audit_run fl run) (λ a. after rest (λ more. passed (a ∷ more)))
