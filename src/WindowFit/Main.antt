-- ===== src/WindowFit/Main.antt =====
-- src/analysis/window_fit.py, `main`: the least error of each workload, and the least worst error of all.
-- The dumps are in the order of their names.
use Prim.Native.String.{String}
use memory_tiering.Prelude.{
  ℕ, zero, suc, ◌+◌, ◌*◌, max, List, [], ◌∷◌, Bool, true, false, Option, some, none, ltb, ◌==◌,
  if◌then◌else◌, length,
}
use memory_tiering.Numpy.{Numpy}
use memory_tiering.Trace.{Record}
use memory_tiering.Trace.Load.{PagesFile, Loaded, load_pages}
use memory_tiering.Turnover.{Ratio}
use memory_tiering.WindowFit.{
  Cdf, value_error, no_cdf, of_words, cdf_at_merge, Target, error_for, lookup, m5_figure4,
}

unfoldable pub less : Ratio → Ratio → Bool
less a b = ltb (a.num * b.den) (b.num * a.den)

-- `best` and `best_g`, without the curve.
pub record Best : Type 0 where
  pub m : ℕ
  pub err : Ratio

unfoldable pub improved : Option Best → ℕ → Option Ratio → Option Best
unfolding less
improved best m none = best
improved none m (some e) = some (record { m = m; err = e })
improved (some b) m (some e) = if less e b.err then some (record { m = m; err = e }) else some b

-- The loop over the `n` merge factors from `m` on; `none` is a factor that is passed over.
unfoldable pub best_of : (ℕ → Option Ratio) → ℕ → ℕ → Option Best → Option Best
unfolding improved
best_of err m zero best = best
best_of err m (suc n) best = best_of err (m + 1) n (improved best m (err m))

unfoldable pub curve_error : Target → String → Cdf → Option Ratio
curve_error target bench value_error = none
curve_error target bench no_cdf = none
curve_error target bench (of_words uw) = error_for target bench uw

-- `err_for(bench, cdf_at_merge(recs, m))`
unfoldable pub err_at : Numpy → Target → String → List Record → ℕ → Option Ratio
unfolding curve_error
err_at np target bench recs m = curve_error target bench (cdf_at_merge np recs m)

-- A dump of the directory.
pub record Entry : Type 0 where
  pub bench : String
  pub size : ℕ
  pub file : PagesFile

pub record Workload : Type 0 where
  pub bench : String
  pub recs : List Record

unfoldable pub epochs_of : List Record → ℕ
epochs_of [] = 0
epochs_of (r ∷ rs) = max (r.epoch + 1) (epochs_of rs)

pub data Dumps : Type 0 where
  refused : Loaded → Dumps
  dumps : List Workload → Dumps

unfoldable pub add_workload : String → Loaded → Dumps → Dumps
add_workload bench (Loaded.loaded recs) (dumps ws) =
    if length recs == 0 then dumps ws else dumps (record { bench = bench; recs = recs } ∷ ws)
add_workload bench (Loaded.loaded recs) (refused l) = refused l
add_workload bench l ws = refused l

-- The entries that are neither unknown nor empty.
unfoldable pub load_all : List Entry → Dumps
unfolding add_workload lookup m5_figure4
load_all [] = dumps []
load_all (e ∷ es) =
    let rest = load_all es in
    elim (lookup m5_figure4 e.bench) [
      | none ↦ rest
      | some values ↦
          if e.size == 0 then rest else add_workload e.bench (load_pages e.file true false) rest
    ]

pub record Fit : Type 0 where
  pub bench : String
  pub epochs : ℕ
  pub optimum : Best
  pub base : Option Ratio

unfoldable pub add_fit : String → ℕ → Option Ratio → Option Best → List Fit → List Fit
add_fit bench n base none fits = fits
add_fit bench n base (some b) fits =
    record { bench = bench; epochs = n; optimum = b; base = base } ∷ fits

unfoldable pub fits_of : Numpy → Target → List Workload → List Fit
unfolding add_fit best_of err_at epochs_of
fits_of np target [] = []
fits_of np target (w ∷ ws) =
    let err = err_at np target w.bench w.recs in
    let n = epochs_of w.recs in
    add_fit w.bench n (err 1) (best_of err 1 n none) (fits_of np target ws)

unfoldable pub larger : Option Ratio → Option Ratio → Option Ratio
unfolding less
larger none b = none
larger a none = none
larger (some a) (some b) = if less a b then some b else some a

-- `max(row.values())`; `none` if a workload has no curve at this factor.
unfoldable pub worst_at : Numpy → Target → Workload → List Workload → ℕ → Option Ratio
unfolding larger err_at
worst_at np target w [] m = err_at np target w.bench w.recs m
worst_at np target w (v ∷ ws) m =
    larger (err_at np target w.bench w.recs m) (worst_at np target v ws m)

unfoldable pub longest : List Workload → ℕ
unfolding epochs_of
longest [] = 0
longest (w ∷ ws) = max (epochs_of w.recs) (longest ws)

unfoldable pub global_fit : Numpy → Target → List Workload → Option Best
unfolding worst_at best_of longest
global_fit np target [] = none
global_fit np target (w ∷ ws) = best_of (worst_at np target w ws) 1 (longest (w ∷ ws)) none

pub record Report : Type 0 where
  pub fits : List Fit
  pub global : Option Best

pub data Outcome : Type 0 where
  failed : Loaded → Outcome
  fitted : Report → Outcome

-- The global fit is made only if there is a fit.
unfoldable pub report_of : Numpy → Target → List Workload → Outcome
unfolding fits_of global_fit
report_of np target ws = fitted (record {
  fits = fits_of np target ws;
  global = if length (fits_of np target ws) == 0 then none else global_fit np target ws;
})

unfoldable pub fit_dumps : Numpy → Target → Dumps → Outcome
unfolding report_of
fit_dumps np target (refused l) = failed l
fit_dumps np target (dumps ws) = report_of np target ws

unfoldable pub main : Numpy → Target → List Entry → Outcome
unfolding load_all fit_dumps
main np target entries = fit_dumps np target (load_all entries)
