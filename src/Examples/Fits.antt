-- ===== src/Examples/Fits.antt =====
-- The merge factors of two workloads with the trace of three windows.
use memory_tiering.Prelude.{List, [], ◌∷◌, some, none}
use memory_tiering.Numpy.Reference.{reference}
use memory_tiering.WindowFit.{digitised}
use memory_tiering.WindowFit.Main.{Best, Entry, Report, fitted, failed, main}
use memory_tiering.Examples.Analysis.{dump}

abbrev entries : List Entry
entries =
    record { bench = "gapbs-tc"; size = 820; file = dump }
    ∷ record { bench = "zipf"; size = 820; file = dump }
    ∷ record { bench = "redis"; size = 820; file = dump }
    ∷ []

fit_report : Report
unfolding main
fit_report = elim (main reference digitised entries) [
  | fitted r ↦ r
  | failed l ↦ record { fits = []; global = none }
]

single : Best
unfolding fit_report
single = elim (fit_report.global) [
  | some b ↦ b
  | none ↦ record { m = 0; err = record { num = 0; den = 0 } }
]
