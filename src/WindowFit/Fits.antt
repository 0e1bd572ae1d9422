-- ===== src/WindowFit/Fits.antt =====
-- What the reported fits are.
use Prim.Native.String.{String}
use memory_tiering.Prelude.{◌+◌, ◌≡◌, true, false, List, [], ◌∷◌}
use memory_tiering.Numpy.{Numpy}
use memory_tiering.Trace.{Record}
use memory_tiering.Trace.Load.{Loaded, load_pages}
use memory_tiering.WindowFit.{Target}
use memory_tiering.WindowFit.Main.{Best, err_at, Entry, Workload, epochs_of, Fit, worst_at, longest}
use memory_tiering.WindowFit.Loading.{Some}
use memory_tiering.WindowFit.Laws.{IsLeast}

-- A fit of an entry: it has the entry's name and the windows of the entry's own dump, and its error is
-- the least over all merge factors of that dump.
unfoldable pub IsFitOf : Numpy → Target → Fit → Entry → Type 0
IsFitOf np target f e =
    (recs : List Record) × (load_pages e.file true false ≡ Loaded.loaded recs)
    × (f.bench ≡ e.bench)
    × (f.epochs ≡ epochs_of recs)
    × IsLeast (err_at np target e.bench recs) 1 (1 + epochs_of recs) f.optimum

-- A fit of one of the entries.
abbrev pub IsFit : Numpy → Target → List Entry → Fit → Type 0
IsFit np target entries f = Some (IsFitOf np target f) entries

-- A single factor for all workloads: the worst error is the least over the factors up to the longest.
unfoldable pub IsGlobal : Numpy → Target → List Workload → Best → Type 0
IsGlobal np target [] b = ⊥
IsGlobal np target (w ∷ ws) b = IsLeast (worst_at np target w ws) 1 (1 + longest (w ∷ ws)) b
