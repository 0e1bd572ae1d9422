-- ===== src/Recompute/Checks.antt =====
-- src/analysis/revalidate_extensions.py, the loop of `analyse`: what it requires of a window, and
-- the sums over the cells of the windows' sweeps.
use memory_tiering.Prelude.{
  ℕ, ◌+◌, List, [], ◌∷◌, Option, some, none, map, ◌==◌, if◌then◌else◌, not, ◌&&◌, length, sum_by,
  count_if, any, all,
}
use memory_tiering.Numpy.{Numpy}
use memory_tiering.Trace.{Record, accesses, popcount64}
use memory_tiering.Trace.Load.{saturates}
use memory_tiering.Granularity
use memory_tiering.Granularity.{sweep_records}
use memory_tiering.Recompute.Windows.{Ending}

pub data Failure : Type 0 where
  incomplete_collection capped_records duplicate_pages mask_disagreement word_disagreement : Failure
  unreadable : Ending → Failure
  uncovered cdf_mismatch invalid_tracker_ratio : Failure

-- `np.count_nonzero(rec['words'], axis=1)` and `rec['words'].sum(axis=1)` at one record.
unfoldable pub nonzero_words : Record → ℕ
nonzero_words r = count_if (λ c. not (c == 0)) r.words

unfoldable pub word_sum : Record → ℕ
word_sum r = sum_by (λ c. c) r.words

unfoldable pub window_failure : Numpy → List Record → Option Failure
unfolding nonzero_words word_sum
window_failure np rec =
    if not (length (np.unique (map (λ r. r.page) rec)) == length rec)
    then some duplicate_pages
    else if not (all (λ r. popcount64 np r.mask == nonzero_words r) rec)
    then some mask_disagreement
    else if not (any saturates rec) && not (all (λ r. word_sum r == accesses r) rec)
    then some word_disagreement
    else none

-- `gran[key]`: `g[1]` is `touched / words`.
pub record Group : Type 0 where
  pub page_bytes : ℕ
  pub word_bytes : ℕ
  pub observations : ℕ
  pub touched : ℕ
  pub words : ℕ
  pub sparse : ℕ

-- `gran.setdefault(key, [0, 0., 0.])` and the three sums.
unfoldable pub add_cell : List Group → Granularity.Cell → List Group
add_cell [] c =
    record {
      page_bytes = c.page_bytes;
      word_bytes = c.word_bytes;
      observations = c.pages;
      touched = c.touched;
      words = c.words;
      sparse = c.sparse;
    }
    ∷ []
add_cell (g ∷ gs) c =
    let rest = add_cell gs c in
    if g.page_bytes == c.page_bytes && g.word_bytes == c.word_bytes
    then record {
      page_bytes = g.page_bytes;
      word_bytes = g.word_bytes;
      observations = g.observations + c.pages;
      touched = g.touched + c.touched;
      words = g.words;
      sparse = g.sparse + c.sparse;
    }
      ∷ gs
    else g ∷ rest

unfoldable pub add_cells : List Group → List Granularity.Cell → List Group
unfolding add_cell
add_cells gs [] = gs
add_cells gs (c ∷ cs) = add_cells (add_cell gs c) cs
