-- ===== src/Granularity.antt =====
-- src/analysis/granularity_sweep.py: how much of a page is touched at each page and word size. A mean
-- is kept as the sum and the number of what it is taken of.
pub mod Laws
pub mod Words
pub mod Regions
use Prim.Native.Nat.{bit_and}
use memory_tiering.Prelude.{
  ℕ, zero, suc, ◌+◌, ◌-◌, ◌*◌, ◌/◌, ◌%◌, ◌^◌, ◌≡◌, List, [], ◌∷◌, ◌++◌, Bool, true, false, Option,
  none, some, map, ltb, leb, ◌==◌, if◌then◌else◌, ◌&&◌, not, length, filter, sum_by, count_if,
}
use memory_tiering.Prelude.Int.{pos}
use memory_tiering.Numpy.{Numpy}
use memory_tiering.Trace.{Record, popcount64}
use memory_tiering.Trace.Load.{PagesFile, Loaded, load_pages}

unfoldable pub page_sizes : List ℕ
page_sizes = 4096 ∷ 8192 ∷ 16384 ∷ 65536 ∷ 262144 ∷ 2097152 ∷ []

unfoldable pub word_sizes : List ℕ
word_sizes = 64 ∷ 128 ∷ 256 ∷ 512 ∷ 1024 ∷ 2048 ∷ 4096 ∷ []

-- The mask of the `g`-th word of `k` bits, in uint64.
unfoldable pub group_mask : ℕ → ℕ → ℕ
group_mask k g = ((2 ^ k - 1) * 2 ^ (g * k)) % 2 ^ 64

-- The words with a bit set, among the first `n`.
unfoldable pub touched_groups : ℕ → ℕ → ℕ → ℕ
unfolding group_mask
touched_groups k zero mask = 0
touched_groups k (suc g) mask =
    touched_groups k g mask + (if bit_and mask (group_mask k g) == 0 then 0 else 1)

-- One entry of the array that the source computes.
unfoldable pub coarsen_popcount : Numpy → ℕ → ℕ → ℕ
coarsen_popcount np word_size mask =
    let k = word_size / 64 in
    if k == 1
    then popcount64 np mask
    else if k == 64
    then (if mask == 0 then 0 else 1)
    else touched_groups k (64 / k) mask

-- The region of a record: its window and its page of the larger size.
unfoldable pub big : ℕ → Record → ℕ
big page_size r = r.page / (page_size / 4096)

unfoldable pub same_region : ℕ → Record → Record → Bool
unfolding big
same_region page_size a b = a.epoch == b.epoch && big page_size a == big page_size b

-- `np.add.at(total, grp_idx, touched_sub)`: the sums over runs of equal regions, the last run's sum
-- being `so_far` up to its last record.
unfoldable pub group_totals : (Record → ℕ) → ℕ → ℕ → Record → List Record → List ℕ
unfolding same_region
group_totals touched page_size so_far last [] = so_far ∷ []
group_totals touched page_size so_far last (r ∷ rs) =
    let more = group_totals touched page_size (so_far + touched r) r rs in
    let fresh = group_totals touched page_size (touched r) r rs in
    if same_region page_size last r then more else so_far ∷ fresh

unfoldable pub totals_of : (Record → ℕ) → ℕ → List Record → List ℕ
totals_of touched page_size [] = []
totals_of touched page_size (r ∷ rs) = group_totals touched page_size (touched r) r rs

-- `res[(ps, ws)]`: `mean_frac` is `touched / (pages * words)`, and `p_le_25pct` is `sparse / pages`.
pub record Cell : Type 0 where
  pub page_bytes : ℕ
  pub word_bytes : ℕ
  pub pages : ℕ
  pub words : ℕ
  pub touched : ℕ
  pub sparse : ℕ

unfoldable pub sorted_records : Numpy → ℕ → List Record → List Record
sorted_records np page_size recs = np.lexsort (big page_size) (λ r. pos r.epoch) recs

unfoldable pub cell : Numpy → List Record → ℕ → ℕ → Cell
cell np recs page_size word_size =
    let totals =
      totals_of (λ r. coarsen_popcount np word_size r.mask) page_size
        (sorted_records np page_size recs) in
    record {
      page_bytes = page_size;
      word_bytes = word_size;
      pages = length totals;
      words = page_size / word_size;
      touched = sum_by (λ t. t) totals;
      sparse = count_if (λ t. leb (t * 4) (page_size / word_size)) totals;
    }

-- A word must be smaller than its page.
unfoldable pub cells_of_page : Numpy → List Record → ℕ → List Cell
cells_of_page np recs page_size =
    map (cell np recs page_size) (filter (λ ws. ltb ws page_size) word_sizes)

unfoldable pub cells_of_pages : Numpy → List Record → List ℕ → List Cell
cells_of_pages np recs [] = []
cells_of_pages np recs (p ∷ ps) = cells_of_page np recs p ++ cells_of_pages np recs ps

unfoldable pub sweep_records : Numpy → List Record → List Cell
unfolding cells_of_pages
sweep_records np recs = if length recs == 0 then [] else cells_of_pages np recs page_sizes

pub data Sweep : Type 0 where
  refused : Loaded → Sweep
  swept : List Cell → Sweep

sweep_loaded : Numpy → Loaded → Sweep
sweep_loaded np (Loaded.loaded recs) = swept (sweep_records np recs)
sweep_loaded np e = refused e

unfoldable pub sweep : Numpy → PagesFile → Sweep
unfolding sweep_loaded
sweep np file = sweep_loaded np (load_pages file true false)
