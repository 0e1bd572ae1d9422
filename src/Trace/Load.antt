-- ===== src/Trace/Load.antt =====
-- src/analysis/hotskew.py, `load_pages`: the checks that a dump passes before it is analysed.
-- `np.fromfile` is not modelled: `records` is what it returns for a file of whole records.
use memory_tiering.Prelude.{
  ℕ, ◌%◌, ◌^◌, ◌≡◌, List, Bool, true, false, ◌==◌, if◌then◌else◌, not, ◌&&◌, ◌||◌, any, length,
  sum_by, arith,
}
use memory_tiering.Trace.{Record, accesses}

-- What `load_summary` reads of the run's summary, each field converted as `load_pages` does.
pub record Summary : Type 0 where
  pub capped : Bool
  pub page_observations : ℕ
  pub dram_accesses : ℕ
  pub collection_complete : Bool
  pub unique_hist : List ℕ

pub record PagesFile : Type 0 where
  pub present : Bool
  pub size : ℕ
  pub records : List Record
  pub summary : Summary

pub data Loaded : Type 0 where
  loaded : List Record → Loaded
  file_not_found truncated saturated capped_dump uncovered not_complete : Loaded

-- `RECORD_DTYPE.itemsize`
abbrev record_bytes : ℕ
record_bytes = 164

-- The word counters are uint16.
unfoldable pub saturates : Record → Bool
saturates r = any (λ c. c == 65535) r.words

check_complete : Summary → List Record → Loaded
check_complete s recs =
    if s.capped
    then capped_dump
    else if not (length recs == s.page_observations)
        || not ((sum_by accesses recs % 2 ^ 64) == s.dram_accesses)
    then uncovered
    else if not s.collection_complete
    then not_complete
    else loaded recs

unfoldable pub load_pages : PagesFile → Bool → Bool → Loaded
unfolding saturates check_complete
load_pages f require_complete require_unsaturated =
    if not f.present
    then file_not_found
    else if not ((f.size % record_bytes) == 0)
    then truncated
    else if require_unsaturated && any saturates f.records
    then saturated
    else if require_complete
    then check_complete f.summary f.records
    else loaded f.records

-- A dump that passes both checks is whole: it has the summary's number of observations and, modulo
-- 2 ^ 64, its number of accesses, the run was complete and not capped, and no record has a counter
-- at the largest value of a uint16.
pub load_pages_complete :
    (f : PagesFile) (recs : List Record)
    → load_pages f true true ≡ loaded recs
    → (recs ≡ f.records)
      × (length recs ≡ f.summary.page_observations)
      × (sum_by accesses recs % 2 ^ 64 ≡ f.summary.dram_accesses)
      × (f.summary.capped ≡ false)
      × (f.summary.collection_complete ≡ true)
      × (any saturates recs ≡ false)
unfolding load_pages
load_pages_complete f recs h = ground arith

-- Under every choice of checks, what is loaded is the dump's records.
pub load_pages-records :
    (f : PagesFile) (require_unsaturated : Bool) (recs : List Record)
    → load_pages f true require_unsaturated ≡ loaded recs
    → recs ≡ f.records
unfolding load_pages
load_pages-records f u recs h = ground arith
