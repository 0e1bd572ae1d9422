-- ===== src/Trace.antt =====
-- src/analysis/hotskew.py: the profiler's records and the quantities derived from one of them.
-- A 64-bit field is a number below 2 ^ 64.
pub mod Bits
pub mod Load
use memory_tiering.Prelude.{
  ℕ, ◌+◌, ◌%◌, ◌/◌, ◌^◌, ◌≡◌, List, [], ◌∷◌, Bool, Option, some, none, map, ltb, leb, ◌==◌, filter,
  sum_by, get_elem?, zero, suc,
}
use memory_tiering.Numpy.{Numpy, bit_count}

abbrev pub words_per_page : ℕ
words_per_page = 64

abbrev pub page_bytes : ℕ
page_bytes = 4096

-- One (page, epoch) observation. Bit `w` of `mask` is set iff word `w` was accessed.
pub record Record : Type 0 where
  pub epoch : ℕ
  pub page : ℕ
  pub reads : ℕ
  pub writes : ℕ
  pub mask : ℕ
  pub words : List ℕ

-- DRAM accesses of an observation; the sum is taken in uint64.
unfoldable pub accesses : Record → ℕ
accesses r = (r.reads + r.writes) % 2 ^ 64

-- `bin(i).count("1")` for each byte.
upto : ℕ → ℕ → List ℕ
upto zero i = []
upto (suc n) i = i ∷ upto n (i + 1)

unfoldable pub popcnt_table : List ℕ
unfolding upto bit_count
popcnt_table = map (bit_count 8) (upto 256 0)

-- The eight bytes of a uint64, lowest first.
unfoldable pub bytes_of : ℕ → ℕ → List ℕ
bytes_of zero x = []
bytes_of (suc n) x = x % 256 ∷ bytes_of n (x / 256)

unfoldable pub table_at : List ℕ → ℕ → ℕ
table_at table b = elim (get_elem? table b) [ none ↦ 0 | some n ↦ n ]

unfoldable pub popcount64 : Numpy → ℕ → ℕ
unfolding popcnt_table bytes_of table_at
popcount64 np x = elim (np.bitwise_count) [
  | some f ↦ f x
  | none ↦ sum_by (table_at popcnt_table) (bytes_of 8 x)
]

-- The records of one epoch: `recs[recs['epoch'] == e]`.
unfoldable pub in_epoch : List Record → ℕ → List Record
in_epoch recs e = filter (λ r. r.epoch == e) recs
