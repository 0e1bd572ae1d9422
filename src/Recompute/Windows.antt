-- ===== src/Recompute/Windows.antt =====
-- src/analysis/revalidate_extensions.py, `epochs`: the raw file read in blocks, cut into its windows.
-- A stream is what the generator yields, and how it ends.
pub mod Laws
pub mod Contents
use memory_tiering.Prelude.{
  ℕ, zero, suc, ◌+◌, ◌≡◌, List, [], ◌∷◌, ◌++◌, Bool, true, false, ltb, ◌==◌, if◌then◌else◌, ◌&&◌,
  not, length, take, drop,
}
use memory_tiering.Trace.{Record}

-- The records of the file, and the bytes after the last whole one.
pub record RawFile : Type 0 where
  pub records : List Record
  pub trailing : ℕ

pub data Ending : Type 0 where
  finished truncated non_consecutive bad_final out_of_fuel : Ending

pub record Stream : Type 0 where
  pub yielded : List (List Record)
  pub ending : Ending

unfoldable pub ends : Ending → Stream
ends e = record { yielded = []; ending = e }

unfoldable pub yields : List Record → Stream → Stream
yields rec s = record { yielded = rec ∷ s.yielded; ending = s.ending }

-- The cuts at the boundaries of `allr`. `run` is the run being read and `epoch` its epoch; `next` is
-- `previous + 1`; what is left at the end is `pending`.
unfoldable pub cut : (ℕ → List Record → ℕ → Stream) → ℕ → List Record → ℕ → List Record → Stream
unfolding ends yields
cut rest next run epoch [] = rest next run epoch
cut rest next run epoch (r ∷ rs) =
    let same = cut rest next (run ++ r ∷ []) epoch rs in
    let other = cut rest (next + 1) (r ∷ []) r.epoch rs in
    if r.epoch == epoch
    then same
    else if epoch == next
    then yields run other
    else ends non_consecutive

-- `rec['epoch'][0]` is read only of a row that is there.
unfoldable pub cut_all : (ℕ → List Record → ℕ → Stream) → ℕ → List Record → Stream
unfolding cut ends
cut_all rest next [] = ends finished
cut_all rest next (r ∷ rs) = cut rest next (r ∷ []) r.epoch rs

-- The last window, at the end of the file.
unfoldable pub last_window : ℕ → List Record → ℕ → Stream
unfolding ends yields
last_window next pending epoch =
    if epoch == next then yields pending (ends finished) else ends bad_final

-- Whether a read of `n` records gives a partial one.
unfoldable pub reads_partial : ℕ → ℕ → List Record → Bool
reads_partial trailing n rest = ltb (length rest) n && not (trailing == 0)

unfoldable pub read_blocks : ℕ → ℕ → ℕ → ℕ → List Record → List Record → Stream
unfolding ends cut_all last_window reads_partial
read_blocks zero n trailing next pending rest = ends out_of_fuel
read_blocks (suc fuel) n trailing next pending rest =
    if reads_partial trailing n rest
    then ends truncated
    else cut_all
        (λ next' run epoch.
          if length (take n rest) == 0
          then last_window next' run epoch
          else read_blocks fuel n trailing next' run (drop n rest))
        next (pending ++ take n rest)

abbrev pub block_records : ℕ
block_records = 32768

-- A read takes a record or is the last, so one read more than there are records is enough.
unfoldable pub epochs : RawFile → Stream
unfolding read_blocks
epochs file = read_blocks (suc (length file.records)) block_records file.trailing 0 [] file.records
