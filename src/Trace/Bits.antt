-- ===== src/Trace/Bits.antt =====
-- src/analysis/hotskew.py, `_popcount64`: the byte table and the library call count the same bits.
use memory_tiering.Prelude.{
  ℕ, ◌+◌, ◌/◌, ◌%◌, ◌^◌, ◌≤◌, ◌<◌, ◌≡◌, refl, Bool, true, Bool-cases, Option-cases, inl, inr,
  sum_by, ◌==◌, ◌&&◌, arith, zero, suc,
}
use memory_tiering.Numpy.{Numpy, bit_count}
use memory_tiering.Trace.{popcnt_table, bytes_of, table_at, popcount64}

pub bit_count-le : (w x : ℕ) → bit_count w x ≤ w
unfolding bit_count
bit_count-le zero x = omega arith
bit_count-le (suc w) x = omega (arith, bit_count-le w (x / 2))

pub bit_count-zero : (w : ℕ) → bit_count w 0 ≡ 0
unfolding bit_count
bit_count-zero zero = refl
bit_count-zero (suc w) = omega (arith, bit_count-zero w)

-- Two tables that agree at 0, …, `size - 1`.
unfoldable pub same_entries : (ℕ → ℕ) → (ℕ → ℕ) → ℕ → Bool
same_entries f g zero = true
same_entries f g (suc last) = same_entries f g last && (f last == g last)

pub same_entries-at :
    (f g : ℕ → ℕ) (size i : ℕ) → i < size → same_entries f g size ≡ true → f i ≡ g i
unfolding same_entries
same_entries-at f g zero i below same = absurd (omega arith)
same_entries-at f g (suc last) i below same = elim (Bool-cases (i == last)) [
  | inl e ↦ let here : i ≡ last = ground arith in rw here (ground arith)
  | inr e ↦ same_entries-at f g last i (ground arith) (ground arith)
]

table_checked : same_entries (table_at popcnt_table) (bit_count 8) 256 ≡ true
unfolding same_entries table_at popcnt_table bit_count
table_checked = refl

table_lem : (b : ℕ) → b < 256 → table_at popcnt_table b ≡ bit_count 8 b
table_lem b h = same_entries-at (table_at popcnt_table) (bit_count 8) 256 b h table_checked

abbrev eight_more : ℕ → ℕ
eight_more w = suc (suc (suc (suc (suc (suc (suc (suc w)))))))

halve_eight : (x : ℕ) → x / 2 / 2 / 2 / 2 / 2 / 2 / 2 / 2 ≡ x / 256
halve_eight x = omega arith

low_byte : (x : ℕ) → bit_count 8 (x % 256) ≡ bit_count 8 x
unfolding bit_count
low_byte x = omega arith

-- The ones of a number are those of its lowest byte and those of the rest.
byte_step : (w x : ℕ) → bit_count (eight_more w) x ≡ bit_count 8 (x % 256) + bit_count w (x / 256)
byte_step w x = rw (low_byte x, ← halve_eight x) (digits_step w x)
  where
    digits_step :
        (w x : ℕ)
        → bit_count (eight_more w) x
          ≡ bit_count 8 x + bit_count w (x / 2 / 2 / 2 / 2 / 2 / 2 / 2 / 2)
    digits_step w x = unfold bit_count in omega arith

-- The ones of the lowest `n` bytes.
ones_of_bytes : ℕ → ℕ → ℕ
ones_of_bytes n x = sum_by (table_at popcnt_table) (bytes_of n x)

ones_of_bytes_step :
    (n w x : ℕ)
    → ones_of_bytes n (x / 256) ≡ bit_count w (x / 256)
    → ones_of_bytes (suc n) x ≡ bit_count (eight_more w) x
unfolding ones_of_bytes bytes_of sum_by
ones_of_bytes_step n w x h = omega (arith, table_lem (x % 256) (omega arith), h, byte_step w x)

no_bytes : (x : ℕ) → ones_of_bytes 0 x ≡ bit_count 0 x
unfolding ones_of_bytes bytes_of sum_by bit_count
no_bytes x = refl

-- The byte table counts the ones of a uint64.
fallback_lem : (x : ℕ) → ones_of_bytes 8 x ≡ bit_count 64 x
fallback_lem x = ones_of_bytes_step 7 56 x (
    ones_of_bytes_step 6 48 _ (
      ones_of_bytes_step 5 40 _ (
        ones_of_bytes_step 4 32 _ (
          ones_of_bytes_step 3 24 _ (
            ones_of_bytes_step 2 16 _
              (ones_of_bytes_step 1 8 _ (ones_of_bytes_step 0 0 _ (no_bytes _))))))))

-- Whichever version of the library is installed, the result is the number of set bits of the mask:
-- the byte table of the old versions and the call of the new ones agree.
pub popcount64-bits : (np : Numpy) (x : ℕ) → x < 2 ^ 64 → popcount64 np x ≡ bit_count 64 x
unfolding popcount64
popcount64-bits np x h = elim (Option-cases (np.bitwise_count)) [
  | inl e ↦ rw (e, popcount64) (unfold ones_of_bytes in fallback_lem x)
  | inr (f, e) ↦ rw (e, popcount64) (np.bitwise_count_bits f e x h)
]

pub popcount64-le : (np : Numpy) (x : ℕ) → x < 2 ^ 64 → popcount64 np x ≤ 64
popcount64-le np x h = rw (popcount64-bits np x h) (bit_count-le 64 x)
