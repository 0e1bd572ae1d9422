-- ===== src/Granularity/Words.antt =====
-- src/analysis/granularity_sweep.py, `coarsen_popcount`: its masks pick out the words.
use Prim.Native.Nat.{bit_and, bit_and-bitwise, digits, min}
use memory_tiering.Prelude.{
  ℕ, zero, suc, ◌+◌, ◌*◌, ◌/◌, ◌%◌, ◌^◌, ◌≤◌, ◌<◌, ◌≡◌, refl, ap, sym, ◌∙◌, true, ◌==◌,
  if◌then◌else◌, [], ◌∷◌, All, arith,
}
use memory_tiering.Numpy.{Numpy, bit_count}
use memory_tiering.Trace.Bits.{popcount64-bits, same_entries, same_entries-at}
use memory_tiering.Granularity.{group_mask, touched_groups, coarsen_popcount}

-- A number without its lowest `n` binary digits.
unfoldable pub skip : ℕ → ℕ → ℕ
skip zero x = x
skip (suc n) x = skip n (x / 2)

-- The first `n` words of `k` bits that have a bit set.
unfoldable pub touched_slots : ℕ → ℕ → ℕ → ℕ
unfolding bit_count skip
touched_slots k zero x = 0
touched_slots k (suc g) x =
    touched_slots k g x + (if bit_count k (skip (g * k) x) == 0 then 0 else 1)

-- `bit_and` by its digits, with any fuel that is enough.
abbrev common : ℕ → ℕ → ℕ → ℕ
common fuel x y = digits (λ d. zero) min fuel x y

common-enough : (m n x y : ℕ) → x ≤ m → x ≤ n → common m x y ≡ common n x y
common-enough zero zero x y a b = refl
common-enough zero (suc n) zero y a b = refl
common-enough zero (suc n) (suc x) y a b = absurd (omega (arith, a))
common-enough (suc m) zero zero y a b = refl
common-enough (suc m) zero (suc x) y a b = absurd (omega (arith, b))
common-enough (suc m) (suc n) zero y a b = refl
common-enough (suc m) (suc n) (suc x) y a b =
    omega (arith, common-enough m n (suc x / 2) (y / 2) (omega (arith, a)) (omega (arith, b)))

bit_and-halves : (x y : ℕ) → bit_and x y ≡ 2 * bit_and (x / 2) (y / 2) + min (x % 2) (y % 2)
bit_and-halves zero y = omega (arith, bit_and-bitwise 0 y, bit_and-bitwise 0 (y / 2))
bit_and-halves (suc x) y =
    let half = suc x / 2 in
    let low = common-enough x half half (y / 2) (omega arith) (omega arith) in
    omega (arith, bit_and-bitwise (suc x) y, bit_and-bitwise half (y / 2), low)

bit_and-none : (n x : ℕ) → x ≤ n → bit_and x 0 ≡ 0
bit_and-none n zero h = refl
bit_and-none zero (suc x) h = absurd (omega (arith, h))
bit_and-none (suc n) (suc x) h =
    omega (arith, bit_and-halves (suc x) 0, bit_and-none n (suc x / 2) (omega (arith, h)))

-- `k` ones, and `m` with `s` zeros after it.
ones : ℕ → ℕ
ones zero = 0
ones (suc k) = 1 + 2 * ones k

shifted : ℕ → ℕ → ℕ
shifted zero m = m
shifted (suc s) m = 2 * shifted s m

bit_and-shifted : (s m x : ℕ) → (bit_and x (shifted s m) == 0) ≡ (bit_and (skip s x) m == 0)
unfolding shifted skip
bit_and-shifted zero m x = refl
bit_and-shifted (suc s) m x =
    let step = bit_and-halves x (2 * shifted s m) in
    let half : 2 * shifted s m / 2 ≡ shifted s m = omega arith in
    let twice : bit_and x (2 * shifted s m) ≡ 2 * bit_and (x / 2) (shifted s m) =
      omega (arith, step, ap (bit_and (x / 2)) half) in
    ap (λ v. v == 0) twice ∙ doubled (bit_and (x / 2) (shifted s m)) ∙ bit_and-shifted s m (x / 2)
  where
    doubled : (v : ℕ) → (2 * v == 0) ≡ (v == 0)
    doubled v = ground arith

bit_and-ones :
    (k x : ℕ)
    → (bit_and x (ones k) ≡ 0 → bit_count k x ≡ 0) × (bit_count k x ≡ 0 → bit_and x (ones k) ≡ 0)
unfolding ones bit_count
bit_and-ones zero x = (λ h. refl, λ h. bit_and-none x x (omega arith))
bit_and-ones (suc k) x =
    let step = bit_and-halves x (1 + 2 * ones k) in
    let half : (1 + 2 * ones k) / 2 ≡ ones k = omega arith in
    let same = ap (bit_and (x / 2)) half in
    let (a, b) = bit_and-ones k (x / 2) in
    (
      λ h. let low = a (omega (arith, step, same, h)) in omega (arith, step, same, h, low),
      λ h. let low = b (omega (arith, h)) in omega (arith, step, same, h, low),
    )

zero_tests : (u v : ℕ) → (u ≡ 0 → v ≡ 0) × (v ≡ 0 → u ≡ 0) → (u == 0) ≡ (v == 0)
zero_tests zero zero h = refl
zero_tests zero (suc v) h = absurd (omega (arith, h.0 refl))
zero_tests (suc u) zero h = absurd (omega (arith, h.1 refl))
zero_tests (suc u) (suc v) h = ground arith

-- The masks of the words of `k` bits.
abbrev shifted_ones : ℕ → ℕ → ℕ
shifted_ones k g = shifted (g * k) (ones k)

touched_groups-slots :
    (k size n x : ℕ)
    → same_entries (group_mask k) (shifted_ones k) size ≡ true
    → n ≤ size
    → touched_groups k n x ≡ touched_slots k n x
unfolding touched_groups touched_slots
touched_groups-slots k size zero x same le = refl
touched_groups-slots k size (suc g) x same le =
    let mask = same_entries-at (group_mask k) (shifted_ones k) size g (omega (arith, le)) same in
    let test =
      ap (λ m. bit_and x m == 0) mask
      ∙ bit_and-shifted (g * k) (ones k) x
      ∙ zero_tests (bit_and (skip (g * k) x) (ones k)) (bit_count k (skip (g * k) x))
          (bit_and-ones k (skip (g * k) x)) in
    rw (touched_groups-slots k size g x same (omega (arith, le)), test) refl

bit_count_last : (n x : ℕ) → bit_count (suc n) x ≡ bit_count n x + skip n x % 2
unfolding bit_count skip
bit_count_last zero x = omega arith
bit_count_last (suc n) x = omega (arith, bit_count_last n (x / 2))

-- Words of one bit.
slots-bit_count : (n x : ℕ) → touched_slots 1 n x ≡ bit_count n x
unfolding touched_slots
slots-bit_count zero x = unfold bit_count in refl
slots-bit_count (suc g) x =
    let last = bit_count_last g x in
    let one : g * 1 ≡ g = omega arith in
    rw one (omega (arith, slots-bit_count g x, last, one_bit (skip g x)))
  where
    one_bit : (y : ℕ) → (if bit_count 1 y == 0 then 0 else 1) ≡ y % 2
    one_bit y = unfold bit_count in ground arith

double : ℕ → ℕ
double zero = 1
double (suc n) = 2 * double n

bit_count_zero : (w x : ℕ) → x < double w → bit_count w x ≡ 0 → x ≡ 0
unfolding bit_count double
bit_count_zero zero x h e = omega (arith, h)
bit_count_zero (suc w) x h e =
    let half = bit_count_zero w (x / 2) (omega (arith, h)) (omega (arith, e)) in
    omega (arith, half, e)

bit_count_of_zero : (w : ℕ) → bit_count w 0 ≡ 0
unfolding bit_count
bit_count_of_zero zero = refl
bit_count_of_zero (suc w) = omega (arith, bit_count_of_zero w)

-- One word of all 64 bits.
slots-whole : (x : ℕ) → x < 2 ^ 64 → touched_slots 64 1 x ≡ (if x == 0 then 0 else 1)
unfolding touched_slots skip
slots-whole x h =
    let same =
      zero_tests (bit_count 64 x) x
        (bit_count_zero 64 x (unfold double in h), λ e. rw e (bit_count_of_zero 64)) in
    rw same (omega arith)

Masks : (k : ℕ) → Type 0
Masks k = same_entries (group_mask k) (shifted_ones k) (64 / k) ≡ true

Masks-table : Masks 2 × Masks 4 × Masks 8 × Masks 16 × Masks 32
unfolding Masks same_entries group_mask shifted ones
Masks-table = (refl, refl, refl, refl, refl)

-- The words of the given size that the mask of a page touches, for each size of the sweep.
unfoldable pub slots_of : ℕ → ℕ → ℕ
unfolding touched_slots
slots_of word_size x = touched_slots (word_size / 64) (64 / (word_size / 64)) x

pub coarsen_popcount-slots :
    (np : Numpy) (x : ℕ)
    → x < 2 ^ 64
    → All
        (λ ws. coarsen_popcount np ws x ≡ slots_of ws x)
        (64 ∷ 128 ∷ 256 ∷ 512 ∷ 1024 ∷ 2048 ∷ 4096 ∷ [])
unfolding coarsen_popcount slots_of Masks
coarsen_popcount-slots np x h = (
  popcount64-bits np x h ∙ sym (slots-bit_count 64 x),
  (
    touched_groups-slots 2 32 32 x Masks-table.0 (omega arith),
    (
      touched_groups-slots 4 16 16 x Masks-table.1 (omega arith),
      (
        touched_groups-slots 8 8 8 x Masks-table.2 (omega arith),
        (
          touched_groups-slots 16 4 4 x Masks-table.3 (omega arith),
          (touched_groups-slots 32 2 2 x Masks-table.4 (omega arith), (sym (slots-whole x h), tt)),
        ),
      ),
    ),
  ),
)
