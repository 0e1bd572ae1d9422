-- ===== src/Curves/Laws.antt =====
-- The curve of a summary is that of the records it counts.
use memory_tiering.Prelude.{
  ℕ, zero, suc, ◌+◌, ◌^◌, ◌≤◌, ◌<◌, ◌≡◌, refl, sym, ap, ◌∙◌, inl, inr, List, [], ◌∷◌, ◌++◌, true,
  false, Option, some, none, map, leb, ◌==◌, if◌then◌else◌, length, count_if, All, Bool-cases,
  arith,
}
use mathlib.Core.Path.{subst}
use memory_tiering.Prelude.Int.{ℤ, pos, difference, ◌+ℤ◌}
use memory_tiering.Numpy.{Numpy}
use memory_tiering.Trace.{Record, popcount64}
use memory_tiering.Trace.Bits.{popcount64-le}
use memory_tiering.Turnover.{Ratio}
use memory_tiering.Histogram.{int_eq}
use memory_tiering.Curves.{unique_words, at_most, figure4_cdf, population}
use memory_tiering.Curves.Summary.{
  Line, Meta, unique, in_section, set_unique, set_field, read_line, read_lines, load_summary,
  empty_meta, cumulative, IntRatio, cdf_point, figure4_from_summary,
}

-- The number of records with a given number of words.
unfoldable pub words_hist : Numpy → List Record → ℕ → ℕ
words_hist np recs k = count_if (λ r. popcount64 np r.mask == k) recs

unfoldable pub hist_line : (ℕ → ℕ) → ℕ → Line
hist_line hist n = record {
  full_histogram = false;
  figure10 = false;
  comment = false;
  log2_bucket = false;
  blank = false;
  fields = some (some (pos n), some (pos (hist n)));
  key_value = none;
}

unfoldable pub hist_lines : (ℕ → ℕ) → ℕ → ℕ → List Line
unfolding hist_line
hist_lines hist first zero = []
hist_lines hist first (suc n) = hist_line hist first ∷ hist_lines hist (first + 1) n

abbrev pub hist_header : Line
hist_header = record {
  full_histogram = true;
  figure10 = false;
  comment = true;
  log2_bucket = false;
  blank = false;
  fields = none;
  key_value = none;
}

-- A summary with a histogram after its other lines.
unfoldable pub with_hist : List Line → (ℕ → ℕ) → List Line
with_hist before hist = before ++ hist_header ∷ hist_lines hist 0 65

read_lines-append :
    (m : Meta) (xs ys : List Line) → read_lines m (xs ++ ys) ≡ read_lines (read_lines m xs) ys
unfolding read_lines
read_lines-append m [] ys = refl
read_lines-append m (x ∷ xs) ys = read_lines-append (read_line m x) xs ys

hist_line-section :
    (hist : ℕ → ℕ) (m : Meta) (n : ℕ)
    → m.section ≡ unique
    → n ≤ 64
    → read_line m (hist_line hist n) ≡ set_unique m n (pos (hist n))
unfolding hist_line read_line in_section set_field
hist_line-section hist m n h l =
    let small : leb n 64 ≡ true = ground (arith, l) in
    subst
      (λ s.
        (if in_section s then set_field m s (some (pos n)) (some (pos (hist n))) else m)
        ≡ set_unique m n (pos (hist n)))
      (sym h) (rw small refl)

hist_lines-below :
    (hist : ℕ → ℕ) (n first k : ℕ) (m : Meta)
    → m.section ≡ unique
    → first + n ≤ 65
    → k < first
    → (read_lines m (hist_lines hist first n)).unique_hist k ≡ m.unique_hist k
unfolding hist_lines read_lines
hist_lines-below hist zero first k m h l b = refl
hist_lines-below hist (suc n) first k m h l b =
    let other : (k == first) ≡ false = ground (arith, b) in
    ap (λ m'. (read_lines m' (hist_lines hist (first + 1) n)).unique_hist k)
      (hist_line-section hist m first h (omega (arith, l)))
    ∙ hist_lines-below hist n (first + 1) k (set_unique m first (pos (hist first)))
        (unfold set_unique in h) (omega (arith, l)) (omega (arith, b))
    ∙ unfold set_unique in rw other refl

hist_lines-unique_hist :
    (hist : ℕ → ℕ) (n first k : ℕ) (m : Meta)
    → m.section ≡ unique
    → first + n ≤ 65
    → first ≤ k
    → k < first + n
    → (read_lines m (hist_lines hist first n)).unique_hist k ≡ pos (hist k)
unfolding hist_lines read_lines
hist_lines-unique_hist hist zero first k m h l a b = absurd (omega (arith, a, b))
hist_lines-unique_hist hist (suc n) first k m h l a b =
    ap (λ m'. (read_lines m' (hist_lines hist (first + 1) n)).unique_hist k)
      (hist_line-section hist m first h (omega (arith, l)))
    ∙ elim (Bool-cases (k == first)) [
      | inl e ↦
          let same : first ≡ k = ground (arith, e) in
          hist_lines-below hist n (first + 1) k (set_unique m first (pos (hist first)))
            (unfold set_unique in h) (omega (arith, l)) (omega (arith, same))
          ∙ (unfold set_unique in rw e (ap (λ j. pos (hist j)) same))
      | inr e ↦
          let above : first + 1 ≤ k = ground (arith, a, e) in
          hist_lines-unique_hist hist n (first + 1) k (set_unique m first (pos (hist first)))
            (unfold set_unique in h) (omega (arith, l)) above (omega (arith, b))
    ]

with_hist-unique_hist :
    (before : List Line) (hist : ℕ → ℕ) (k : ℕ)
    → k ≤ 64
    → (load_summary (with_hist before hist)).unique_hist k ≡ pos (hist k)
unfolding load_summary with_hist read_lines read_line
with_hist-unique_hist before hist k h =
    rw (read_lines-append empty_meta before (hist_header ∷ hist_lines hist 0 65))
      (hist_lines-unique_hist hist 65 0 k _ refl (omega arith) (omega arith) (omega (arith, h)))

pos_add : (a b : ℕ) → pos a +ℤ pos b ≡ pos (a + b)
unfolding ◌+ℤ◌ difference
pos_add a b = ground arith

at_most_step :
    (np : Numpy) (n : ℕ) (recs : List Record)
    → count_if (λ r. leb (popcount64 np r.mask) n) recs + words_hist np recs (suc n)
      ≡ count_if (λ r. leb (popcount64 np r.mask) (suc n)) recs
unfolding count_if words_hist
at_most_step np n [] = omega arith
at_most_step np n (r ∷ rs) = ground (arith, at_most_step np n rs)

at_most_zero :
    (np : Numpy) (recs : List Record)
    → words_hist np recs 0 ≡ count_if (λ r. leb (popcount64 np r.mask) 0) recs
unfolding count_if words_hist
at_most_zero np [] = refl
at_most_zero np (r ∷ rs) = ground (arith, at_most_zero np rs)

module _ (np : Numpy) (recs : List Record) (hist : ℕ → ℤ)
    (h : (k : ℕ) → k ≤ 64 → hist k ≡ pos (words_hist np recs k)) where
  cumulative-count_if :
      (n : ℕ) → n ≤ 64 → cumulative hist n ≡ pos (count_if (λ r. leb (popcount64 np r.mask) n) recs)
  unfolding cumulative
  cumulative-count_if zero l = h 0 l ∙ ap pos (at_most_zero np recs)
  cumulative-count_if (suc n) l =
      rw (cumulative-count_if n (omega (arith, l)), h (suc n) l)
        (pos_add _ _ ∙ ap pos (at_most_step np n recs))

count_if-at_most :
    (np : Numpy) (recs : List Record)
    → All (λ r. r.mask < 2 ^ 64) recs
    → count_if (λ r. leb (popcount64 np r.mask) 64) recs ≡ length recs
unfolding count_if
count_if-at_most np [] h = refl
count_if-at_most np (r ∷ rs) h =
    let here = popcount64-le np r.mask h.0 in ground (arith, here, count_if-at_most np rs h.1)

unique_words-count_if :
    (np : Numpy) (n : ℕ) (recs : List Record)
    → count_if (λ u. leb u n) (unique_words np recs)
      ≡ count_if (λ r. leb (popcount64 np r.mask) n) recs
unfolding unique_words count_if
unique_words-count_if np n [] = refl
unique_words-count_if np n (r ∷ rs) = omega (arith, unique_words-count_if np n rs)

length-unique_words :
    (np : Numpy) (recs : List Record) → length (unique_words np recs) ≡ length recs
unfolding unique_words
length-unique_words np [] = refl
length-unique_words np (r ∷ rs) = omega (arith, length-unique_words np rs)

-- A point of the one curve as a point of the other.
unfoldable pub signed : Option Ratio → Option IntRatio
signed none = none
signed (some r) = some (record { num = pos r.num; den = pos r.den })

point_agrees :
    (np : Numpy) (recs : List Record) (hist : ℕ → ℤ) (n : ℕ)
    → ((k : ℕ) → k ≤ 64 → hist k ≡ pos (words_hist np recs k))
    → All (λ r. r.mask < 2 ^ 64) recs
    → n ≤ 64
    → cdf_point hist (cumulative hist 64) n ≡ signed (at_most (unique_words np recs) n)
unfolding cdf_point at_most signed int_eq
point_agrees np recs hist n h m l =
    let part = cumulative-count_if np recs hist h n l in
    let total =
      cumulative-count_if np recs hist h 64 (omega arith) ∙ ap pos (count_if-at_most np recs m) in
    rw (part, total, unique_words-count_if np n recs, length-unique_words np recs)
      (elim (Bool-cases (length recs == 0)) [ inl e ↦ rw e refl | inr e ↦ rw e refl ])

points_agree :
    (np : Numpy) (recs : List Record) (hist : ℕ → ℤ) (ns : List ℕ)
    → ((k : ℕ) → k ≤ 64 → hist k ≡ pos (words_hist np recs k))
    → All (λ r. r.mask < 2 ^ 64) recs
    → All (λ n. n ≤ 64) ns
    → map (cdf_point hist (cumulative hist 64)) ns
      ≡ map signed (map (at_most (unique_words np recs)) ns)
points_agree np recs hist [] h m l = refl
points_agree np recs hist (n ∷ ns) h m l =
    let here = point_agrees np recs hist n h m l.0 in
    let rest = points_agree np recs hist ns h m l.1 in cc

-- Writing the histogram of the records into a summary and reading the curve from it gives the curve
-- of the records, at points up to 64. The masks are 64-bit numbers.
pub figure4_from_summary-figure4_cdf :
    (np : Numpy) (before : List Line) (recs : List Record) (ns : List ℕ)
    → All (λ r. r.mask < 2 ^ 64) recs
    → All (λ n. n ≤ 64) ns
    → figure4_from_summary (with_hist before (words_hist np recs)) ns
      ≡ map signed (figure4_cdf np recs ns none)
unfolding figure4_from_summary figure4_cdf population
figure4_from_summary-figure4_cdf np before recs ns m l =
    points_agree np recs (load_summary (with_hist before (words_hist np recs))).unique_hist ns
      (λ k h. with_hist-unique_hist before (words_hist np recs) k h) m l
