-- ===== src/Curves/Shares.antt =====
-- The share of the accesses that the hottest words of the pages carry.
use memory_tiering.Prelude.{
  ℕ, zero, suc, ◌+◌, ◌*◌, leb, refl, All, Sorted, Permᴰ, ◌-◌, ◌≤◌, ◌<◌, ◌≡◌, sym, ap, ◌∙◌, inl, inr,
  List, [], ◌∷◌, false, some, ◌==◌, length, sum_by, sum_by-perm, sum_by-append, take, drop,
  take-append-drop, Bool-cases, arith,
}
use memory_tiering.Numpy.{Numpy}
use memory_tiering.Trace.{Record}
use memory_tiering.Turnover.{Ratio}
use memory_tiering.Curves.{hottest, top_word_share}

length-perm : {xs ys : List ℕ} → Permᴰ xs ys → length xs ≡ length ys
length-perm Permᴰ.nil = refl
length-perm (Permᴰ.cons e p) = omega (arith, length-perm p)
length-perm (Permᴰ.swap e d) = omega arith
length-perm (Permᴰ.trans p q) = omega (arith, length-perm p, length-perm q)

excess_zero : (xs : List ℕ) → sum_by (λ c. c - 0) xs ≡ sum_by (λ c. c) xs
unfolding sum_by
excess_zero [] = refl
excess_zero (x ∷ xs) = omega (arith, excess_zero xs)

hottest-le :
    (np : Numpy) (k : ℕ) (words : List ℕ)
    → sum_by (λ c. c) (hottest np k words) ≤ sum_by (λ c. c) words
unfolding hottest
hottest-le np k words =
    let sorted = np.argsort (λ c. c) words in
    let n = length words - k in
    let whole = sum_by-perm (λ c. c) (np.argsort_perm (λ c. c) words) in
    let parts =
      sym (sum_by-append (λ c. c) (take n sorted) (drop n sorted))
      ∙ ap (sum_by (λ c. c)) (take-append-drop n sorted) in
    elim (Bool-cases (k == 0)) [
      | inl e ↦ rw e (omega (arith, whole))
      | inr e ↦ rw e (omega (arith, whole, parts))
    ]

hottest-sum_le :
    (np : Numpy) (k : ℕ) (recs : List Record)
    → sum_by (λ r. sum_by (λ c. c) (hottest np k r.words)) recs
      ≤ sum_by (λ r. sum_by (λ c. c) r.words) recs
unfolding sum_by
hottest-sum_le np k [] = omega arith
hottest-sum_le np k (r ∷ rs) = omega (arith, hottest-le np k r.words, hottest-sum_le np k rs)

drop-sum_le :
    (n m : ℕ) (xs : List ℕ) → n ≤ m → sum_by (λ c. c) (drop m xs) ≤ sum_by (λ c. c) (drop n xs)
unfolding drop sum_by
drop-sum_le zero zero xs h = omega arith
drop-sum_le zero (suc m) [] h = omega arith
drop-sum_le zero (suc m) (x ∷ xs) h = omega (arith, drop-sum_le zero m xs (omega arith))
drop-sum_le (suc n) zero xs h = absurd (omega (arith, h))
drop-sum_le (suc n) (suc m) [] h = omega arith
drop-sum_le (suc n) (suc m) (x ∷ xs) h = drop-sum_le n m xs (omega (arith, h))

-- More words carry at least as much.
hottest_mono :
    (np : Numpy) (k l : ℕ) (words : List ℕ)
    → 0 < k
    → k ≤ l
    → sum_by (λ c. c) (hottest np k words) ≤ sum_by (λ c. c) (hottest np l words)
unfolding hottest
hottest_mono np k l words h le =
    let k_some : (k == 0) ≡ false = ground (arith, h) in
    let l_some : (l == 0) ≡ false = ground (arith, h, le) in
    rw (k_some, l_some)
      (drop-sum_le (length words - l) (length words - k) (np.argsort (λ c. c) words)
        (omega (arith, le)))

hottest-sum_mono :
    (np : Numpy) (k l : ℕ) (recs : List Record)
    → 0 < k
    → k ≤ l
    → sum_by (λ r. sum_by (λ c. c) (hottest np k r.words)) recs
      ≤ sum_by (λ r. sum_by (λ c. c) (hottest np l r.words)) recs
unfolding sum_by
hottest-sum_mono np k l [] h le = omega arith
hottest-sum_mono np k l (r ∷ rs) h le =
    omega (arith, hottest_mono np k l r.words h le, hottest-sum_mono np k l rs h le)

-- The part of each number above a threshold.
abbrev excess : ℕ → List ℕ → ℕ
excess t xs = sum_by (λ c. c - t) xs

-- Whatever the threshold, `k` numbers are at most `k` thresholds and what is above.
take-le-excess : (t k : ℕ) (xs : List ℕ) → sum_by (λ c. c) (take k xs) ≤ k * t + excess t xs
unfolding take sum_by
take-le-excess t zero xs = omega arith
take-le-excess t (suc k) [] = omega arith
take-le-excess t (suc k) (x ∷ xs) = grind (arith, take-le-excess t k xs)

excess-le :
    (t : ℕ) (xs : List ℕ) → All (λ c. t ≤ c) xs → length xs * t + excess t xs ≤ sum_by (λ c. c) xs
unfolding sum_by
excess-le t [] h = omega arith
excess-le t (x ∷ xs) h = grind (arith, excess-le t xs h.1, h.0)

-- In an ascending list some threshold is met by all numbers from a place on.
excess-le-drop :
    (m : ℕ) (xs : List ℕ)
    → Sorted ◌≤◌ xs
    → m < length xs
    → (t : ℕ) × ((length xs - m) * t + excess t xs ≤ sum_by (λ c. c) (drop m xs))
      × ((z : ℕ) → All (λ c. z ≤ c) xs → z ≤ t)
unfolding drop sum_by
excess-le-drop m [] s h = absurd (omega (arith, h))
excess-le-drop zero (x ∷ xs) s h =
    let whole : length (x ∷ xs) - 0 ≡ length (x ∷ xs) = omega arith in
    (x, rw whole (unfold sum_by in excess-le x (x ∷ xs) (omega arith, s.0)), λ z a. a.0)
excess-le-drop (suc m) (x ∷ xs) s h =
    let (t, le, low) = excess-le-drop m xs s.1 (omega (arith, h)) in
    let above = low x s.0 in
    let same : length (x ∷ xs) - suc m ≡ length xs - m = omega arith in
    (t, rw same (omega (arith, le, above)), λ z a. low z a.1)

-- No `k` words carry more than the hottest.
take-le-hottest :
    (np : Numpy) (k : ℕ) (words order : List ℕ)
    → 0 < k
    → Permᴰ order words
    → sum_by (λ c. c) (take k order) ≤ sum_by (λ c. c) (hottest np k words)
unfolding hottest drop sum_by
take-le-hottest np k words order h perm =
    let sorted = np.argsort (λ c. c) words in
    let same = np.argsort_perm (λ c. c) words in
    let k_some : (k == 0) ≡ false = ground (arith, h) in
    let n = length words in
    rw k_some (elim (Bool-cases (leb n k)) [
      | inl all_words ↦
          let none_left : n - k ≡ 0 = ground (arith, all_words) in
          rw (none_left, drop)
            (omega (
              arith,
              take-le-excess 0 k order,
              sum_by-perm (λ (c : ℕ). c - 0) perm,
              excess_zero words,
              sum_by-perm (λ (c : ℕ). c) same,
            ))
      | inr some_left ↦
          let lengths : length sorted ≡ n = length-perm same in
          let (t, le, low) =
            excess-le-drop (n - k) sorted (np.argsort_sorted (λ c. c) words)
              (ground (arith, lengths, some_left, h)) in
          let count : length sorted - (n - k) ≡ k = ground (arith, lengths, some_left) in
          omega (
            arith,
            take-le-excess t k order,
            sum_by-perm (λ c. c - t) perm,
            sum_by-perm (λ c. c - t) same,
            le,
            ap (λ i. i * t) count,
          )
    ])

take-sum_le :
    (np : Numpy) (k : ℕ) (order : Record → List ℕ) (recs : List Record)
    → 0 < k
    → ((r : Record) → Permᴰ (order r) r.words)
    → sum_by (λ r. sum_by (λ c. c) (take k (order r))) recs
      ≤ sum_by (λ r. sum_by (λ c. c) (hottest np k r.words)) recs
unfolding sum_by
take-sum_le np k order [] h perm = omega arith
take-sum_le np k order (r ∷ rs) h perm =
    omega
      (arith, take-le-hottest np k r.words (order r) h (perm r), take-sum_le np k order rs h perm)

-- For `k` from 1 on, the share of the `k` hottest words is at least that of any `k` words of each
-- page, the first ones of whatever order of its words, and at most that of any larger number of words,
-- which is at most 1; all are of the same positive total.
pub top_word_share-le :
    (np : Numpy) (k l : ℕ) (recs : List Record) (order : Record → List ℕ) (share more : Ratio)
    → 0 < k
    → k ≤ l
    → ((r : Record) → Permᴰ (order r) r.words)
    → top_word_share np k recs ≡ some share
    → top_word_share np l recs ≡ some more
    → (sum_by (λ r. sum_by (λ c. c) (take k (order r))) recs ≤ share.num)
      × (share.num ≤ more.num)
      × (share.den ≡ more.den)
      × (more.num ≤ more.den)
      × (0 < more.den)
unfolding top_word_share
top_word_share-le np k l recs order share more h le perm e d = ground (
  arith,
  e,
  d,
  hottest-sum_le np l recs,
  hottest-sum_mono np k l recs h le,
  take-sum_le np k order recs h perm,
)
