-- ===== src/WindowFit/Laws.antt =====
-- The loop over merge factors finds the first of the least errors.
use native.Mathlib.Nat.{mul-le-mul_right, le_of_mul-le-mul_left}
use memory_tiering.Prelude.{
  ℕ, zero, suc, ◌+◌, ◌*◌, ◌≤◌, ◌<◌, ◌≡◌, refl, sym, ap, ◌∙◌, inl, inr, Option, some, none, ◌==◌,
  Bool-cases, arith,
}
use mathlib.Core.Path.{subst}
use memory_tiering.Turnover.{Ratio}
use memory_tiering.WindowFit.Main.{less, Best, improved, best_of}

abbrev pub AtMost : Ratio → Ratio → Type 0
AtMost a b = a.num * b.den ≤ b.num * a.den

AtMost-trans : (a b c : Ratio) → 0 < b.den → AtMost a b → AtMost b c → AtMost a c
AtMost-trans a b c h p q =
    let left : a.num * b.den * c.den ≤ b.num * a.den * c.den = mul-le-mul_right c.den p in
    let right : b.num * c.den * a.den ≤ c.num * b.den * a.den = mul-le-mul_right a.den q in
    le_of_mul-le-mul_left (grind (arith, left, right)) h

-- The least error over the factors from `first` to below `end`.
pub record IsLeast (err : ℕ → Option Ratio) (first end : ℕ) (b : Best) : Type 0 where
  pub found : err b.m ≡ some b.err
  pub lower : first ≤ b.m
  pub upper : b.m < end
  pub least : (k : ℕ) → first ≤ k → k < end → (e : Ratio) → err k ≡ some e → AtMost b.err e

module _ (err : ℕ → Option Ratio)
    (positive : (k : ℕ) (e : Ratio) → err k ≡ some e → 0 < e.den) where
  unfoldable pub IsCovered : ℕ → ℕ → Option Best → Type 0
  IsCovered first end none = (k : ℕ) → first ≤ k → k < end → err k ≡ none
  IsCovered first end (some b) = IsLeast err first end b

  passed_over-IsLeast :
      (first m : ℕ) (b : Best) → IsLeast err first m b → err m ≡ none → IsLeast err first (m + 1) b
  passed_over-IsLeast first m b h e = record {
    found = h.found;
    lower = h.lower;
    upper = omega (arith, h.upper);
    least = λ k l u x d. elim (Bool-cases (k == m)) [
      | inl s ↦ let same : k ≡ m = ground (arith, s) in absurd (cc (same, e, d))
      | inr s ↦ h.least k l (ground (arith, u, s)) x d
    ];
  }

  -- A new error that is at most all earlier ones.
  newer-IsLeast :
      (first m : ℕ) (e : Ratio)
      → first ≤ m
      → err m ≡ some e
      → ((k : ℕ) → first ≤ k → k < m → (x : Ratio) → err k ≡ some x → AtMost e x)
      → IsLeast err first (m + 1) (record { m = m; err = e })
  newer-IsLeast first m e l d h = record {
    found = d;
    lower = l;
    upper = omega arith;
    least = λ k i u x c. elim (Bool-cases (k == m)) [
      | inl s ↦
          let same : k ≡ m = ground (arith, s) in
          let equal : e ≡ x = cc (same, d, c) in rw equal (omega arith)
      | inr s ↦ h k i (ground (arith, u, s)) x c
    ];
  }

  older-IsLeast :
      (first m : ℕ) (b : Best) (e : Ratio)
      → IsLeast err first m b
      → err m ≡ some e
      → AtMost b.err e
      → IsLeast err first (m + 1) b
  older-IsLeast first m b e h d p = record {
    found = h.found;
    lower = h.lower;
    upper = omega (arith, h.upper);
    least = λ k l u x c. elim (Bool-cases (k == m)) [
      | inl s ↦
          let same : k ≡ m = ground (arith, s) in
          let equal : e ≡ x = cc (same, d, c) in rw (sym equal) p
      | inr s ↦ h.least k l (ground (arith, u, s)) x c
    ];
  }

  improved-IsCovered :
      (first m : ℕ) (best : Option Best) (o : Option Ratio)
      → first ≤ m
      → err m ≡ o
      → IsCovered first m best
      → IsCovered first (m + 1) (improved best m o)
  unfolding improved IsCovered less
  improved-IsCovered first m none none l d h = λ k i u. elim (Bool-cases (k == m)) [
    | inl s ↦ ap err (ground (arith, s)) ∙ d
    | inr s ↦ h k i (ground (arith, u, s))
  ]
  improved-IsCovered first m (some b) none l d h = passed_over-IsLeast first m b h d
  improved-IsCovered first m none (some e) l d h =
      newer-IsLeast first m e l d (λ k i u x c. absurd (cc (h k i u, c)))
  improved-IsCovered first m (some b) (some e) l d h = elim (Bool-cases (less e b.err)) [
    | inl p ↦
        let lower : AtMost e b.err = ground (arith, p) in
        rw p (
          newer-IsLeast first m e l d (λ k i u x c.
            AtMost-trans e b.err x (positive b.m b.err h.found) lower (h.least k i u x c)))
    | inr p ↦ rw p (older-IsLeast first m b e h d (ground (arith, p)))
  ]

  pub best_of-IsCovered :
      (first m n : ℕ) (best : Option Best)
      → first ≤ m
      → IsCovered first m best
      → IsCovered first (m + n) (best_of err m n best)
  unfolding best_of IsCovered
  best_of-IsCovered first m zero best l h = subst (λ k. IsCovered first k best) (omega arith) h
  best_of-IsCovered first m (suc n) best l h =
      subst (λ k. IsCovered first k (best_of err (m + 1) n (improved best m (err m)))) (omega arith)
        (best_of-IsCovered first (m + 1) n (improved best m (err m)) (omega (arith, l))
          (improved-IsCovered first m best (err m) l refl h))
