-- ===== src/Campaign/Attempts.antt =====
-- The search for an unused attempt directory, `attempt=1; while exists(attempt): attempt+=1`, over
-- the numbers that are taken. The largest of them bounds the rounds.
use memory_tiering.Prelude.{
  ℕ, zero, suc, ◌+◌, ◌≤◌, ◌<◌, ◌≡◌, refl, max, inl, inr, List, [], ◌∷◌, Bool, true, false, contains,
  ◌==◌, if◌then◌else◌, Bool-cases, arith,
}

unfoldable pub max_of : List ℕ → ℕ
max_of [] = 0
max_of (n ∷ ns) = max n (max_of ns)

unfoldable pub first_free : List ℕ → ℕ → ℕ → ℕ
first_free taken zero attempt = attempt
first_free taken (suc fuel) attempt =
    let later = first_free taken fuel (attempt + 1) in
    if contains taken attempt then later else attempt

unfoldable pub next_attempt : List ℕ → ℕ
unfolding max_of first_free
next_attempt taken = first_free taken (max_of taken) 1

contains-le_max : (ns : List ℕ) (a : ℕ) → contains ns a ≡ true → a ≤ max_of ns
unfolding contains max_of
contains-le_max [] a h = absurd (cc)
contains-le_max (n ∷ ns) a h = ground (arith, contains-le_max ns a)

first_free_lem :
    (taken : List ℕ) (fuel attempt : ℕ)
    → max_of taken < attempt + fuel
    → (contains taken (first_free taken fuel attempt) ≡ false)
      × (attempt ≤ first_free taken fuel attempt)
      × ((k : ℕ) → attempt ≤ k → k < first_free taken fuel attempt → contains taken k ≡ true)
unfolding first_free
first_free_lem taken zero attempt h = (
  absent (contains taken attempt) (contains-le_max taken attempt),
  omega arith,
  λ k p q. absurd (omega arith),
)
  where
    absent : (b : Bool) → (b ≡ true → attempt ≤ max_of taken) → b ≡ false
    absent true f = let le = f refl in absurd (omega arith)
    absent false f = refl
first_free_lem taken (suc fuel) attempt h = elim (Bool-cases (contains taken attempt)) [
  | inr e ↦ rw e (e, omega arith, λ k p q. absurd (omega arith))
  | inl e ↦
      let (free, le, least) = first_free_lem taken fuel (attempt + 1) (omega arith) in
      rw e (free, omega arith, λ k p q. below k p q e least)
]
  where
    below :
        (k : ℕ)
        → attempt ≤ k
        → k < first_free taken fuel (attempt + 1)
        → contains taken attempt ≡ true
        → ((k : ℕ)
            → attempt + 1 ≤ k
            → k < first_free taken fuel (attempt + 1)
            → contains taken k ≡ true)
        → contains taken k ≡ true
    below k p q e least = elim (Bool-cases (k == attempt)) [
      | inl s ↦ let here : k ≡ attempt = ground arith in rw here e
      | inr s ↦ least k (ground arith) q
    ]

-- The search ends: the attempt chosen is not taken, and every smaller one from 1 on is.
pub next_attempt-free :
    (taken : List ℕ)
    → (contains taken (next_attempt taken) ≡ false)
      × (1 ≤ next_attempt taken)
      × ((k : ℕ) → 1 ≤ k → k < next_attempt taken → contains taken k ≡ true)
unfolding next_attempt
next_attempt-free taken = first_free_lem taken (max_of taken) 1 (omega arith)
