-- ===== src/Latency/Costs.antt =====
-- The cost of one window: between all accesses fast and all accesses slow, and less the more of
-- them are fast.
use native.Mathlib.Nat.{mul-le-mul_left}
use memory_tiering.Prelude.{ℕ, ◌+◌, ◌-◌, ◌*◌, ◌≤◌, ◌≡◌, arith}

-- The serial cost of `total` accesses of which `fast` are served by the fast tier.
abbrev pub serial : ℕ → ℕ → ℕ → ℕ → ℕ
serial total fast l_fast l_slow = fast * l_fast + (total - fast) * l_slow

pub serial-le :
    (total f g l_fast l_slow : ℕ)
    → f ≤ g
    → g ≤ total
    → l_fast ≤ l_slow
    → serial total g l_fast l_slow ≤ serial total f l_fast l_slow
serial-le total f g l_fast l_slow p q h =
    let d = g - f in
    let r = total - g in
    let fewer : d * l_fast ≤ d * l_slow = mul-le-mul_left d h in
    let split : (total - f) * l_slow ≡ d * l_slow + r * l_slow =
      add_mul_of (total - f) d r l_slow (omega arith) in
    let own : g * l_fast ≡ f * l_fast + d * l_fast = add_mul_of g f d l_fast (omega arith) in
    omega (arith, fewer, split, own)
  where
    add_mul_of : (a b c k : ℕ) → a ≡ b + c → a * k ≡ b * k + c * k
    add_mul_of a b c k e = rw e (omega arith)

pub serial_bounds :
    (total f l_fast l_slow : ℕ)
    → f ≤ total
    → l_fast ≤ l_slow
    → (total * l_fast ≤ serial total f l_fast l_slow)
      × (serial total f l_fast l_slow ≤ total * l_slow)
serial_bounds total f l_fast l_slow q h = (
  omega (arith, serial-le total f total l_fast l_slow q (omega arith) h, none_left total l_slow),
  omega (arith, serial-le total 0 f l_fast l_slow (omega arith) q h, all_left total l_slow),
)
  where
    none_left : (n k : ℕ) → (n - n) * k ≡ 0
    none_left n k = let e : n - n ≡ 0 = omega arith in rw e (omega arith)

    all_left : (n k : ℕ) → (n - 0) * k ≡ n * k
    all_left n k = let e : n - 0 ≡ n = omega arith in rw e
