-- ===== src/Recompute/Tally/Laws.antt =====
-- What the loop adds to its counts, and what every window that it passes satisfies.
use memory_tiering.Prelude.{
  ℕ, ◌+◌, ◌≡◌, ◌⊎◌, inl, inr, refl, List, [], ◌∷◌, ◌++◌, true, Option, some, none, map, ◌==◌,
  length, length-append, sum_by, sum_by-append, count_if, any, all, All, Bool-cases, arith,
}
use memory_tiering.Numpy.{Numpy}
use memory_tiering.Trace.{Record, accesses, popcount64}
use memory_tiering.Trace.Load.{saturates}
use memory_tiering.Recompute.Windows.Contents.{joined}
use memory_tiering.Recompute.Checks.{Failure, nonzero_words, word_sum, window_failure}
use memory_tiering.Recompute.Tally.{
  Tally, bincount, add_rows, add_window, Counted, counted, failed, run_windows,
}

-- A window that passes: no page twice, every mask agrees with the word counters, and so do the
-- accesses unless a counter is saturated.
pub record IsSound (np : Numpy) (w : List Record) : Type 0 where
  pub distinct : length (np.unique (map (λ r. r.page) w)) ≡ length w
  pub masks : All (λ r. popcount64 np r.mask ≡ nonzero_words r) w
  pub words : (any saturates w ≡ true) ⊎ All (λ r. word_sum r ≡ accesses r) w

all-All :
    (f g : Record → ℕ) (w : List Record) → all (λ r. f r == g r) w ≡ true → All (λ r. f r ≡ g r) w
unfolding all
all-All f g [] h = tt
all-All f g (r ∷ w) h = (ground (arith, h), all-All f g w (ground (arith, h)))

window_failure-IsSound : (np : Numpy) (w : List Record) → window_failure np w ≡ none → IsSound np w
unfolding window_failure
window_failure-IsSound np w h = record {
  distinct = ground (arith, h);
  masks = all-All (λ r. popcount64 np r.mask) nonzero_words w (ground (arith, h));
  words = elim (Bool-cases (any saturates w)) [
    | inl e ↦ inl e
    | inr e ↦ inr (all-All word_sum accesses w (ground (arith, h, e)))
  ];
}

-- What the loop has added after some windows.
pub record Adds (np : Numpy) (ws : List (List Record)) (t u : Tally) : Type 0 where
  pub observed : u.observed ≡ t.observed + length (joined ws)
  pub events : u.events ≡ t.events + sum_by accesses (joined ws)
  pub count : u.count ≡ t.count + length ws
  pub histogram : (k : ℕ) → u.histogram k ≡ t.histogram k + bincount np (joined ws) k
  pub sound : All (IsSound np) ws

bincount-append :
    (np : Numpy) (xs ys : List Record) (k : ℕ)
    → bincount np (xs ++ ys) k ≡ bincount np xs k + bincount np ys k
unfolding bincount count_if
bincount-append np [] ys k = omega arith
bincount-append np (x ∷ xs) ys k = omega (arith, bincount-append np xs ys k)

-- One window with its effect on the counts.
record AddsOne (np : Numpy) (w : List Record) (t u : Tally) : Type 0 where
  observed : u.observed ≡ t.observed + length w
  events : u.events ≡ t.events + sum_by accesses w
  count : u.count ≡ t.count + 1
  histogram : (k : ℕ) → u.histogram k ≡ t.histogram k + bincount np w k

add_rows-AddsOne :
    (np : Numpy) (w : List Record) (prev : Option (List Record)) (t u : Tally)
    → AddsOne np w t u
    → AddsOne np w t (add_rows np w prev u)
unfolding add_rows
add_rows-AddsOne np w none t u h = record {
  observed = h.observed;
  events = h.events;
  count = h.count;
  histogram = h.histogram;
}
add_rows-AddsOne np w (some b) t u h = record {
  observed = h.observed;
  events = h.events;
  count = h.count;
  histogram = h.histogram;
}

add_window-AddsOne : (np : Numpy) (w : List Record) (t : Tally) → AddsOne np w t (add_window np w t)
unfolding add_window
add_window-AddsOne np w t =
    add_rows-AddsOne np w (t.prev) t _
      (record { observed = refl; events = refl; count = refl; histogram = λ k. refl })

AddsOne-Adds :
    (np : Numpy) (w : List Record) (ws : List (List Record)) (t u v : Tally)
    → IsSound np w
    → AddsOne np w t u
    → Adds np ws u v
    → Adds np (w ∷ ws) t v
unfolding joined
AddsOne-Adds np w ws t u v s h a = record {
  observed = omega (arith, h.observed, a.observed, length-append w (joined ws));
  events = omega (arith, h.events, a.events, sum_by-append accesses w (joined ws));
  count = omega (arith, h.count, a.count);
  histogram = λ k. omega (arith, h.histogram k, a.histogram k, bincount-append np w (joined ws) k);
  sound = (s, a.sound);
}

passed :
    (c : Option Failure) (r : Counted) (u : Tally)
    → elim c [ none ↦ r | some e ↦ failed e ] ≡ counted u
    → (c ≡ none) × (r ≡ counted u)
passed none r u h = (refl, h)
passed (some e) r u h = absurd (ground arith)

pub run_windows-Adds :
    (np : Numpy) (ws : List (List Record)) (t u : Tally)
    → run_windows np ws t ≡ counted u
    → Adds np ws t u
unfolding run_windows joined sum_by bincount count_if
run_windows-Adds np [] t u h =
    let same : u ≡ t = cc in
    rw same (record {
      observed = omega arith;
      events = omega arith;
      count = omega arith;
      histogram = λ k. omega arith;
      sound = tt;
    })
run_windows-Adds np (w ∷ ws) t u h =
    let p = passed (window_failure np w) (run_windows np ws (add_window np w t)) u h in
    AddsOne-Adds np w ws t (add_window np w t) u (window_failure-IsSound np w p.0)
      (add_window-AddsOne np w t) (run_windows-Adds np ws (add_window np w t) u p.1)
