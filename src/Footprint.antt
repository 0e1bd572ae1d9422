-- ===== src/Footprint.antt =====
-- benchmarks/prepare_tc_footprint.py: the choice of the triangle-counting input by its resident memory.
-- The tools that write and measure a graph are an argument; relative errors have the target as their
-- common denominator, so they are compared by their numerators.
pub mod Laws
use Prim.Native.String.{String}
use text.Mathlib.Text.{◌==◌ as str_eq}
use memory_tiering.Prelude.{
  ℕ, ◌+◌, ◌-◌, ◌*◌, ◌^◌, List, [], ◌∷◌, Bool, true, false, Option, none, some, if◌then◌else◌, ◌||◌,
  not, ltb, leb, ◌==◌, all,
}

-- The header and size of a serialized graph, and the peak of a native run in KiB.
pub record Graph : Type 0 where
  pub directed : Bool
  pub edges : ℕ
  pub nodes : ℕ
  pub size : ℕ
  pub peak_rss_kib : ℕ

pub record Trial : Type 0 where
  pub numerator : ℕ
  pub graph : Graph
  -- `abs(peak_rss_kib * 1024 - target)`
  pub deviation : ℕ

unfoldable pub target : ℕ
target = 5000000000

distance : ℕ → ℕ → ℕ
distance a b = (a - b) + (b - a)

unfoldable pub trial_of : ℕ → Graph → Trial
unfolding distance
trial_of n g = record {
  numerator = n;
  graph = g;
  deviation = distance (g.peak_rss_kib * 1024) target;
}

-- `delta <= .10`
unfoldable pub within_tolerance : Trial → Bool
within_tolerance t = leb (t.deviation * 10) target

unfoldable pub valid_size : Graph → Bool
valid_size g = if g.directed then false else g.size == 17 + 8 * (g.nodes + 1) + 4 * g.edges

add_trial : Trial → Option (List Trial) → Option (List Trial)
add_trial t none = none
add_trial t (some ts) = some (t ∷ ts)

-- The candidates, up to the first within the tolerance; `none` is the ValueError of a wrong size.
unfoldable pub trials : (ℕ → Graph) → List ℕ → Option (List Trial)
unfolding add_trial
trials graph [] = some []
trials graph (n ∷ ns) =
    let t = trial_of n (graph n) in
    let later = trials graph ns in
    if not (valid_size (graph n))
    then none
    else if within_tolerance t
    then some (t ∷ [])
    else add_trial t later

-- `min(trials, key=...)`: the first of the smallest.
unfoldable pub min_trial : Trial → List Trial → Trial
min_trial t [] = t
min_trial t (u ∷ us) =
    let with_u = min_trial u us in
    let with_t = min_trial t us in if ltb u.deviation t.deviation then with_u else with_t

pub record Selection : Type 0 where
  pub selected : Trial
  pub candidates : List Trial
  pub within_10_percent : Bool

pub data Prepared : Type 0 where
  kept input_changed no_space source_mismatch invalid_csr : Prepared
  prepared : Selection → Prepared

pub record World : Type 0 where
  -- An earlier selection: the recorded digest and that of its file.
  pub saved : Option (String × String)
  pub free : ℕ
  -- The recorded and the actual digests of the source's assets.
  pub assets : List (String × String)
  pub graph : ℕ → Graph

select : Option (List Trial) → Prepared
select none = invalid_csr
select (some []) = invalid_csr
select (some (t ∷ ts)) =
    let best = min_trial t ts in
    prepared
      (record { selected = best; candidates = t ∷ ts; within_10_percent = within_tolerance best })

prepare_new : World → Prepared
prepare_new w =
    if ltb w.free (100 * 1024 ^ 3)
    then no_space
    else if not (all (λ a. str_eq a.1 a.0) w.assets)
    then source_mismatch
    else select (trials w.graph (11 ∷ 10 ∷ 12 ∷ []))

unfoldable pub prepare_footprint : World → Prepared
unfolding prepare_new select
prepare_footprint w = elim (w.saved) [
  | some d ↦ if str_eq d.1 d.0 then kept else input_changed
  | none ↦ prepare_new w
]
