-- ===== src/Validation/Laws.antt =====
-- A candidate that passes agrees with the baseline.
use Prim.Native.String.{String}
use text.Mathlib.TextEquality.{eq_iff}
use memory_tiering.Prelude.{
  ◌≡◌, refl, ap, List, [], ◌∷◌, Bool, true, false, none, some, if◌then◌else◌, ◌&&◌, not, All, arith,
}
use memory_tiering.Validation.{
  Child, exited, over_time, bounded, Outputs, outputs_eq, World, configurations, is_complete,
  exact_match, first_of, run_fixture, Args, Verdict, passed, validate, usage, fixture_differs,
  guard_failed, scaling_incomplete, bad_args, guarded, scaling_passes,
}

abbrev pub all_builds : List String
all_builds =
    "baseline" ∷ "candidate-legacy" ∷ "local-bbl" ∷ "mutex" ∷ "mutex-local" ∷ "private-local"
    ∷ "mutex-private-local" ∷ []

-- A run of a case exits with 0 in time, and both its files are the ones given.
abbrev pub Agrees : World → String → Outputs → String → Type 0
Agrees w clock o name =
    (w.fixture clock name ≡ exited 0)
    × ((w.outputs clock name).epochs ≡ o.epochs)
    × ((w.outputs clock name).paired ≡ o.paired)

complete-exited : (c : Child) → is_complete (bounded c) ≡ true → c ≡ exited 0
unfolding bounded is_complete
complete-exited (exited code) h = let z : code ≡ 0 = ground arith in ap exited z
complete-exited over_time h = absurd (cc)

run-Agrees :
    (w : World) (clock name : String) (o : Outputs)
    → is_complete (bounded (w.fixture clock name)) ≡ true
    → outputs_eq (w.outputs clock name) o ≡ true
    → Agrees w clock o name
unfolding outputs_eq
run-Agrees w clock name o h k = (
  complete-exited (w.fixture clock name) h,
  (eq_iff (w.outputs clock name).epochs o.epochs).0 (ground (arith, k)),
  (eq_iff (w.outputs clock name).paired o.paired).0 (ground (arith, k)),
)

run_fixture-Agrees :
    (w : World) (clock : String) (o : Outputs) (names : List String)
    → run_fixture w clock (some o) names ≡ true
    → All (Agrees w clock o) names
unfolding run_fixture exact_match first_of
run_fixture-Agrees w clock o [] h = tt
run_fixture-Agrees w clock o (name ∷ names) h = (
  run-Agrees w clock name o (ground (arith, h)) (ground (arith, h)),
  run_fixture-Agrees w clock o names (ground (arith, h)),
)

clock-Agrees :
    (w : World) (clock : String)
    → run_fixture w clock none configurations ≡ true
    → All (Agrees w clock (w.outputs clock "baseline")) all_builds
unfolding run_fixture exact_match first_of
clock-Agrees w clock h = (
  (complete-exited (w.fixture clock "baseline") (ground (arith, h)), refl, refl),
  run_fixture-Agrees w clock (w.outputs clock "baseline")
      ("candidate-legacy" ∷ "local-bbl" ∷ "mutex" ∷ "mutex-local" ∷ "private-local"
        ∷ "mutex-private-local" ∷ [])
      (ground (arith, h)),
)

-- In a validation that passes each of the seven builds exited with 0 in time under both clocks, and
-- left the same two files as the baseline of that clock.
pub validate-Agrees :
    (a : Args) (w : World)
    → validate a w ≡ passed
    → All (Agrees w "traffic" (w.outputs "traffic" "baseline")) all_builds
      × All (Agrees w "references" (w.outputs "references" "baseline")) all_builds
unfolding validate
validate-Agrees a w h =
    go (bad_args a) (run_fixture w "traffic" none configurations)
      (run_fixture w "references" none configurations) refl refl h
  where
    rest : Verdict
    rest =
        if not (guarded w)
        then guard_failed
        else if scaling_passes w a.threads a.repeats
        then passed
        else scaling_incomplete

    go :
        (b t r : Bool)
        → run_fixture w "traffic" none configurations ≡ t
        → run_fixture w "references" none configurations ≡ r
        → (if b then usage else if not (t && r) then fixture_differs else rest) ≡ passed
        → All (Agrees w "traffic" (w.outputs "traffic" "baseline")) all_builds
          × All (Agrees w "references" (w.outputs "references" "baseline")) all_builds
    go true t r p q g = absurd (cc)
    go false false r p q g = absurd (cc)
    go false true false p q g = absurd (cc)
    go false true true p q g = (clock-Agrees w "traffic" p, clock-Agrees w "references" q)
