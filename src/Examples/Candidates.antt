-- ===== src/Examples/Candidates.antt =====
-- A candidate build that passes with two repetitions.
use memory_tiering.Prelude.{◌≡◌, refl, [], ◌∷◌, true, All, all, any}
use memory_tiering.Validation.{
  exited, World, Args, validate, passed, run_fixture, bounded, outputs_eq,
}
use memory_tiering.Validation.Laws.{Agrees, all_builds, validate-Agrees}

abbrev build : World
build = record {
  fixture = λ clock name. exited 0;
  outputs = λ clock name. record { epochs = clock; paired = "pairs" };
  guard = exited 0;
  guard_diagnostic = true;
  scaling = λ repeat threads name. exited 0;
  audit = λ repeat threads name. true;
}

abbrev arguments : Args
arguments = record { timeout_s = 90; scale = 12; repeats = 2; threads = 1 ∷ 20 ∷ [] }

build_passes : validate arguments build ≡ passed
unfolding validate run_fixture bounded outputs_eq all any
build_passes = refl

validate-Agrees_example :
    All (Agrees build "traffic" (build.outputs "traffic" "baseline")) all_builds
    × All (Agrees build "references" (build.outputs "references" "baseline")) all_builds
validate-Agrees_example = validate-Agrees arguments build build_passes
