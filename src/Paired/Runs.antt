-- ===== src/Paired/Runs.antt =====
-- The loop over the workloads: nothing is overwritten, and a successful run is complete and is not
-- repeated.
use Prim.Native.String.{String}
use text.Mathlib.Text.{◌==◌ as str_eq}
use text.Mathlib.TextEquality.{eq_iff}
use memory_tiering.Prelude.{
  ◌≡◌, refl, inl, inr, List, [], ◌∷◌, Bool, true, false, Option, none, some, not, ◌||◌,
  if◌then◌else◌, Bool-cases, Option-cases,
}
use memory_tiering.Paired.{Args, unsupported, Env, normalise, check_args}
use memory_tiering.Paired.Store.{
  Manifest, complete, metadata, reusable, Outcome, Store, save, Run, exited, usage,
  overwrite_refused, exception, Action, skip, refuse, stop, go_on, decide, supported, run_workloads,
  run_paired,
}

abbrev pub store_of : Run → Store
store_of (exited b s) = s
store_of (usage e s) = s
store_of (overwrite_refused s) = s
store_of (exception s) = s

-- Only a workload without a manifest writes one.
abbrev Writes : Action → Type 0
Writes skip = ⊥
Writes refuse = ⊥
Writes (stop m) = Unit
Writes (go_on m ok) = Unit

decide-Writes :
    (m : Manifest) (o : Option Manifest) (r : Outcome) → Writes (decide m o r) → o ≡ none
unfolding decide
decide-Writes m none r w = refl
decide-Writes m (some old) r w = absurd (no_write (reusable old m) w)
  where
    no_write : (b : Bool) → Writes (if b then skip else refuse) → ⊥
    no_write true w = w
    no_write false w = w

save-kept :
    (s : Store) (name n : String) (m old : Manifest)
    → s n ≡ some old
    → s name ≡ none
    → save s name m n ≡ some old
unfolding save
save-kept s name n m old h k = elim (Bool-cases (str_eq n name)) [
  | inl q ↦ absurd (clash ((eq_iff n name).0 q))
  | inr q ↦ rw q h
]
  where
    clash : n ≡ name → ⊥
    clash q = cc

module _ (a : Args) (e : Env) (outcome : String → Outcome) where
  abbrev turn : String → Store → Action
  turn name s = decide (metadata a e name) (s name) (outcome name)

  -- What the rest of the loop is after a turn.
  after : Action → String → List String → Store → Bool → Run
  after skip name names s failures = run_workloads a e outcome names s failures
  after refuse name names s failures = overwrite_refused s
  after (stop m) name names s failures = exception (save s name m)
  after (go_on m ok) name names s failures =
      run_workloads a e outcome names (save s name m) (failures || not ok)

  run_workloads_step :
      (name : String) (names : List String) (s : Store) (failures : Bool)
      → run_workloads a e outcome (name ∷ names) s failures ≡ (
          if supported name then after (turn name s) name names s failures else usage unsupported s)
  unfolding run_workloads
  run_workloads_step name names s failures = elim (Bool-cases (supported name)) [
    | inl u ↦ rw (u, run_workloads) (go (turn name s))
    | inr u ↦ rw (u, run_workloads)
  ]
    where
      go :
          (act : Action)
          → elim act [
            | skip ↦ run_workloads a e outcome names s failures
            | refuse ↦ overwrite_refused s
            | stop m ↦ exception (save s name m)
            | go_on m ok ↦ run_workloads a e outcome names (save s name m) (failures || not ok)
          ]
            ≡ after act name names s failures
      go skip = unfold after in refl
      go refuse = unfold after in refl
      go (stop m) = unfold after in refl
      go (go_on m ok) = unfold after in refl

  run_workloads-keeps :
      (names : List String) (s : Store) (failures : Bool) (n : String) (old : Manifest)
      → s n ≡ some old
      → store_of (run_workloads a e outcome names s failures) n ≡ some old
  run_workloads-keeps [] s failures n old h = unfold run_workloads in h
  run_workloads-keeps (name ∷ names) s failures n old h =
      rw (run_workloads_step name names s failures) (elim (Bool-cases (supported name)) [
        | inr u ↦ rw u h
        | inl u ↦ rw u (
            go (turn name s) refl (λ m b. run_workloads-keeps names (save s name m) b n old)
              (run_workloads-keeps names s failures n old))
      ])
    where
      go :
          (act : Action)
          → turn name s ≡ act
          → ((m : Manifest) (b : Bool)
              → save s name m n ≡ some old
              → store_of (run_workloads a e outcome names (save s name m) b) n ≡ some old)
          → (s n ≡ some old → store_of (run_workloads a e outcome names s failures) n ≡ some old)
          → store_of (after act name names s failures) n ≡ some old
      go skip d ran skipped = unfold after in skipped h
      go refuse d ran skipped = unfold after in h
      go (stop m) d ran skipped =
          unfold after in
          save-kept s name n m old h
            (decide-Writes (metadata a e name) (s name) (outcome name) (rw d tt))
      go (go_on m ok) d ran skipped =
          unfold after in
          ran m (failures || not ok) (
            save-kept s name n m old h
              (decide-Writes (metadata a e name) (s name) (outcome name) (rw d tt)))

  -- A workload whose run is finished: its manifest is complete, and otherwise that with which a run
  -- of these options starts.
  abbrev pub Done : Store → String → Type 0
  Done s name =
      (supported name ≡ true) × (s name ≡ some (record (metadata a e name) { status = complete }))

module _ (given : Args) (e : Env) (outcome : String → Outcome) (names : List String)
    (s : Store) where
  -- Whatever the options, the processes and the result, a manifest that was there before a run is
  -- there after it unchanged: no earlier result is overwritten.
  pub run_paired-keeps :
      (name : String) (old : Manifest)
      → s name ≡ some old
      → store_of (run_paired given e outcome names s) name ≡ some old
  unfolding run_paired
  run_paired-keeps name old h = elim (Option-cases (check_args (normalise given))) [
    | inl c ↦
        rw (c, run_paired)
          (run_workloads-keeps (normalise given) e outcome names s false name old h)
    | inr (x, c) ↦ rw (c, run_paired) h
  ]
