-- ===== src/Campaign/Revalidation/Laws.antt =====
-- What the end of a lane says about its jobs.
use Prim.Native.String.{String}
use text.Mathlib.TextEquality.{eq_iff}
use memory_tiering.Prelude.{
  ◌≡◌, ◌⊎◌, refl, ap, inl, inr, List, Bool, true, false, Option, none, some, if◌then◌else◌, not,
  ◌∙◌, sym, ◌&&◌, All, Bool-cases, arith,
}
use memory_tiering.Campaign.{
  Turn, pass, next, halt, Ended, finished, halted, run_jobs, run_jobs-finished, run_jobs-halted,
  DistinctJobs,
}
use memory_tiering.Campaign.Revalidation.{
  Job, jobs_of, Lane, pin, sim, Status, complete, failed, Row, World, Ran, ran, paused_run, error,
  keyboard_interrupt, is_complete, has_fingerprint, launched, attempt, settle, turn, close,
  run_lane, started, Checkpoint, launched_from, resumable, fresh,
}

jobs_of-Distinct :
    (l : Lane) (t : Job → Row → Turn Row) → DistinctJobs (λ (j : Job). j.job) t (jobs_of l)
unfolding jobs_of
jobs_of-Distinct pin t = ground arith
jobs_of-Distinct sim t = ground arith

-- The row of a job that has had its turn: it is of this binary, and complete or failed.
pub record IsSettled (w : World) (r : Row) : Type 0 where
  pub same_binary : r.binary_sha ≡ some w.fingerprint
  pub settled : (r.status ≡ complete) ⊎ (r.status ≡ failed)

launched-fingerprint :
    (w : World) (j : Job) (old : Row) → (launched w j old).binary_sha ≡ some w.fingerprint
unfolding launched
launched-fingerprint w j old = go (resumable w old)
  where
    go : (c : Option Checkpoint) → (launched_from w j old c).binary_sha ≡ some w.fingerprint
    go none = unfold launched_from fresh in refl
    go (some c) = unfold launched_from in refl

has_fingerprint-some :
    (w : World) (o : Option String) → has_fingerprint w o ≡ true → o ≡ some w.fingerprint
unfolding has_fingerprint
has_fingerprint-some w none h = absurd (cc)
has_fingerprint-some w (some s) h = ap (λ t. some t) ((eq_iff s w.fingerprint).0 h)

is_complete-complete : (s : Status) → is_complete s ≡ true → s ≡ complete
unfolding is_complete
is_complete-complete complete h = refl
is_complete-complete _ h = absurd (cc)

-- What a turn that is made does.
abbrev made : World → Job → Row → Turn Row
made w j old =
    if not (w.published_before j.job)
    then halt (started w)
    else settle (w.published_after j.job) (launched w j old) (attempt w j)

turn-cases :
    (w : World) (j : Job) (old : Row)
    → ((turn w j old ≡ pass)
        × ((is_complete old.status && has_fingerprint w old.binary_sha) ≡ true))
      ⊎ (turn w j old ≡ made w j old)
unfolding turn
turn-cases w j old =
    elim (Bool-cases (is_complete old.status && has_fingerprint w old.binary_sha)) [
      | inl b ↦ inl (rw b refl, b)
      | inr b ↦ inr (rw b refl)
    ]

settle-ne-pass : (b : Bool) (r : Row) (a : Ran) → ¬ (settle b r a ≡ pass)
unfolding settle
settle-ne-pass true r ran p = cc
settle-ne-pass false r ran p = cc
settle-ne-pass true r error p = cc
settle-ne-pass false r error p = cc
settle-ne-pass b r paused_run p = cc
settle-ne-pass b r keyboard_interrupt p = cc

turn_pass-IsSettled : (w : World) (j : Job) (old : Row) → turn w j old ≡ pass → IsSettled w old
turn_pass-IsSettled w j old e = elim (turn-cases w j old) [
  | inl (_, b) ↦ record {
    same_binary = has_fingerprint-some w old.binary_sha (ground arith);
    settled = inl (is_complete-complete old.status (ground arith));
  }
  | inr m ↦ elim (Bool-cases (w.published_before j.job)) [
    | inl p ↦ absurd (
        settle-ne-pass (w.published_after j.job) (launched w j old) (attempt w j)
          (rw p at (sym m ∙ e)))
    | inr p ↦ absurd (ground (arith, m, e, p))
  ]
]

settle-IsSettled :
    (w : World) (b : Bool) (row r : Row) (a : Ran)
    → row.binary_sha ≡ some w.fingerprint
    → settle b row a ≡ next r
    → IsSettled w r
unfolding settle
settle-IsSettled w true row r ran h e = done (cc)
  where
    done : record row { status = complete } ≡ r → IsSettled w r
    done p = rw (← p) (record { same_binary = h; settled = inl refl })
settle-IsSettled w true row r error h e = done (cc)
  where
    done : record row { status = failed } ≡ r → IsSettled w r
    done p = rw (← p) (record { same_binary = h; settled = inr refl })
settle-IsSettled w false row r ran h e = absurd (cc)
settle-IsSettled w false row r error h e = absurd (cc)
settle-IsSettled w b row r paused_run h e = absurd (cc)
settle-IsSettled w b row r keyboard_interrupt h e = absurd (cc)

turn_next-IsSettled : (w : World) (j : Job) (old r : Row) → turn w j old ≡ next r → IsSettled w r
turn_next-IsSettled w j old r e = elim (turn-cases w j old) [
  | inl (p, _) ↦ absurd (cc)
  | inr m ↦ elim (Bool-cases (w.published_before j.job)) [
    | inl p ↦
        settle-IsSettled w (w.published_after j.job) (launched w j old) r (attempt w j)
          (launched-fingerprint w j old) (rw p at (sym m ∙ e))
    | inr p ↦ absurd (ground (arith, m, e, p))
  ]
]

settle-halt :
    (row r : Row) (a : Ran)
    → settle true row a ≡ halt r
    → (a ≡ paused_run) ⊎ (a ≡ keyboard_interrupt)
unfolding settle
settle-halt row r ran p = absurd (cc)
settle-halt row r error p = absurd (cc)
settle-halt row r paused_run p = inl refl
settle-halt row r keyboard_interrupt p = inr refl

-- Where the results can be published, a turn stops the lane only for a pause or an interruption.
turn-halt :
    (w : World) (j : Job) (old r : Row)
    → w.published_before j.job ≡ true
    → w.published_after j.job ≡ true
    → turn w j old ≡ halt r
    → (attempt w j ≡ paused_run) ⊎ (attempt w j ≡ keyboard_interrupt)
turn-halt w j old r before after e = elim (turn-cases w j old) [
  | inl (p, _) ↦ absurd (cc)
  | inr m ↦ settle-halt (launched w j old) r (attempt w j) (rw (before, after) at (sym m ∙ e))
]

-- A lane that no pause, no interruption and no failed publication before or after a job stops gives
-- every declared job its turn, whichever jobs fail: each job's row is of this binary and complete or
-- failed, and no job is left as the current one.
pub run_lane-IsSettled :
    (w : World) (known : List String) (rows : String → Row)
    → ((j : Job) → ¬ (attempt w j ≡ paused_run))
    → ((j : Job) → ¬ (attempt w j ≡ keyboard_interrupt))
    → ((k : String) → w.published_before k ≡ true)
    → ((k : String) → w.published_after k ≡ true)
    → All (λ j. IsSettled w ((run_lane w known rows).rows j.job)) (jobs_of w.lane)
      × ((run_lane w known rows).current ≡ none)
unfolding run_lane close
run_lane-IsSettled w known rows p q before after =
    ended (run_jobs (λ (j : Job). j.job) (turn w) (jobs_of w.lane) rows) refl
  where
    no_stop : (j : Job) (old r : Row) → turn w j old ≡ halt r → ⊥
    no_stop j old r e = elim (turn-halt w j old r (before j.job) (after j.job) e) [
      | inl a ↦ p j a
      | inr a ↦ q j a
    ]

    ended :
        (e : Ended Row)
        → run_jobs (λ (j : Job). j.job) (turn w) (jobs_of w.lane) rows ≡ e
        → All (λ j. IsSettled w ((close w known (jobs_of w.lane) e).rows j.job)) (jobs_of w.lane)
          × ((close w known (jobs_of w.lane) e).current ≡ none)
    ended (finished end) h = (
      run_jobs-finished (λ (j : Job). j.job) (turn w) (λ j r. IsSettled w r) (turn_pass-IsSettled w)
          (turn_next-IsSettled w) (jobs_of w.lane) rows end (jobs_of-Distinct w.lane (turn w)) h,
      refl,
    )
    ended (halted k end) h = absurd (
        run_jobs-halted (λ (j : Job). j.job) (turn w) (λ r. ⊥) no_stop (jobs_of w.lane) rows end k
          h)
