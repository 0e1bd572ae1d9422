-- ===== src/Campaign/Fidelity/Laws.antt =====
-- When the fidelity campaign reports completion, and what a restart repeats.
use Prim.Native.String.{String}
use memory_tiering.Prelude.{
  ◌≡◌, refl, ap, inl, inr, true, false, Option, none, some, ◌&&◌, All, Bool-cases, arith,
}
use text.Mathlib.TextPositions.{eq_refl}
use memory_tiering.Campaign.{
  Turn, pass, next, halt, Ended, finished, halted, run_jobs, run_jobs-finished, run_jobs-halted,
  DistinctJobs,
}
use memory_tiering.Campaign.Fidelity.{
  Job, jobs, complete, interrupted, failed, Row, Result, succeeded, nonzero_exit,
  incomplete_manifest, keyboard_interrupt, World, is_complete, has_digest, launched, settle, turn,
  close, campaign,
}

jobs-Distinct : (turn : Job → Row → Turn Row) → DistinctJobs (λ (j : Job). j.job) turn jobs
unfolding jobs
jobs-Distinct turn = ground arith

-- A job that was run to its end with this tool.
pub record IsDone (w : World) (r : Row) : Type 0 where
  pub is_complete_row : is_complete r.status ≡ true
  pub same_tool : has_digest w r.tool_sha ≡ true

settle-IsDone :
    (w : World) (row r : Row) (name : Option String) (result : Result)
    → has_digest w row.tool_sha ≡ true
    → settle row name result ≡ next r
    → IsDone w r
unfolding settle is_complete
settle-IsDone w row r name succeeded h e = done (cc)
  where
    done : record row { status = complete } ≡ r → IsDone w r
    done p = rw (← p) (record { is_complete_row = refl; same_tool = h })
settle-IsDone w row r none incomplete_manifest h e = done (cc)
  where
    done : record row { status = complete } ≡ r → IsDone w r
    done p = rw (← p) (record { is_complete_row = refl; same_tool = h })
settle-IsDone w row r (some n) incomplete_manifest h e = absurd (cc)
settle-IsDone w row r name nonzero_exit h e = absurd (cc)
settle-IsDone w row r name keyboard_interrupt h e = absurd (cc)

launched-has_digest :
    (w : World) (j : Job) (row : Row) (name : Option String)
    → has_digest w (launched w j row name).tool_sha ≡ true
unfolding has_digest launched
launched-has_digest w j row none = eq_refl w.digest
launched-has_digest w j row (some n) = eq_refl w.digest

turn_pass-IsDone : (w : World) (j : Job) (row : Row) → turn w j row ≡ pass → IsDone w row
unfolding settle turn
turn_pass-IsDone w j row e =
    elim (Bool-cases (is_complete row.status && has_digest w row.tool_sha)) [
      | inl b ↦ record { is_complete_row = ground arith; same_tool = ground arith }
      | inr b ↦ absurd (no_pass (launched w j row j.name) j.name (w.result j) (rw (turn, b) at e))
    ]
  where
    no_pass : (r : Row) (name : Option String) (result : Result) → ¬ (settle r name result ≡ pass)
    no_pass r name succeeded p = cc
    no_pass r none incomplete_manifest p = cc
    no_pass r (some n) incomplete_manifest p = cc
    no_pass r name nonzero_exit p = cc
    no_pass r name keyboard_interrupt p = cc

turn_next-IsDone : (w : World) (j : Job) (row r : Row) → turn w j row ≡ next r → IsDone w r
unfolding turn
turn_next-IsDone w j row r e =
    elim (Bool-cases (is_complete row.status && has_digest w row.tool_sha)) [
      | inl b ↦ absurd (no_next (rw (turn, b) at e))
      | inr b ↦
          settle-IsDone w (launched w j row j.name) r j.name (w.result j)
            (launched-has_digest w j row j.name) (rw (turn, b) at e)
    ]
  where
    no_next : ¬ (pass ≡ next r)
    no_next p = cc

settle-halt :
    (row r : Row) (name : Option String) (result : Result)
    → settle row name result ≡ halt r
    → is_complete r.status ≡ false
unfolding settle is_complete
settle-halt row r name succeeded h = absurd (cc)
settle-halt row r none incomplete_manifest h = absurd (cc)
settle-halt row r (some n) incomplete_manifest h = stopped (cc)
  where
    stopped : record row { status = failed } ≡ r → is_complete r.status ≡ false
    stopped p = rw (← p) refl
settle-halt row r name nonzero_exit h = stopped (cc)
  where
    stopped : record row { status = failed } ≡ r → is_complete r.status ≡ false
    stopped p = rw (← p) refl
settle-halt row r name keyboard_interrupt h = stopped (cc)
  where
    stopped : record row { status = interrupted } ≡ r → is_complete r.status ≡ false
    stopped p = rw (← p) refl

turn-halt :
    (w : World) (j : Job) (row r : Row) → turn w j row ≡ halt r → is_complete r.status ≡ false
unfolding turn
turn-halt w j row r e = elim (Bool-cases (is_complete row.status && has_digest w row.tool_sha)) [
  | inl b ↦ absurd (no_halt (rw (turn, b) at e))
  | inr b ↦ settle-halt (launched w j row j.name) r j.name (w.result j) (rw (turn, b) at e)
]
  where
    no_halt : ¬ (pass ≡ halt r)
    no_halt p = cc

-- When the campaign ends with status `complete`, every declared job has a complete row with the
-- digest of the tool of this campaign, whatever rows an earlier campaign left.
pub campaign-complete :
    (w : World) (rows : String → Row)
    → (campaign w rows).status ≡ complete
    → All (λ j. IsDone w ((campaign w rows).rows j.job)) jobs
unfolding campaign close is_complete
campaign-complete w rows h = ended (run_jobs (λ (j : Job). j.job) (turn w) jobs rows) refl h
  where
    ended :
        (e : Ended Row)
        → run_jobs (λ (j : Job). j.job) (turn w) jobs rows ≡ e
        → (close w e).status ≡ complete
        → All (λ j. IsDone w ((close w e).rows j.job)) jobs
    ended (finished end) p q =
        run_jobs-finished (λ (j : Job). j.job) (turn w) (λ j r. IsDone w r) (turn_pass-IsDone w)
          (turn_next-IsDone w) jobs rows end (jobs-Distinct (turn w)) p
    ended (halted k end) p q = absurd (
        clash
          (run_jobs-halted (λ (j : Job). j.job) (turn w) (λ r. is_complete r.status ≡ false)
            (turn-halt w) jobs rows end k p)
          (ap is_complete q))
      where
        clash : is_complete (end k).status ≡ false → is_complete (end k).status ≡ true → ⊥
        clash u v = cc
