-- ===== src/Campaign.antt =====
-- The loop that the campaigns of experiments/ share: jobs in a fixed order, a row of state for each,
-- and a turn that passes a job over, finishes it, or ends the campaign with an exception.
pub mod Attempts
pub mod Fidelity
pub mod Handover
pub mod Revalidation
pub mod Stage2
use Prim.Native.String.{String}
use text.Mathlib.Text.{◌==◌ as str_eq}
use text.Mathlib.TextEquality.{eq_iff}
use text.Mathlib.TextPositions.{eq_refl}
use memory_tiering.Prelude.{
  ℕ, ◌≡◌, ◌⊎◌, refl, sym, ap, ◌∙◌, inl, inr, List, [], ◌∷◌, ◌++◌, Bool, true, false, if◌then◌else◌,
  All, All-weaken, Sorted, Bool-cases, arith,
}

pub data Turn (Row : Type 0) : Type 0 where
  pass : Turn Row
  next : Row → Turn Row
  halt : Row → Turn Row

pub data Ended (Row : Type 0) : Type 0 where
  finished : (String → Row) → Ended Row
  halted : String → (String → Row) → Ended Row

module _ {Row : Type 0} where
  unfoldable pub put : (String → Row) → String → Row → String → Row
  put rows key r = λ k. if str_eq k key then r else rows k

  pub put_self : (rows : String → Row) (key : String) (r : Row) → put rows key r key ≡ r
  unfolding put
  put_self rows key r = rw (eq_refl key)

  pub put_ne :
      (rows : String → Row) (key k : String) (r : Row)
      → str_eq k key ≡ false
      → put rows key r k ≡ rows k
  unfolding put
  put_ne rows key k r h = rw h

module _ {Job Row : Type 0} (key : Job → String) (turn : Job → Row → Turn Row) where
  unfoldable pub run_jobs : List Job → (String → Row) → Ended Row
  run_jobs [] rows = finished rows
  run_jobs (j ∷ js) rows = elim (turn j (rows (key j))) [
    | pass ↦ run_jobs js rows
    | next r ↦ run_jobs js (put rows (key j) r)
    | halt r ↦ halted (key j) (put rows (key j) r)
  ]

  -- No two jobs share a name.
  abbrev pub DistinctJobs : List Job → Type 0
  DistinctJobs = Sorted (λ a b. str_eq (key a) (key b) ≡ false)

  abbrev pub rows_of : Ended Row → String → Row
  rows_of (finished rows) = rows
  rows_of (halted k rows) = rows

  -- A row whose name no job has is left alone.
  pub run_jobs-other :
      (js : List Job) (rows : String → Row) (k : String)
      → All (λ b. str_eq k (key b) ≡ false) js
      → rows_of (run_jobs js rows) k ≡ rows k
  unfolding run_jobs
  run_jobs-other [] rows k h = refl
  run_jobs-other (j ∷ js) rows k h =
      go (turn j (rows (key j))) (run_jobs-other js rows k h.1)
        (λ r. run_jobs-other js (put rows (key j) r) k h.1)
    where
      go :
          (t : Turn Row)
          → rows_of (run_jobs js rows) k ≡ rows k
          → ((r : Row) → rows_of (run_jobs js (put rows (key j) r)) k ≡ put rows (key j) r k)
          → rows_of
              (elim t [
                | pass ↦ run_jobs js rows
                | next r ↦ run_jobs js (put rows (key j) r)
                | halt r ↦ halted (key j) (put rows (key j) r)
              ])
              k
            ≡ rows k
      go pass p q = p
      go (next r) p q = rw (q r) (put_ne rows (key j) k r h.0)
      go (halt r) p q = put_ne rows (key j) k r h.0

  -- A campaign that finishes leaves every job as a pass or a completed turn does.
  pub run_jobs-finished :
      (Q : Job → Row → Type 0)
      → ((j : Job) (r : Row) → turn j r ≡ pass → Q j r)
      → ((j : Job) (r r' : Row) → turn j r ≡ next r' → Q j r')
      → (js : List Job) (rows end : String → Row) → DistinctJobs js
      → run_jobs js rows ≡ finished end
      → All (λ j. Q j (end (key j))) js
  unfolding run_jobs
  run_jobs-finished Q passed done [] rows end d h = tt
  run_jobs-finished Q passed done (j ∷ js) rows end d h =
      go (turn j (rows (key j))) refl
        (λ rows' k. run_jobs-finished Q passed done js rows' end d.1 k) h
    where
      kept :
          (rows' : String → Row)
          → run_jobs js rows' ≡ finished end
          → Q j (rows' (key j))
          → Q j (end (key j))
      kept rows' k q = rw (← agree) q
        where
          agree : rows' (key j) ≡ end (key j)
          agree = sym (run_jobs-other js rows' (key j) d.0) ∙ ap (λ e. rows_of e (key j)) k

      go :
          (t : Turn Row)
          → turn j (rows (key j)) ≡ t
          → ((rows' : String → Row)
              → run_jobs js rows' ≡ finished end
              → All (λ j. Q j (end (key j))) js)
          → elim t [
            | pass ↦ run_jobs js rows
            | next r ↦ run_jobs js (put rows (key j) r)
            | halt r ↦ halted (key j) (put rows (key j) r)
          ]
            ≡ finished end
          → All (λ j. Q j (end (key j))) (j ∷ js)
      go pass e ih h = (kept rows h (passed j (rows (key j)) e), ih rows h)
      go (next r) e ih h = (
        kept (put rows (key j) r) h (rw (put_self rows (key j) r) (done j (rows (key j)) r e)),
        ih (put rows (key j) r) h,
      )
      go (halt r) e ih h = absurd (cc)

  -- A campaign that an exception ends has the row of the turn that raised it.
  pub run_jobs-halted :
      (Q : Row → Type 0)
      → ((j : Job) (r r' : Row) → turn j r ≡ halt r' → Q r')
      → (js : List Job) (rows end : String → Row) (k : String) → run_jobs js rows ≡ halted k end
      → Q (end k)
  unfolding run_jobs
  run_jobs-halted Q stops [] rows end k h = absurd (cc)
  run_jobs-halted Q stops (j ∷ js) rows end k h =
      go (turn j (rows (key j))) refl (λ rows' p. run_jobs-halted Q stops js rows' end k p) h
    where
      go :
          (t : Turn Row)
          → turn j (rows (key j)) ≡ t
          → ((rows' : String → Row) → run_jobs js rows' ≡ halted k end → Q (end k))
          → elim t [
            | pass ↦ run_jobs js rows
            | next r ↦ run_jobs js (put rows (key j) r)
            | halt r ↦ halted (key j) (put rows (key j) r)
          ]
            ≡ halted k end
          → Q (end k)
      go pass e ih h = ih rows h
      go (next r) e ih h = ih (put rows (key j) r) h
      go (halt r) e ih h = here (stopped_row (ap stopped h)) (stops j (rows (key j)) r e)
        where
          stopped : Ended Row → String × (String → Row)
          stopped (finished rows) = (k, rows)
          stopped (halted n rows) = (n, rows)

          stopped_row :
              stopped (halted (key j) (put rows (key j) r)) ≡ stopped (halted k end)
              → put rows (key j) r (key j) ≡ end k
          stopped_row p = ap (λ q. q.1 q.0) p

          here : put rows (key j) r (key j) ≡ end k → Q r → Q (end k)
          here p q = rw (← p, put_self rows (key j) r) q

  -- A row stays as it was if every job of its name is passed over.
  pub run_jobs-passed :
      (js : List Job) (rows : String → Row) (k : String)
      → All (λ j. (str_eq k (key j) ≡ false) ⊎ ((r : Row) → turn j r ≡ pass)) js
      → rows_of (run_jobs js rows) k ≡ rows k
  unfolding run_jobs
  run_jobs-passed [] rows k h = refl
  run_jobs-passed (j ∷ js) rows k h =
      go (turn j (rows (key j))) refl h.0 (λ rows'. run_jobs-passed js rows' k h.1)
    where
      go :
          (t : Turn Row)
          → turn j (rows (key j)) ≡ t
          → (str_eq k (key j) ≡ false) ⊎ ((r : Row) → turn j r ≡ pass)
          → ((rows' : String → Row) → rows_of (run_jobs js rows') k ≡ rows' k)
          → rows_of
              (elim t [
                | pass ↦ run_jobs js rows
                | next r ↦ run_jobs js (put rows (key j) r)
                | halt r ↦ halted (key j) (put rows (key j) r)
              ])
              k
            ≡ rows k
      go pass e o ih = ih rows
      go (next r) e (inl n) ih = rw (ih (put rows (key j) r)) (put_ne rows (key j) k r n)
      go (next r) e (inr p) ih = absurd (clash (p (rows (key j))))
        where
          clash : turn j (rows (key j)) ≡ pass → ⊥
          clash q = cc
      go (halt r) e (inl n) ih = put_ne rows (key j) k r n
      go (halt r) e (inr p) ih = absurd (clash (p (rows (key j))))
        where
          clash : turn j (rows (key j)) ≡ pass → ⊥
          clash q = cc
