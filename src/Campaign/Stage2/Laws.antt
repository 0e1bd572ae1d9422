-- ===== src/Campaign/Stage2/Laws.antt =====
-- The hold on multithreaded controls, and what a finished campaign says.
use Prim.Native.String.{String}
use text.Mathlib.Text.{◌==◌ as str_eq}
use memory_tiering.Prelude.{
  ◌≡◌, ◌⊎◌, refl, inl, inr, List, [], ◌∷◌, Bool, true, false, ◌||◌, all, All, Bool-cases, arith,
  not,
}
use memory_tiering.Campaign.{pass, Ended, finished, halted, rows_of, run_jobs, run_jobs-passed}
use memory_tiering.Campaign.Stage2.{
  Job, jobs, held_job, threads_above_one, Row, World, turn, close, campaign, is_complete,
}

held-pass :
    (w : World) (j : Job)
    → w.hold ≡ true
    → threads_above_one j.options ≡ true
    → (r : Row) → turn w j r ≡ pass
unfolding turn held_job
held-pass w j h t r = elim (Bool-cases (is_complete r.status)) [
  | inl c ↦ rw c refl
  | inr c ↦ rw (c, h, t) refl
]

all-All :
    {A : Type 0} {p : A → Bool} (P : A → Type 0)
    → ((x : A) → p x ≡ true → P x)
    → (xs : List A) → all p xs ≡ true
    → All P xs
unfolding all
all-All P f [] h = tt
all-All P f (x ∷ xs) h = (f x (ground arith), all-All P f xs (ground arith))

-- The controls that run with 20 threads.
abbrev pub multithreaded : List String
multithreaded =
    "threads20-bfs" ∷ "threads20-cc" ∷ "threads20-bc" ∷ "threads20-sssp" ∷ "footprint20-tc"
    ∷ "threads20-pr" ∷ "threads20-tc" ∷ []

-- A name that only jobs on hold have.
abbrev is_held : String → Bool
is_held key = all (λ j. not (str_eq key j.key) || threads_above_one j.options) jobs

multithreaded-is_held : all is_held multithreaded ≡ true
unfolding all jobs threads_above_one
multithreaded-is_held = refl

-- With the hold set, none of the seven declared controls with 20 threads is launched: its row stays as
-- the earlier state had it, whatever the other jobs do and however the campaign ends.
pub campaign-held :
    (w : World) (known : List String) (rows : String → Row)
    → w.hold ≡ true
    → All (λ key. (campaign w known rows).rows key ≡ rows key) multithreaded
unfolding campaign close
campaign-held w known rows h = all-All _ kept multithreaded multithreaded-is_held
  where
    passed :
        (key : String) (k : Job)
        → (not (str_eq key k.key) || threads_above_one k.options) ≡ true
        → (str_eq key k.key ≡ false) ⊎ ((r : Row) → turn w k r ≡ pass)
    passed key k e = elim (Bool-cases (str_eq key k.key)) [
      | inl s ↦ inr (held-pass w k h (ground arith))
      | inr s ↦ inl s
    ]

    closed :
        (e : Ended Row) (key : String)
        → rows_of (λ (j : Job). j.key) (turn w) e key ≡ rows key
        → (close known e).rows key ≡ rows key
    closed (finished end) key p = p
    closed (halted k end) key p = p

    kept : (key : String) → is_held key ≡ true → (campaign w known rows).rows key ≡ rows key
    kept key e = closed (run_jobs (λ (j : Job). j.key) (turn w) jobs rows) key (
        run_jobs-passed (λ (j : Job). j.key) (turn w) jobs rows key (all-All _ (passed key) jobs e))
