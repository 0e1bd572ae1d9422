-- ===== src/Recompute/Windows/Laws.antt =====
-- What the generator yields, however the file is cut into blocks.
use memory_tiering.Prelude.{
  ℕ, zero, suc, ◌+◌, ◌≤◌, ◌<◌, ◌≡◌, refl, sym, ap, ◌∙◌, inl, inr, List, [], ◌∷◌, ◌++◌, true, false,
  ◌==◌, if◌then◌else◌, length, take, drop, take-append-drop, length-append, All, All-append,
  Bool-cases, arith,
}
use mathlib.Core.List.{append_assoc, append-nil}
use memory_tiering.Trace.{Record}
use memory_tiering.Recompute.Windows.{
  RawFile, Stream, yields, cut, cut_all, last_window, reads_partial, read_blocks, epochs,
}

-- All records in one go.
unfoldable pub one_pass : List Record → Stream
one_pass recs = cut_all last_window 0 recs

-- A run that is being read: records of one epoch, and at least one.
unfoldable pub IsRun : List Record → ℕ → Type 0
IsRun run epoch = (1 ≤ length run) × All (λ r. r.epoch ≡ epoch) run

abbrev pub Rest : Type 0
Rest = ℕ → List Record → ℕ → Stream

pub IsRun-one : (r : Record) → IsRun (r ∷ []) r.epoch
unfolding IsRun
IsRun-one r = (omega arith, (refl, tt))

pub IsRun-snoc :
    (run : List Record) (epoch : ℕ) (r : Record)
    → r.epoch ≡ epoch
    → IsRun run epoch
    → IsRun (run ++ r ∷ []) epoch
unfolding IsRun
IsRun-snoc run epoch r e h = (
  omega (arith, h.0, length-append run (r ∷ [])),
  All-append (λ x. x.epoch ≡ epoch) run (r ∷ []) h.1 (e, tt),
)

-- Two ways to go on that agree at every run agree after a cut.
cut_agree :
    (f g : Rest)
    → ((next : ℕ) (run : List Record) (epoch : ℕ)
        → IsRun run epoch
        → f next run epoch ≡ g next run epoch)
    → (next : ℕ) (run : List Record) (epoch : ℕ) (rs : List Record) → IsRun run epoch
    → cut f next run epoch rs ≡ cut g next run epoch rs
unfolding cut
cut_agree f g h next run epoch [] i = h next run epoch i
cut_agree f g h next run epoch (r ∷ rs) i = elim (Bool-cases (r.epoch == epoch)) [
  | inl e ↦
      rw e (cut_agree f g h next (run ++ r ∷ []) epoch rs (IsRun-snoc run epoch r (ground arith) i))
  | inr e ↦ elim (Bool-cases (epoch == next)) [
    | inl d ↦
        rw (e, d) (ap (yields run) (cut_agree f g h (next + 1) (r ∷ []) r.epoch rs (IsRun-one r)))
    | inr d ↦ rw (e, d) refl
  ]
]

-- A cut of `xs ++ ys` cuts `xs` and goes on with `ys`.
cut-append :
    (f : Rest) (next : ℕ) (run : List Record) (epoch : ℕ) (xs ys : List Record)
    → cut f next run epoch (xs ++ ys)
      ≡ cut (λ next' run' epoch'. cut f next' run' epoch' ys) next run epoch xs
unfolding cut
cut-append f next run epoch [] ys = refl
cut-append f next run epoch (r ∷ xs) ys = elim (Bool-cases (r.epoch == epoch)) [
  | inl e ↦ rw e (cut-append f next (run ++ r ∷ []) epoch xs ys)
  | inr e ↦ elim (Bool-cases (epoch == next)) [
    | inl d ↦ rw (e, d) (ap (yields run) (cut-append f (next + 1) (r ∷ []) r.epoch xs ys))
    | inr d ↦ rw (e, d) refl
  ]
]

-- A run that is read again is read whole.
cut_run :
    (f : Rest) (next : ℕ) (done pending : List Record) (epoch : ℕ) (ys : List Record)
    → All (λ r. r.epoch ≡ epoch) pending
    → cut f next done epoch (pending ++ ys) ≡ cut f next (done ++ pending) epoch ys
unfolding cut
cut_run f next done [] epoch ys h = ap (λ d. cut f next d epoch ys) (sym (append-nil done))
cut_run f next done (r ∷ pending) epoch ys h =
    let e : (r.epoch == epoch) ≡ true = ground (arith, h.0) in
    rw e (
      cut_run f next (done ++ r ∷ []) pending epoch ys h.1
      ∙ ap (λ d. cut f next d epoch ys) (append_assoc done (r ∷ []) pending))

cut_all-run :
    (f : Rest) (next : ℕ) (pending : List Record) (epoch : ℕ) (ys : List Record)
    → IsRun pending epoch
    → cut_all f next (pending ++ ys) ≡ cut f next pending epoch ys
unfolding cut_all IsRun
cut_all-run f next [] epoch ys h = absurd (omega (arith, h.0))
cut_all-run f next (r ∷ pending) epoch ys h =
    ap (λ e. cut f next (r ∷ []) e (pending ++ ys)) h.1.0
    ∙ cut_run f next (r ∷ []) pending epoch ys h.1.1

cut_all_agree :
    (f g : Rest)
    → ((next : ℕ) (run : List Record) (epoch : ℕ)
        → IsRun run epoch
        → f next run epoch ≡ g next run epoch)
    → (next : ℕ) (rs : List Record) → cut_all f next rs ≡ cut_all g next rs
unfolding cut_all
cut_all_agree f g h next [] = refl
cut_all_agree f g h next (r ∷ rs) = cut_agree f g h next (r ∷ []) r.epoch rs (IsRun-one r)

cut_all-append :
    (f : Rest) (next : ℕ) (xs ys : List Record)
    → 1 ≤ length xs
    → cut_all f next (xs ++ ys) ≡ cut_all (λ next' run' epoch'. cut f next' run' epoch' ys) next xs
unfolding cut_all
cut_all-append f next [] ys h = absurd (omega (arith, h))
cut_all-append f next (x ∷ xs) ys h = cut-append f next (x ∷ []) x.epoch xs ys

reads_partial_none : (n : ℕ) (rest : List Record) → reads_partial 0 n rest ≡ false
unfolding reads_partial
reads_partial_none n rest = ground arith

-- Reading on from a block of at least one record is reading all of it in one go.
read_more :
    (fuel n next : ℕ) (pending block more : List Record)
    → 1 ≤ length block
    → ((next' : ℕ) (run : List Record)
        → read_blocks fuel n 0 next' run more ≡ cut_all last_window next' (run ++ more))
    → cut_all
        (λ next' run epoch.
          if length block == 0
          then last_window next' run epoch
          else read_blocks fuel n 0 next' run more)
        next
        (pending ++ block)
      ≡ cut_all last_window next (pending ++ (block ++ more))
read_more fuel n next pending block more h step =
    let e : (length block == 0) ≡ false = ground (arith, h) in
    rw e (
      cut_all_agree (λ next' run epoch. read_blocks fuel n 0 next' run more)
        (λ next' run epoch. cut last_window next' run epoch more)
        (λ next' run epoch i. step next' run ∙ cut_all-run last_window next' run epoch more i) next
        (pending ++ block)
      ∙ sym (
          cut_all-append last_window next (pending ++ block) more
            (omega (arith, h, length-append pending block)))
      ∙ ap (cut_all last_window next) (append_assoc pending block more))

length-drop-le : (n : ℕ) (xs : List Record) → length (drop n xs) ≤ length xs
unfolding drop
length-drop-le zero xs = omega arith
length-drop-le (suc n) [] = omega arith
length-drop-le (suc n) (x ∷ xs) = omega (arith, length-drop-le n xs)

read_blocks-one_pass :
    (fuel n next : ℕ) (pending rest : List Record)
    → length rest < fuel
    → read_blocks fuel (suc n) 0 next pending rest ≡ cut_all last_window next (pending ++ rest)
unfolding read_blocks take drop
read_blocks-one_pass zero n next pending rest h = absurd (omega (arith, h))
read_blocks-one_pass (suc fuel) n next pending [] h = rw (reads_partial_none (suc n) []) refl
read_blocks-one_pass (suc fuel) n next pending (r ∷ rs) h =
    rw (reads_partial_none (suc n) (r ∷ rs)) (
      read_more fuel (suc n) next pending (r ∷ take n rs) (drop n rs) (omega arith) (λ next' run.
        read_blocks-one_pass fuel n next' run (drop n rs) (omega (arith, h, length-drop-le n rs)))
      ∙ ap (λ l. cut_all last_window next (pending ++ r ∷ l)) (take-append-drop n rs))

-- The refinement: a file without a partial record yields what one pass over all its records yields,
-- and ends alike, wherever the blocks end.
pub epochs-one_pass : (file : RawFile) → file.trailing ≡ 0 → epochs file ≡ one_pass file.records
unfolding epochs one_pass
epochs-one_pass file h =
    rw h (read_blocks-one_pass (suc (length file.records)) 32767 0 [] file.records (omega arith))
