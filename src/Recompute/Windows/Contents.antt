-- ===== src/Recompute/Windows/Contents.antt =====
-- A file that is read to its end: the windows are all of its records, one window per epoch.
use memory_tiering.Prelude.{
  ℕ, zero, suc, ◌+◌, ◌≤◌, ◌<◌, ◌≡◌, ◌≢◌, refl, sym, ap, ◌∙◌, inl, inr, List, [], ◌∷◌, ◌++◌, false,
  ltb, ◌==◌, length, map, take, drop, All, All-append, All-weaken, length-append, length-take,
  Bool-cases, filter, arith,
}
use mathlib.Core.Path.{subst}
use mathlib.Core.List.{append_assoc, append-nil}
use memory_tiering.Trace.{Record, in_epoch}
use memory_tiering.Recompute.Windows.{
  RawFile, finished, ends, yields, cut, cut_all, last_window, reads_partial, read_blocks, epochs,
}
use memory_tiering.Recompute.Windows.Laws.{
  Rest, IsRun, IsRun-one, IsRun-snoc, one_pass, epochs-one_pass,
}

unfoldable pub joined : List (List Record) → List Record
joined [] = []
joined (w ∷ ws) = w ++ joined ws

unfoldable pub numbers : ℕ → ℕ → List ℕ
numbers first zero = []
numbers first (suc n) = first ∷ numbers (first + 1) n

-- The windows carry the epochs from `next` on.
IsNumbered : ℕ → List (List Record) → Type 0
IsNumbered next [] = Unit
IsNumbered next (w ∷ ws) = IsRun w next × IsNumbered (next + 1) ws

cut-IsNumbered :
    (next : ℕ) (run : List Record) (epoch : ℕ) (rs : List Record)
    → IsRun run epoch
    → (cut last_window next run epoch rs).ending ≡ finished
    → (joined (cut last_window next run epoch rs).yielded ≡ run ++ rs)
      × IsNumbered next (cut last_window next run epoch rs).yielded
unfolding cut last_window joined IsNumbered ends yields
cut-IsNumbered next run epoch [] i h = elim (Bool-cases (epoch == next)) [
  | inl e ↦ rw e (refl, (subst (IsRun run) (ground arith) i, tt))
  | inr e ↦ absurd (ground arith)
]
cut-IsNumbered next run epoch (r ∷ rs) i h = elim (Bool-cases (r.epoch == epoch)) [
  | inl e ↦
      let more =
        cut-IsNumbered next (run ++ r ∷ []) epoch rs (IsRun-snoc run epoch r (ground arith) i)
          (rw e at h) in
      rw e (more.0 ∙ append_assoc run (r ∷ []) rs, more.1)
  | inr e ↦ elim (Bool-cases (epoch == next)) [
    | inl d ↦
        let more = cut-IsNumbered (next + 1) (r ∷ []) r.epoch rs (IsRun-one r) (rw (e, d) at h) in
        rw (e, d) (ap (◌++◌ run) more.0, (subst (IsRun run) (ground arith) i, more.1))
    | inr d ↦ absurd (ground arith)
  ]
]

one_pass-IsNumbered :
    (recs : List Record)
    → (one_pass recs).ending ≡ finished
    → (joined (one_pass recs).yielded ≡ recs) × IsNumbered 0 (one_pass recs).yielded
unfolding one_pass cut_all ends joined IsNumbered
one_pass-IsNumbered [] h = (refl, tt)
one_pass-IsNumbered (r ∷ rs) h = cut-IsNumbered 0 (r ∷ []) r.epoch rs (IsRun-one r) h

-- Records of other epochs are not in a window.
in_epoch_other : (e : ℕ) (recs : List Record) → All (λ r. r.epoch ≢ e) recs → in_epoch recs e ≡ []
unfolding in_epoch filter
in_epoch_other e [] h = refl
in_epoch_other e (r ∷ rs) h = ground (arith, h.0, in_epoch_other e rs h.1)

in_epoch_own : (e : ℕ) (recs : List Record) → All (λ r. r.epoch ≡ e) recs → in_epoch recs e ≡ recs
unfolding in_epoch filter
in_epoch_own e [] h = refl
in_epoch_own e (r ∷ rs) h = ground (arith, h.0, in_epoch_own e rs h.1)

in_epoch-append :
    (e : ℕ) (xs ys : List Record) → in_epoch (xs ++ ys) e ≡ in_epoch xs e ++ in_epoch ys e
unfolding in_epoch filter
in_epoch-append e [] ys = refl
in_epoch-append e (x ∷ xs) ys = ground (arith, in_epoch-append e xs ys)

-- The windows from `next` on hold no record of an earlier epoch.
joined_later :
    (e next : ℕ) (ws : List (List Record))
    → e < next
    → IsNumbered next ws
    → All (λ r. r.epoch ≢ e) (joined ws)
unfolding joined IsNumbered IsRun
joined_later e next [] h i = tt
joined_later e next (w ∷ ws) h i =
    All-append (λ r. r.epoch ≢ e) w (joined ws)
      (All-weaken (λ r. r.epoch ≡ next) (λ r. r.epoch ≢ e) (λ r d. ground (arith, h, d)) w i.0.1)
      (joined_later e (next + 1) ws (omega (arith, h)) i.1)

windows-in_epoch :
    (next : ℕ) (before : List Record) (ws : List (List Record))
    → All (λ r. r.epoch < next) before
    → IsNumbered next ws
    → map (in_epoch (before ++ joined ws)) (numbers next (length ws)) ≡ ws
unfolding joined IsNumbered IsRun numbers
windows-in_epoch next before [] h i = refl
windows-in_epoch next before (w ∷ ws) h i =
    let early =
      All-weaken (λ r. r.epoch < next) (λ r. r.epoch ≢ next) (λ r d. ground (arith, d)) before h in
    let here : in_epoch (before ++ (w ++ joined ws)) next ≡ w =
      in_epoch-append next before (w ++ joined ws)
      ∙ ap (λ l. l ++ in_epoch (w ++ joined ws) next) (in_epoch_other next before early)
      ∙ in_epoch-append next w (joined ws)
      ∙ ap (◌++◌ (in_epoch w next))
          (in_epoch_other next (joined ws) (joined_later next (next + 1) ws (omega arith) i.1))
      ∙ append-nil (in_epoch w next)
      ∙ in_epoch_own next w i.0.1 in
    let later : map (in_epoch (before ++ (w ++ joined ws))) (numbers (next + 1) (length ws)) ≡ ws =
      ap (λ l. map (in_epoch l) (numbers (next + 1) (length ws)))
        (sym (append_assoc before w (joined ws)))
      ∙ windows-in_epoch (next + 1) (before ++ w) ws
          (All-append (λ r. r.epoch < next + 1) before w
            (All-weaken (λ r. r.epoch < next) (λ r. r.epoch < next + 1) (λ r d. omega (arith, d))
              before h)
            (All-weaken (λ r. r.epoch ≡ next) (λ r. r.epoch < next + 1) (λ r d. omega (arith, d)) w
              i.0.1))
          i.1 in
    ap (λ x. x ∷ map (in_epoch (before ++ (w ++ joined ws))) (numbers (next + 1) (length ws))) here
    ∙ ap (◌∷◌ w) later

module _ (f : Rest)
    (h : (next : ℕ) (run : List Record) (epoch : ℕ) → (f next run epoch).ending ≢ finished) where
  cut_ending :
      (next : ℕ) (run : List Record) (epoch : ℕ) (rs : List Record)
      → (cut f next run epoch rs).ending ≢ finished
  unfolding cut ends yields
  cut_ending next run epoch [] = h next run epoch
  cut_ending next run epoch (r ∷ rs) = elim (Bool-cases (r.epoch == epoch)) [
    | inl e ↦ rw e (cut_ending next (run ++ r ∷ []) epoch rs)
    | inr e ↦ elim (Bool-cases (epoch == next)) [
      | inl d ↦ rw (e, d) (cut_ending (next + 1) (r ∷ []) r.epoch rs)
      | inr d ↦ rw (e, d) (λ k. absurd (ground arith))
    ]
  ]

  cut_all-ending :
      (next : ℕ) (rs : List Record) → 1 ≤ length rs → (cut_all f next rs).ending ≢ finished
  unfolding cut_all
  cut_all-ending next [] i = absurd (omega (arith, i))
  cut_all-ending next (r ∷ rs) i = cut_ending next (r ∷ []) r.epoch rs

-- A file that ends inside a record is never read to its end.
read_blocks-ending :
    (fuel n t next : ℕ) (pending rest : List Record)
    → (read_blocks fuel (suc n) (suc t) next pending rest).ending ≢ finished
unfolding read_blocks reads_partial ends
read_blocks-ending zero n t next pending rest = λ k. absurd (ground arith)
read_blocks-ending (suc fuel) n t next pending rest =
    elim (Bool-cases (ltb (length rest) (suc n))) [
      | inl e ↦ rw e (λ k. absurd (ground arith))
      | inr e ↦
          let size = length-take (suc n) rest in
          let positive : 1 ≤ length (take (suc n) rest) = ground (arith, size) in
          let some_read : (length (take (suc n) rest) == 0) ≡ false = ground (arith, size) in
          rw (e, some_read)
            (cut_all-ending
              (λ next' run epoch. read_blocks fuel (suc n) (suc t) next' run (drop (suc n) rest))
              (λ next' run epoch. read_blocks-ending fuel n t next' run (drop (suc n) rest)) next
              (pending ++ take (suc n) rest)
              (omega (arith, positive, length-append pending (take (suc n) rest))))
    ]

-- A stream that finishes: the file has no partial record, the windows are all of its records in
-- order, and window `i` is the records of epoch `i`.
pub epochs-in_epoch :
    (file : RawFile)
    → (epochs file).ending ≡ finished
    → (file.trailing ≡ 0)
      × (joined (epochs file).yielded ≡ file.records)
      × ((epochs file).yielded
          ≡ map (in_epoch file.records) (numbers 0 (length (epochs file).yielded)))
epochs-in_epoch file h = whole (file.trailing) refl
  where
    whole :
        (t : ℕ)
        → file.trailing ≡ t
        → (file.trailing ≡ 0)
          × (joined (epochs file).yielded ≡ file.records)
          × ((epochs file).yielded
              ≡ map (in_epoch file.records) (numbers 0 (length (epochs file).yielded)))
    whole zero e =
        let same = epochs-one_pass file e in
        let parts = one_pass-IsNumbered file.records (ap (λ s. s.ending) (sym same) ∙ h) in
        let found = windows-in_epoch 0 [] (one_pass file.records).yielded tt parts.1 in
        rw same (
          e,
          parts.0,
          sym (
              ap (λ l. map (in_epoch l) (numbers 0 (length (one_pass file.records).yielded)))
                (sym parts.0)
              ∙ found),
        )
    whole (suc t) e = absurd (
        unfold epochs in
        read_blocks-ending (suc (length file.records)) 32767 t 0 [] file.records (rw e at h))
