-- ===== src/Paired/Command.antt =====
-- The command of a run: what the application gets, and what an edit may not touch.
use Prim.Native.String.{String}
use mathlib.Core.List.{append-nil}
use memory_tiering.Prelude.{
  ◌≡◌, refl, ap, ◌∙◌, inl, inr, List, [], ◌∷◌, ◌++◌, Bool, true, false, Option, none, some,
  if◌then◌else◌, not, ◌||◌, any, Bool-cases, arith,
}
use memory_tiering.Paired.{
  Token, word, computed, number, Args, Env, base_command, command, insert_before, delete_roi,
  is_word, TrackAlgo, spacesaving, cmsketch, SyncMode, legacy, mutex, is_mutex, mode_name, tracked,
  sync_knobs, track_knobs, pr_options, with_roi, with_stats, with_sync, with_tracker,
}

-- What stands after the first `--`.
unfoldable pub application : List Token → List Token
unfolding is_word
application [] = []
application (t ∷ ts) = if is_word "--" t then ts else application ts

has_dashes : List Token → Bool
has_dashes cmd = any (is_word "--") cmd

application-append :
    (cmd more : List Token)
    → has_dashes cmd ≡ true
    → application (cmd ++ more) ≡ application cmd ++ more
unfolding application has_dashes any
application-append [] more h = absurd (cc)
application-append (t ∷ ts) more h = elim (Bool-cases (is_word "--" t)) [
  | inl e ↦ rw e
  | inr e ↦ rw e (application-append ts more (ground arith))
]

application-knobs :
    (new cmd : List Token) → has_dashes new ≡ false → application (new ++ cmd) ≡ application cmd
unfolding application has_dashes any
application-knobs [] cmd h = refl
application-knobs (t ∷ ts) cmd h = elim (Bool-cases (is_word "--" t)) [
  | inl e ↦ absurd (ground arith)
  | inr e ↦ rw e (application-knobs ts cmd (ground arith))
]

application-insert :
    (new cmd : List Token)
    → has_dashes new ≡ false
    → application (insert_before "--" new cmd) ≡ application cmd
unfolding application insert_before
application-insert new [] h = refl
application-insert new (t ∷ ts) h = elim (Bool-cases (is_word "--" t)) [
  | inl e ↦ rw e (application-knobs new (t ∷ ts) h ∙ (unfold application in rw e))
  | inr e ↦ rw e (unfold application in rw e (application-insert new ts h))
]

any-append {ℓ} :
    {A : Type ℓ} (p : A → Bool) (xs ys : List A) → any p (xs ++ ys) ≡ (any p xs || any p ys)
unfolding any
any-append p [] ys = refl
any-append p (x ∷ xs) ys = ground (arith, any-append p xs ys)

any-insert :
    (p : Token → Bool) (mark : String) (new cmd : List Token)
    → any p cmd ≡ true
    → any p (insert_before mark new cmd) ≡ true
unfolding any insert_before
any-insert p mark new [] h = h
any-insert p mark new (t ∷ ts) h = elim (Bool-cases (is_word mark t)) [
  | inl e ↦ rw e (any-append p new (t ∷ ts) ∙ (unfold any in ground arith))
  | inr e ↦ rw e (ground (arith, any-insert p mark new ts))
]

-- What an edit keeps: the application's part, and that there is one.
record Keeps (app cmd : List Token) : Type 0 where
  dashes : has_dashes cmd ≡ true
  part : application cmd ≡ app

Keeps-append : (app cmd more : List Token) → Keeps app cmd → Keeps (app ++ more) (cmd ++ more)
unfolding has_dashes
Keeps-append app cmd more k = record {
  dashes = any-append (is_word "--") cmd more ∙ (let e = k.dashes in ground arith);
  part = application-append cmd more k.dashes ∙ ap (λ l. l ++ more) k.part;
}

Keeps-insert :
    (app new cmd : List Token)
    → has_dashes new ≡ false
    → Keeps app cmd
    → Keeps app (insert_before "--" new cmd)
unfolding has_dashes
Keeps-insert app new cmd h k = record {
  dashes = any-insert (is_word "--") "--" new cmd k.dashes;
  part = application-insert new cmd h ∙ k.part;
}

-- The application with its input and its number of trials.
abbrev pub benchmark : Args → Env → String → List Token
benchmark a e name =
    computed (e.binary name)
    ∷ word "-f"
    ∷ computed (e.graph name)
    ∷ word "-n"
    ∷ number a.trials
    ∷ []

abbrev pub stats_option : Args → List Token
stats_option a = if a.application_stats then word "-a" ∷ [] else []

with_roi-Keeps :
    (a : Args) (e : Env) (name : String)
    → Keeps (benchmark a e name) (with_roi a (base_command a e name))
unfolding with_roi base_command delete_roi application has_dashes any
with_roi-Keeps a e name = elim (Bool-cases a.process_scope) [
  | inl h ↦ rw h (record { dashes = refl; part = refl })
  | inr h ↦ rw h (record { dashes = refl; part = refl })
]

with_stats-Keeps :
    (a : Args) (app cmd : List Token)
    → Keeps app cmd
    → Keeps (app ++ stats_option a) (with_stats a cmd)
unfolding with_stats
with_stats-Keeps a app cmd k = elim (Bool-cases a.application_stats) [
  | inl h ↦ rw h (Keeps-append app cmd (word "-a" ∷ []) k)
  | inr h ↦ rw h (rw (append-nil app) k)
]

mode-plain : (m : SyncMode) → is_word "--" (mode_name m) ≡ false
unfolding is_word
mode-plain legacy = refl
mode-plain mutex = refl

sync_knobs-plain : (a : Args) → has_dashes (sync_knobs a) ≡ false
unfolding has_dashes sync_knobs any is_word
sync_knobs-plain a = elim (Bool-cases a.private_parallel) [
  | inl h ↦ rw (h, mode-plain a.sync_mode)
  | inr h ↦ rw (h, mode-plain a.sync_mode)
]

track_knobs-plain : (a : Args) (algo : TrackAlgo) → has_dashes (track_knobs a algo) ≡ false
unfolding has_dashes track_knobs any is_word
track_knobs-plain a spacesaving = refl
track_knobs-plain a cmsketch = refl

with_sync-Keeps : (a : Args) (app cmd : List Token) → Keeps app cmd → Keeps app (with_sync a cmd)
unfolding with_sync
with_sync-Keeps a app cmd k =
    elim (Bool-cases (is_mutex a.sync_mode || a.local_bbl || a.private_parallel)) [
      | inl h ↦ rw h (Keeps-insert app (sync_knobs a) cmd (sync_knobs-plain a) k)
      | inr h ↦ rw h k
    ]

with_tracker-Keeps :
    (a : Args) (app cmd : List Token) → Keeps app cmd → Keeps app (with_tracker a cmd)
unfolding with_tracker
with_tracker-Keeps a app cmd k = go a.track_algo
  where
    go : (t : Option TrackAlgo) → Keeps app (tracked a t cmd)
    go none = unfold tracked in k
    go (some algo) =
        unfold tracked in Keeps-insert app (track_knobs a algo) cmd (track_knobs-plain a algo) k

-- Whatever options are given, the profiler's knobs stay in front of `--` and the application gets
-- its input, the number of trials, `-a` exactly when its statistics are asked for, and the PageRank
-- limits exactly when the workload is PageRank, in that order.
pub application-command :
    (a : Args) (e : Env) (name : String)
    → application (command a e name) ≡ (benchmark a e name ++ stats_option a) ++ pr_options a name
unfolding command
application-command a e name =
    (with_tracker-Keeps a _ _ (
      Keeps-append _ _ (pr_options a name)
        (with_sync-Keeps a _ _ (with_stats-Keeps a _ _ (with_roi-Keeps a e name))))).part

-- The command names the start of the region exactly when the scope is not the whole process.
pub scope-command :
    (a : Args) (e : Env) (name : String)
    → any (is_word "-roi_begin") (with_roi a (base_command a e name)) ≡ not a.process_scope
unfolding with_roi base_command delete_roi any
scope-command a e name = elim (Bool-cases a.process_scope) [ inl h ↦ rw h | inr h ↦ rw h ]
