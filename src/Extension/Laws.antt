-- ===== src/Extension/Laws.antt =====
-- What a complete manifest of an extension run says.
use memory_tiering.Prelude.{
  ℕ, zero, suc, ◌+◌, ◌≤◌, ◌<◌, ◌≡◌, refl, sym, ap, ◌∙◌, inl, inr, Bool, true, false, Option, none,
  some, if◌then◌else◌, ◌||◌, not, ◌==◌, Bool-cases, arith,
}
use memory_tiering.Prelude.Int.{ℤ, pos, negsuc}
use memory_tiering.Extension.{
  Workload, is_lib, Setting, complete, Manifest, Poll, died, refused, connected, Startup, up,
  exited, timed_out, Failure, training_exit, client_error, server_timeout, gzip_timeout,
  gzip_failed, collection_incomplete, World, start_server, Step, raise, done, and_then, when_zero,
  ended, answered, served, measured, collected, metadata, out_exists, finished, outcome_of,
  run_workload,
}

-- The server refuses until it answers, within the tries.
abbrev pub Answers : (ℕ → Poll) → ℕ → ℕ → Type 0
Answers polls tries at =
    (k : ℕ) × (at ≤ k)
    × (k < at + tries)
    × (polls k ≡ connected)
    × ((j : ℕ) → at ≤ j → j < k → polls j ≡ refused)

start_server-Answers :
    (polls : ℕ → Poll) (tries at : ℕ) → start_server polls tries at ≡ up → Answers polls tries at
unfolding start_server
start_server-Answers polls zero at h = absurd (cc)
start_server-Answers polls (suc tries) at h =
    go (polls at) refl (start_server-Answers polls tries (at + 1)) h
  where
    go :
        (p : Poll)
        → polls at ≡ p
        → (start_server polls tries (at + 1) ≡ up → Answers polls tries (at + 1))
        → (elim p [ died ↦ exited | refused ↦ start_server polls tries (at + 1) | connected ↦ up ])
          ≡ up
        → Answers polls (suc tries) at
    go died q ih g = absurd (cc)
    go connected q ih g = (at, omega arith, omega arith, q, λ j a b. absurd (omega arith))
    go refused q ih g =
        let (k, low, high, there, before) = ih g in
        (k, omega arith, omega arith, there, earlier k before)
      where
        earlier :
            (k : ℕ)
            → ((j : ℕ) → at + 1 ≤ j → j < k → polls j ≡ refused)
            → (j : ℕ) → at ≤ j
            → j < k
            → polls j ≡ refused
        earlier k before j a b = elim (Bool-cases (j == at)) [
          | inl e ↦ let here : j ≡ at = ground arith in rw here q
          | inr e ↦ before j (ground arith) b
        ]

Answers-up :
    (polls : ℕ → Poll) (tries at k : ℕ)
    → at ≤ k
    → k < at + tries
    → polls k ≡ connected
    → ((j : ℕ) → at ≤ j → j < k → polls j ≡ refused)
    → start_server polls tries at ≡ up
unfolding start_server
Answers-up polls zero at k low high there before = absurd (omega (arith, low, high))
Answers-up polls (suc tries) at k low high there before = elim (Bool-cases (at == k)) [
  | inl e ↦ let here : at ≡ k = ground (arith, e) in rw (here, start_server, there) refl
  | inr e ↦
      rw (before at (omega arith) (ground (arith, e, low)), start_server)
        (Answers-up polls tries (at + 1) k (ground (arith, e, low)) (omega (arith, high)) there
          (λ j a b. before j (omega (arith, a)) b))
]

-- The measurement of a workload, with the return code of its process: the training exited with 0, or
-- the server answered, the client exited with 0 and the server ended in time, with whatever code.
abbrev pub Measured : World → Bool → ℤ → Type 0
Measured w true rc = (w.training_code ≡ pos 0) × (rc ≡ pos 0)
Measured w false rc = Answers w.polls 120 0 × (w.client_code ≡ pos 0) × (w.server_end ≡ some rc)

and_then-done :
    {A B : Type 0} (s : Step A) (f : A → Step B) (b : B)
    → and_then s f ≡ done b
    → (a : A) × (s ≡ done a) × (f a ≡ done b)
unfolding and_then
and_then-done (raise e) f b h = absurd (cc)
and_then-done (done a) f b h = (a, refl, h)

when_zero-done :
    {A : Type 0} (code : ℤ) (e : Failure) (a b : A)
    → when_zero code e a ≡ done b
    → (code ≡ pos 0) × (a ≡ b)
unfolding when_zero
when_zero-done (pos zero) e a b h = (refl, cc)
when_zero-done (pos (suc n)) e a b h = absurd (cc)
when_zero-done (negsuc n) e a b h = absurd (cc)

ended-done : (o : Option ℤ) (e : Failure) (code : ℤ) → ended o e ≡ done code → o ≡ some code
unfolding ended
ended-done none e code h = absurd (cc)
ended-done (some c) e code h = cc

answered-up : (st : Startup) (u : Unit {0}) → answered st ≡ done u → st ≡ up
unfolding answered
answered-up up u h = refl
answered-up exited u h = absurd (cc)
answered-up timed_out u h = absurd (cc)

measured-Measured :
    (w : World) (k : Workload) (rc : ℤ) → measured w k ≡ done rc → Measured w (is_lib k) rc
unfolding measured served
measured-Measured w k rc h = by_kind (is_lib k) h
  where
    by_kind :
        (b : Bool)
        → (if b then when_zero w.training_code training_exit w.training_code else served w)
          ≡ done rc
        → Measured w b rc
    by_kind true h =
        let (zero_code, same) = when_zero-done w.training_code training_exit w.training_code rc h in
        (zero_code, sym same ∙ zero_code)
    by_kind false h =
        let (u, is_up, after) = and_then-done (answered (start_server w.polls 120 0)) _ rc h in
        let (v, client, stopped) =
          and_then-done (when_zero w.client_code client_error u) _ rc after in
        (
          start_server-Answers w.polls 120 0 (answered-up (start_server w.polls 120 0) u is_up),
          (when_zero-done w.client_code client_error u v client).0,
          ended-done w.server_end server_timeout rc stopped,
        )

Measured-measured :
    (w : World) (k : Workload) (rc : ℤ) → Measured w (is_lib k) rc → measured w k ≡ done rc
unfolding measured served
Measured-measured w k rc h = by_kind (is_lib k) h
  where
    by_kind :
        (b : Bool)
        → Measured w b rc
        → (if b then when_zero w.training_code training_exit w.training_code else served w)
          ≡ done rc
    by_kind true (zero_code, same) = rw (zero_code, same) (unfold when_zero in refl)
    by_kind false ((n, low, high, there, before), client, stop) =
        rw (Answers-up w.polls 120 0 n low high there before, client, stop)
          (unfold and_then answered when_zero ended in refl)

-- The conditions of a usable run, whose process returned `rc`.
pub record IsUsable (w : World) (k : Workload) (rc : ℤ) : Type 0 where
  pub fresh : w.out_exists ≡ false
  pub measured_part : Measured w (is_lib k) rc
  pub gzip : w.gzip_end ≡ some (pos 0)
  pub complete_collection : w.says_complete ≡ true
  pub uncapped : w.says_capped ≡ false

collected-done :
    (w : World) (a rc : ℤ)
    → collected w a ≡ done rc
    → (a ≡ rc) × (w.gzip_end ≡ some (pos 0)) × (w.says_complete ≡ true) × (w.says_capped ≡ false)
unfolding collected
collected-done w a rc h =
    let (code, gzip, after) = and_then-done (ended w.gzip_end gzip_timeout) _ rc h in
    let (b, is_zero, last) = and_then-done (when_zero code gzip_failed a) _ rc after in
    let (zero_code, same) = when_zero-done code gzip_failed a b is_zero in
    let found = ended-done w.gzip_end gzip_timeout code gzip in
    let (complete_part, capped, is_rc) = said w.says_complete w.says_capped b last in
    (same ∙ is_rc, found ∙ ap (λ c. some c) zero_code, complete_part, capped)
  where
    said :
        (c d : Bool) (b : ℤ)
        → (if not c || d then raise collection_incomplete else done b) ≡ done rc
        → (c ≡ true) × (d ≡ false) × (b ≡ rc)
    said true false b h = (refl, refl, cc)
    said true true b h = absurd (cc)
    said false d b h = absurd (cc)

outcome_of-finished :
    (m n : Manifest) (t : Step ℤ) → outcome_of m t ≡ finished n → (rc : ℤ) × (t ≡ done rc)
unfolding outcome_of
outcome_of-finished m n (raise e) h = absurd (cc)
outcome_of-finished m n (done rc) h = (rc, refl)

finished-IsUsable :
    (s : Setting) (w : World) (k : Workload) (m : Manifest)
    → run_workload s w k ≡ finished m
    → (rc : ℤ) × IsUsable w k rc
unfolding run_workload
finished-IsUsable s w k m h = elim (Bool-cases w.out_exists) [
  | inl e ↦ absurd (refused_run (rw e at h))
  | inr e ↦
      let (rc, tried) =
        outcome_of-finished (metadata s k) m (and_then (measured w k) (collected w)) (rw e at h) in
      let (a, first, later) = and_then-done (measured w k) (collected w) rc tried in
      let (same, gzip, said, uncapped) = collected-done w a rc later in
      (
        rc,
        record {
          fresh = e;
          measured_part = measured-Measured w k rc (first ∙ ap (λ c. done c) same);
          gzip = gzip;
          complete_collection = said;
          uncapped = uncapped;
        },
      )
]
  where
    refused_run :
        (if true
            then out_exists
            else outcome_of (metadata s k) (and_then (measured w k) (collected w)))
          ≡ finished m
        → ⊥
    refused_run h = cc

-- A run finishes, without an exception, exactly when its directory was new, the training exited with 0
-- or the server answered within 120 tries after nothing but refusals, the client exited with 0 and the
-- server ended in time with whatever code, gzip exited with 0 in time, and the collection is complete
-- and not capped. The manifest is then the one of the start with the status complete and the code that
-- the process returned.
pub run_workload-IsUsable :
    (s : Setting) (w : World) (k : Workload)
    → ((m : Manifest) → run_workload s w k ≡ finished m → (rc : ℤ) × IsUsable w k rc)
      × ((rc : ℤ)
          → IsUsable w k rc
          → run_workload s w k
            ≡ finished (record (metadata s k) { status = complete; returncode = some rc }))
unfolding run_workload metadata
run_workload-IsUsable s w k = (
  finished-IsUsable s w k,
  λ rc u.
      rw
        (
          u.fresh,
          Measured-measured w k rc u.measured_part,
          collected,
          u.gzip,
          u.complete_collection,
          u.uncapped,
        )
        (unfold and_then ended when_zero outcome_of in refl),
)
