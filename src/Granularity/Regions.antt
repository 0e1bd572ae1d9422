-- ===== src/Granularity/Regions.antt =====
-- src/analysis/granularity_sweep.py, `sweep_records`: the runs of equal regions in the sorted records
-- are the regions of the trace.
use memory_tiering.Prelude.{
  ℕ, ◌+◌, ◌/◌, ◌≡◌, refl, sym, ap, ◌∙◌, inl, inr, List, [], ◌∷◌, Bool, true, false, map, ◌==◌,
  if◌then◌else◌, ◌&&◌, filter, any, sum_by, Sorted, All, Bool-cases, arith,
}
use memory_tiering.Prelude.Int.{pos}
use memory_tiering.Numpy.{RowLe}
use memory_tiering.Trace.{Record}
use memory_tiering.Granularity.{big, same_region, group_totals, totals_of}

-- Whether two records are of the same window and the same page of the larger size.
unfoldable pub in_region : ℕ → Record → Record → Bool
in_region page_size a b =
    (a.epoch == b.epoch) && (a.page / (page_size / 4096) == b.page / (page_size / 4096))

-- What the records of a region add up to.
unfoldable pub region_total : ℕ → (Record → ℕ) → Record → List Record → ℕ
unfolding in_region
region_total page_size f a recs = sum_by f (filter (in_region page_size a) recs)

-- Records for the regions of a list: one for each, with the totals in the same order.
pub record AreRegions (page_size : ℕ) (f : Record → ℕ) (recs : List Record) (totals : List ℕ)
    (regions : List Record) : Type 0 where
  pub apart : Sorted (λ a b. in_region page_size a b ≡ false) regions
  pub every : All (λ r. any (λ a. in_region page_size a r) regions ≡ true) recs
  pub totals_are : totals ≡ map (λ a. region_total page_size f a recs) regions

module _ (page_size : ℕ) (f : Record → ℕ) where
  abbrev Before : Record → Record → Type 0
  Before = RowLe (big page_size) (λ r. pos r.epoch)

  far :
      (a b c : Record)
      → Before a b
      → in_region page_size a b ≡ false
      → Before b c
      → in_region page_size a c ≡ false
  unfolding in_region big
  far a b c (inl p) h (inl q) = ground arith
  far a b c (inl p) h (inr q) = ground (arith, q.0)
  far a b c (inr p) h (inl q) = ground (arith, p.0)
  far a b c (inr p) h (inr q) = ground (arith, p.0, p.1, q.0, q.1, h)

  in_region_sym : (a b : Record) → in_region page_size a b ≡ false → in_region page_size b a ≡ false
  unfolding in_region
  in_region_sym a b h = ground (arith, h)

  in_region_same :
      (a b c : Record)
      → in_region page_size a b ≡ true
      → in_region page_size a c ≡ in_region page_size b c
  unfolding in_region
  in_region_same a b c h =
      let e : a.epoch ≡ b.epoch = ground (arith, h) in
      let d : a.page / (page_size / 4096) ≡ b.page / (page_size / 4096) = ground (arith, h) in
      rw (e, d) refl

  total_same :
      (a b : Record) (rs : List Record)
      → in_region page_size a b ≡ true
      → region_total page_size f a rs ≡ region_total page_size f b rs
  unfolding region_total filter sum_by
  total_same a b [] h = refl
  total_same a b (r ∷ rs) h =
      let same = in_region_same a b r h in
      let later = total_same a b rs h in
      rw same (elim (Bool-cases (in_region page_size b r)) [
        | inl e ↦ rw e (omega (arith, later))
        | inr e ↦ rw e later
      ])

  total_none :
      (a b : Record) (rs : List Record)
      → Before a b
      → in_region page_size a b ≡ false
      → All (Before b) rs
      → region_total page_size f a rs ≡ 0
  unfolding region_total filter sum_by
  total_none a b [] p h s = refl
  total_none a b (r ∷ rs) p h s = rw (far a b r p h s.0) (total_none a b rs p h s.1)

  total_skip :
      (a r : Record) (rs : List Record)
      → in_region page_size a r ≡ false
      → region_total page_size f a (r ∷ rs) ≡ region_total page_size f a rs
  unfolding region_total filter
  total_skip a r rs h = rw h refl

  total_take :
      (a r : Record) (rs : List Record)
      → in_region page_size a r ≡ true
      → region_total page_size f a (r ∷ rs) ≡ f r + region_total page_size f a rs
  unfolding region_total filter sum_by
  total_take a r rs h = rw h refl

  totals_skip :
      (r : Record) (rs others : List Record)
      → All (λ a. in_region page_size r a ≡ false) others
      → map (λ a. region_total page_size f a (r ∷ rs)) others
        ≡ map (λ a. region_total page_size f a rs) others
  totals_skip r rs [] h = refl
  totals_skip r rs (a ∷ others) h =
      rw (total_skip a r rs (in_region_sym r a h.0), totals_skip r rs others h.1) refl

  -- The regions after that of `last`, in the records that are still to come.
  record Rest (so_far : ℕ) (last : Record) (rs : List Record) : Type 0 where
    others : List Record
    later : All (Before last) others
    rest_apart : Sorted (λ a b. in_region page_size a b ≡ false) (last ∷ others)
    covered : All (λ r. any (λ a. in_region page_size a r) (last ∷ others) ≡ true) rs
    sums :
        group_totals f page_size so_far last rs
        ≡ (so_far + region_total page_size f last rs)
          ∷ map (λ a. region_total page_size f a rs) others

  Before-All :
      (a b : Record) → Before a b → (cs : List Record) → All (Before b) cs → All (Before a) cs
  Before-All a b p [] h = tt
  Before-All a b p (c ∷ cs) h = (trans c p h.0, Before-All a b p cs h.1)
    where
      trans : (c : Record) → Before a b → Before b c → Before a c
      trans c (inl p) (inl q) = inl (omega (arith, p, q))
      trans c (inl p) (inr q) = inl (ground (arith, p, q.0))
      trans c (inr p) (inl q) = inl (ground (arith, p.0, q))
      trans c (inr p) (inr q) = inr (p.0 ∙ q.0, omega (arith, p.1, q.1))

  far-All :
      (a b : Record) (cs : List Record)
      → Before a b
      → in_region page_size a b ≡ false
      → All (Before b) cs
      → All (λ c. in_region page_size a c ≡ false) cs
  far-All a b [] p h s = tt
  far-All a b (c ∷ cs) p h s = (far a b c p h s.0, far-All a b cs p h s.1)

  same-All :
      (a b : Record) (cs : List Record)
      → in_region page_size a b ≡ true
      → All (λ c. in_region page_size b c ≡ false) cs
      → All (λ c. in_region page_size a c ≡ false) cs
  same-All a b [] h s = tt
  same-All a b (c ∷ cs) h s = (in_region_same a b c h ∙ s.0, same-All a b cs h s.1)

  any-same :
      (a b : Record) (others : List Record) (rs : List Record)
      → in_region page_size a b ≡ true
      → All (λ r. any (λ c. in_region page_size c r) (b ∷ others) ≡ true) rs
      → All (λ r. any (λ c. in_region page_size c r) (a ∷ others) ≡ true) rs
  unfolding any
  any-same a b others [] h s = tt
  any-same a b others (r ∷ rs) h s =
      (ground (arith, in_region_same a b r h, s.0), any-same a b others rs h s.1)

  any-more :
      (a : Record) (others : List Record) (rs : List Record)
      → All (λ r. any (λ c. in_region page_size c r) others ≡ true) rs
      → All (λ r. any (λ c. in_region page_size c r) (a ∷ others) ≡ true) rs
  unfolding any
  any-more a others [] s = tt
  any-more a others (r ∷ rs) s = (ground (arith, s.0), any-more a others rs s.1)

  in_region_self : (a : Record) → in_region page_size a a ≡ true
  unfolding in_region
  in_region_self a = ground arith

  any_here :
      (a r : Record) (others : List Record)
      → in_region page_size a r ≡ true
      → any (λ c. in_region page_size c r) (a ∷ others) ≡ true
  unfolding any
  any_here a r others h = ground (arith, h)

  any_next :
      (a r : Record) (others : List Record)
      → any (λ c. in_region page_size c r) others ≡ true
      → any (λ c. in_region page_size c r) (a ∷ others) ≡ true
  unfolding any
  any_next a r others h = ground (arith, h)

  same_region-in_region : (a b : Record) → same_region page_size a b ≡ in_region page_size a b
  unfolding same_region in_region
  same_region-in_region a b = refl

  group_totals_step :
      (so_far : ℕ) (last r : Record) (rs : List Record)
      → group_totals f page_size so_far last (r ∷ rs) ≡ (
          if in_region page_size last r
          then group_totals f page_size (so_far + f r) r rs
          else so_far ∷ group_totals f page_size (f r) r rs)
  unfolding group_totals
  group_totals_step so_far last r rs = rw (same_region-in_region last r) refl

  rest_none : (so_far : ℕ) (last : Record) → Rest so_far last []
  unfolding group_totals region_total filter sum_by
  rest_none so_far last = record {
    others = [];
    later = tt;
    rest_apart = (tt, tt);
    covered = tt;
    sums = ap (λ n. n ∷ []) (omega arith);
  }

  rest_same :
      (so_far : ℕ) (last r : Record) (rs : List Record)
      → Before last r
      → in_region page_size last r ≡ true
      → Rest (so_far + f r) r rs
      → Rest so_far last (r ∷ rs)
  rest_same so_far last r rs p h k =
      let total : so_far + f r + region_total page_size f r rs
          ≡ so_far + region_total page_size f last (r ∷ rs) =
        omega (arith, total_take last r rs h, total_same last r rs h) in
      record {
        others = k.others;
        later = Before-All last r p k.others k.later;
        rest_apart = (same-All last r k.others h k.rest_apart.0, k.rest_apart.1);
        covered = (any_here last r k.others h, any-same last r k.others rs h k.covered);
        sums =
            group_totals_step so_far last r rs
            ∙ rw h (
                k.sums
                ∙ ap (λ n. n ∷ map (λ a. region_total page_size f a rs) k.others) total
                ∙ ap (◌∷◌ (so_far + region_total page_size f last (r ∷ rs)))
                    (sym (totals_skip r rs k.others k.rest_apart.0)));
      }

  rest_new :
      (so_far : ℕ) (last r : Record) (rs : List Record)
      → Before last r
      → All (Before r) rs
      → in_region page_size last r ≡ false
      → Rest (f r) r rs
      → Rest so_far last (r ∷ rs)
  rest_new so_far last r rs p s h k =
      let none_left : so_far ≡ so_far + region_total page_size f last (r ∷ rs) =
        omega (arith, total_skip last r rs h, total_none last r rs p h s) in
      let here : f r + region_total page_size f r rs ≡ region_total page_size f r (r ∷ rs) =
        sym (total_take r r rs (in_region_self r)) in
      record {
        others = r ∷ k.others;
        later = (p, Before-All last r p k.others k.later);
        rest_apart = ((h, far-All last r k.others p h k.later), k.rest_apart);
        covered = (
          any_next last r (r ∷ k.others) (any_here r r k.others (in_region_self r)),
          any-more last (r ∷ k.others) rs k.covered,
        );
        sums =
            group_totals_step so_far last r rs
            ∙ rw h (
                ap (◌∷◌ so_far) k.sums
                ∙ ap
                    (λ n.
                      n
                      ∷ (f r + region_total page_size f r rs)
                      ∷ map (λ a. region_total page_size f a rs) k.others)
                    none_left
                ∙ ap
                    (λ n.
                      (so_far + region_total page_size f last (r ∷ rs))
                      ∷ n
                      ∷ map (λ a. region_total page_size f a rs) k.others)
                    here
                ∙ ap
                    (λ ns.
                      (so_far + region_total page_size f last (r ∷ rs))
                      ∷ region_total page_size f r (r ∷ rs)
                      ∷ ns)
                    (sym (totals_skip r rs k.others k.rest_apart.0)));
      }

  rest_of :
      (so_far : ℕ) (last : Record) (rs : List Record)
      → Sorted Before (last ∷ rs)
      → Rest so_far last rs
  rest_of so_far last [] s = rest_none so_far last
  rest_of so_far last (r ∷ rs) s = elim (Bool-cases (in_region page_size last r)) [
    | inl h ↦ rest_same so_far last r rs s.0.0 h (rest_of (so_far + f r) r rs s.1)
    | inr h ↦ rest_new so_far last r rs s.0.0 s.1.0 h (rest_of (f r) r rs s.1)
  ]

  -- In sorted records the totals are those of the regions.
  pub totals_of-AreRegions :
      (rs : List Record)
      → Sorted Before rs
      → (regions : List Record) × AreRegions page_size f rs (totals_of f page_size rs) regions
  unfolding totals_of
  totals_of-AreRegions [] s = ([], record { apart = tt; every = tt; totals_are = refl })
  totals_of-AreRegions (r ∷ rs) s =
      let k = rest_of (f r) r rs s in
      (
        r ∷ k.others,
        record {
          apart = k.rest_apart;
          every = (any_here r r k.others (in_region_self r), k.covered);
          totals_are =
              k.sums
              ∙ ap (λ n. n ∷ map (λ a. region_total page_size f a rs) k.others)
                  (sym (total_take r r rs (in_region_self r)))
              ∙ ap (◌∷◌ (region_total page_size f r (r ∷ rs)))
                  (sym (totals_skip r rs k.others k.rest_apart.0));
        },
      )
