-- ===== src/InputFamilies/Laws.antt =====
-- What a preparation that ends has established, and that a second run keeps it.
use Prim.Native.String.{String}
use text.Mathlib.Text.{◌==◌ as str_eq}
use text.Mathlib.TextPositions.{eq_refl}
use memory_tiering.Prelude.{
  ℕ, ◌+◌, ◌≡◌, refl, sym, ap, ◌∙◌, inl, inr, List, [], ◌∷◌, ◌++◌, Bool, true, false, Option, some,
  none, map, ◌==◌, if◌then◌else◌, ◌||◌, not, ltb, ◌*◌, ◌^◌, all, All, All-append, Bool-cases, arith,
  contains,
}
use memory_tiering.Campaign.Attempts.{next_attempt, next_attempt-free}
use mathlib.Core.Path.{subst}
use memory_tiering.InputFamilies.{
  Key, twitter_main, twitter_tc, gplus_bc, gplus_sssp, Graph, edge_bytes, directions, expected_size,
  gapbs_bfs, gapbs_cc, gapbs_pr, gapbs_tc, gapbs_bc, gapbs_sssp, no_space, source_changed,
  input_changed, Workload, Command, build, select, World, Step, stopped, done, and_then, run,
  collect, twitter_graph, gplus_graph, each, graphs, Native, native_cases, native_run, Meta,
  Outcome, failed, kept, prepared, outcome_of, prepare_all, prepare_new, prepare_inputs, saved_of,
}

and_then-done :
    {A B : Type 0} (s : Step A) (f : A → Step B) (b : B)
    → and_then s f ≡ done b
    → (a : A) × (s ≡ done a) × (f a ≡ done b)
unfolding and_then
and_then-done (stopped e) f b h = absurd (ground arith)
and_then-done (done a) f b h = (a, refl, h)

run-done : {A : Type 0} (w : World) (c : Command) (a b : A) → run w c a ≡ done b → a ≡ b
unfolding run
run-done w c a b h = elim (Bool-cases (w.succeeds c)) [
  | inl e ↦ cc (rw e at h)
  | inr e ↦ absurd (ground (arith, h, e))
]

-- A pair of lists related entry by entry.
Pairs : {A B : Type 0} → (A → B → Type 0) → List A → List B → Type 0
Pairs P [] [] = Unit
Pairs P [] (y ∷ ys) = ⊥
Pairs P (x ∷ xs) [] = ⊥
Pairs P (x ∷ xs) (y ∷ ys) = P x y × Pairs P xs ys

each-Pairs :
    {A B : Type 0} (P : A → B → Type 0) (f : A → Step B)
    → ((x : A) (y : B) → f x ≡ done y → P x y)
    → (xs : List A) (ys : List B) → each f xs ≡ done ys
    → Pairs P xs ys
unfolding each Pairs
each-Pairs P f h [] ys e = let same : ys ≡ [] = cc in rw same tt
each-Pairs P f h (x ∷ xs) ys e =
    let (y, first, later) =
      and_then-done (f x) (λ y. and_then (each f xs) (λ zs. done (y ∷ zs))) ys e in
    let (zs, rest, same) = and_then-done (each f xs) (λ zs. done (y ∷ zs)) ys later in
    let list : ys ≡ y ∷ zs = cc in rw list (h x y first, each-Pairs P f h xs zs rest)

Pairs-map :
    {A B : Type 0} (P : A → B → Type 0) (g : B → A)
    → ((x : A) (y : B) → P x y → g y ≡ x)
    → (xs : List A) (ys : List B) → Pairs P xs ys
    → map g ys ≡ xs
unfolding Pairs
Pairs-map P g h [] [] p = refl
Pairs-map P g h [] (y ∷ ys) p = absurd p
Pairs-map P g h (x ∷ xs) [] p = absurd p
Pairs-map P g h (x ∷ xs) (y ∷ ys) p =
    ap (λ z. z ∷ map g ys) (h x y p.0) ∙ ap (◌∷◌ x) (Pairs-map P g h xs ys p.1)

Pairs-All :
    {A B : Type 0} (P : A → B → Type 0) (Q : B → Type 0)
    → ((x : A) (y : B) → P x y → Q y)
    → (xs : List A) (ys : List B) → Pairs P xs ys
    → All Q ys
unfolding Pairs
Pairs-All P Q h [] [] p = tt
Pairs-All P Q h [] (y ∷ ys) p = absurd p
Pairs-All P Q h (x ∷ xs) [] p = absurd p
Pairs-All P Q h (x ∷ xs) (y ∷ ys) p = (h x y p.0, Pairs-All P Q h xs ys p.1)

-- A collected graph is the one that was written, and its size is that of its header.
unfoldable pub IsInput : World → Key × Graph → Type 0
IsInput w g =
    (g.1 ≡ w.graph g.0)
    × (g.1.size
        ≡ 17
          + (if g.1.directed then 2 else 1)
            * ((g.1.nodes + 1) * 8 + g.1.edges * (if g.1.weighted then 8 else 4)))

-- The size of a graph by its header, written out.
expected_size_lem :
    (g : Graph)
    → expected_size g
      ≡ 17
        + (if g.directed then 2 else 1)
          * ((g.nodes + 1) * 8 + g.edges * (if g.weighted then 8 else 4))
unfolding expected_size edge_bytes directions
expected_size_lem g = elim (Bool-cases g.directed) [
  | inl d ↦ elim (Bool-cases g.weighted) [ inl e ↦ rw (d, e) refl | inr e ↦ rw (d, e) refl ]
  | inr d ↦ elim (Bool-cases g.weighted) [ inl e ↦ rw (d, e) refl | inr e ↦ rw (d, e) refl ]
]

Collected : World → Key → Key × Graph → Type 0
Collected w key g = (g.0 ≡ key) × IsInput w g

eq_of_test : (n m : ℕ) → (n == m) ≡ true → n ≡ m
eq_of_test n m h = ground (arith, h)

collect-Collected :
    (w : World) (key : Key) (g : Key × Graph) → collect w key ≡ done g → Collected w key g
unfolding collect Collected IsInput
collect-Collected w key g h =
    elim (Bool-cases ((w.graph key).size == expected_size (w.graph key))) [
      | inr e ↦ absurd (ground (arith, h, e))
      | inl e ↦
          let same : g ≡ (key, w.graph key) = cc (rw e at h) in
          rw same (
            refl,
            (
              refl,
              eq_of_test (w.graph key).size (expected_size (w.graph key)) e
                  ∙ expected_size_lem (w.graph key),
            ),
          )
    ]

twitter_graph-Collected :
    (w : World) (key : Key) (g : Key × Graph) → twitter_graph w key ≡ done g → Collected w key g
unfolding twitter_graph
twitter_graph-Collected w key g h =
    let (k, ran, found) = and_then-done (run w (Command.convert key) key) (collect w) g h in
    let same = run-done w (Command.convert key) key k ran in
    collect-Collected w key g (ap (collect w) same ∙ found)

gplus_graph-Collected :
    (w : World) (key : Key) (g : Key × Graph) → gplus_graph w key ≡ done g → Collected w key g
unfolding gplus_graph
gplus_graph-Collected w key g h =
    let (k, ran, found) =
      and_then-done (run w (Command.prepare key) key)
        (λ k. and_then (run w (Command.convert k) k) (collect w)) g h in
    let same = run-done w (Command.prepare key) key k ran in
    twitter_graph-Collected w key g (
      unfold twitter_graph in
      ap (λ k. and_then (run w (Command.convert k) k) (collect w)) same ∙ found)

map-append :
    (xs ys : List (Key × Graph))
    → map (λ g. g.0) (xs ++ ys) ≡ map (λ g. g.0) xs ++ map (λ g. g.0) ys
map-append [] ys = refl
map-append (x ∷ xs) ys = ap (◌∷◌ x.0) (map-append xs ys)

abbrev keys : List Key
keys = twitter_main ∷ twitter_tc ∷ gplus_bc ∷ gplus_sssp ∷ []

graphs-IsInput :
    (w : World) (gs : List (Key × Graph))
    → graphs w ≡ done gs
    → (map (λ g. g.0) gs ≡ keys) × All (IsInput w) gs
unfolding graphs Collected
graphs-IsInput w gs h =
    let (ts, first, later) =
      and_then-done (each (twitter_graph w) (twitter_main ∷ twitter_tc ∷ []))
        (λ ts. and_then (each (gplus_graph w) (gplus_bc ∷ gplus_sssp ∷ [])) (λ hs. done (ts ++ hs)))
        gs h in
    let (hs, second, whole) =
      and_then-done (each (gplus_graph w) (gplus_bc ∷ gplus_sssp ∷ [])) (λ hs. done (ts ++ hs)) gs
        later in
    let same : gs ≡ ts ++ hs = cc in
    let a =
      each-Pairs (Collected w) (twitter_graph w) (twitter_graph-Collected w)
        (twitter_main ∷ twitter_tc ∷ []) ts first in
    let b =
      each-Pairs (Collected w) (gplus_graph w) (gplus_graph-Collected w)
        (gplus_bc ∷ gplus_sssp ∷ []) hs second in
    rw same (
      map-append ts hs
          ∙ ap (λ l. l ++ map (λ g. g.0) hs)
              (Pairs-map (Collected w) (λ g. g.0) (λ x y p. p.0) _ ts a)
          ∙ ap (λ l. twitter_main ∷ twitter_tc ∷ l)
              (Pairs-map (Collected w) (λ g. g.0) (λ x y p. p.0) _ hs b),
      All-append (IsInput w) ts hs (Pairs-All (Collected w) (IsInput w) (λ x y p. p.1) _ ts a)
          (Pairs-All (Collected w) (IsInput w) (λ x y p. p.1) _ hs b),
    )

native_run-case :
    (w : World) (c : Workload × Key) (n : Native)
    → native_run w c ≡ done n
    → (n.workload, n.key) ≡ c
unfolding native_run
native_run-case w (workload, key) n h =
    let same = run-done w (Command.run_native workload) _ n h in rw (sym same) refl

-- Whether the digests that a second run compares are the same.
digests_same :
    (w : World) (gs : List (Key × Graph))
    → All (IsInput w) gs
    → all (λ (d : String × String). str_eq d.1 d.0) (map (λ g. (g.1.sha, (w.graph g.0).sha)) gs)
      ≡ true
unfolding all IsInput
digests_same w [] h = refl
digests_same w ((k, g) ∷ gs) h =
    let same : (str_eq (w.graph k).sha g.sha) ≡ true =
      ap (λ x. str_eq (w.graph k).sha x.sha) h.0.0 ∙ eq_refl (w.graph k).sha in
    rw same (digests_same w gs h.1)

-- A preparation that ends.
pub record IsPrepared (w : World) (m : Meta) : Type 0 where
  pub inputs_keys : map (λ g. g.0) m.inputs ≡ keys
  pub inputs : All (IsInput w) m.inputs
  pub natives :
      map {B = Workload × Key} (λ n. (n.workload, n.key)) m.native_memory
      ≡ (gapbs_bfs, twitter_main)
        ∷ (gapbs_cc, twitter_main)
        ∷ (gapbs_pr, twitter_main)
        ∷ (gapbs_tc, twitter_tc)
        ∷ (gapbs_bc, gplus_bc)
        ∷ (gapbs_sssp, gplus_sssp)
        ∷ []
  pub unused : contains w.taken m.attempt ≡ false
  pub again : prepare_inputs (saved_of w m) ≡ kept

made-IsPrepared :
    (w : World) (gs : List (Key × Graph)) (ns : List Native)
    → graphs w ≡ done gs
    → each (native_run w) native_cases ≡ done ns
    → IsPrepared w (record { attempt = next_attempt w.taken; inputs = gs; native_memory = ns })
unfolding prepare_inputs saved_of
made-IsPrepared w gs ns g n =
    let parts = graphs-IsInput w gs g in
    let natives =
      each-Pairs (λ c n. (n.workload, n.key) ≡ c) (native_run w) (native_run-case w) native_cases ns
        n in
    record {
      inputs_keys = parts.0;
      inputs = parts.1;
      natives =
          unfold native_cases in
          Pairs-map (λ c n. (n.workload, n.key) ≡ c) (λ n. (n.workload, n.key)) (λ c n e. e) _ ns
            natives;
      unused = (next_attempt-free w.taken).0;
      again = rw (digests_same w gs parts.1) refl;
    }

prepare_all-IsPrepared : (w : World) (m : Meta) → prepare_all w ≡ done m → IsPrepared w m
unfolding prepare_all
prepare_all-IsPrepared w m h =
    let (b, built, p) = and_then-done (run w build twitter_main) _ m h in
    let (s, selected, q) = and_then-done (run w select b) _ m p in
    let (gs, is_graphs, r) = and_then-done (graphs w) _ m q in
    let (ns, is_natives, last) = and_then-done (each (native_run w) native_cases) _ m r in
    let same : record { attempt = next_attempt w.taken; inputs = gs; native_memory = ns } ≡ m =
      cc last in
    subst (IsPrepared w) same (made-IsPrepared w gs ns is_graphs is_natives)

outcome_of-prepared : (s : Step Meta) (m : Meta) → outcome_of s ≡ prepared m → s ≡ done m
unfolding outcome_of
outcome_of-prepared (stopped e) m h = absurd (ground arith)
outcome_of-prepared (done n) m h = cc

prepare_new-IsPrepared : (w : World) (m : Meta) → prepare_new w ≡ prepared m → IsPrepared w m
unfolding prepare_new
prepare_new-IsPrepared w m h = prepare_all-IsPrepared w m (
    outcome_of-prepared (prepare_all w) m (
      two_tests (not w.storage_exists || ltb w.free (100 * 1024 ^ 3))
        (not (all (λ a. str_eq a.1 a.0) w.assets)) (outcome_of (prepare_all w)) h))
  where
    two_tests :
        (a b : Bool) (o : Outcome)
        → (if a then failed no_space else if b then failed source_changed else o) ≡ prepared m
        → o ≡ prepared m
    two_tests a b o h = ground arith

-- A preparation that ends has the four graphs in their order, each of the size that its header says
-- by the formula written out, and the six native runs in theirs, each on its graph, in an attempt directory that was not taken. Run again on the same
-- files it keeps them.
pub prepare_inputs-IsPrepared :
    (w : World) (m : Meta) → prepare_inputs w ≡ prepared m → IsPrepared w m
prepare_inputs-IsPrepared w m h = by_saved (w.saved) refl (unfold prepare_inputs in h)
  where
    by_saved :
        (o : Option (List (String × String)))
        → w.saved ≡ o
        → elim o [
          | some digests ↦ if all (λ d. str_eq d.1 d.0) digests then kept else failed input_changed
          | none ↦ prepare_new w
        ]
          ≡ prepared m
        → IsPrepared w m
    by_saved none e k = prepare_new-IsPrepared w m k
    by_saved (some digests) e k = absurd (kept_or (all (λ d. str_eq d.1 d.0) digests) k)
      where
        kept_or : (b : Bool) → (if b then kept else failed input_changed) ≡ prepared m → ⊥
        kept_or b k = ground arith
