-- ===== src/Turnover/Laws.antt =====
-- What the turnover analysis reports, whatever the trace.
use memory_tiering.Prelude.{
  ℕ, Bool, ◌-◌, ◌%◌, ◌^◌, ◌<◌, ◌≤◌, ◌≡◌, ◌⊎◌, refl, ap, List, [], ◌∷◌, ◌++◌, true, false, Option,
  some, none, map, ◌==◌, filter, take, length, length-take, length-filter, count_if-le, contains,
  to_set, sum_by, sum_by-filter-le, All, Bool-cases, Option-cases, inl, inr, arith,
}
use memory_tiering.Prelude.Int.{ℤ, pos, negsuc, neg_part, ◌≤ℤ◌}
use memory_tiering.Numpy.{Numpy, RowLe}
use memory_tiering.Trace.{Record, accesses, in_epoch}
use memory_tiering.Trace.Load.{PagesFile, Loaded, load_pages, load_pages-records}
use memory_tiering.Placement.Optimal.{
  Distinct, count-contains-le, filter-le-top, top-le-filter, length-map,
}
use memory_tiering.Study.Laws.{DistinctWindows}
use memory_tiering.Turnover.{
  Quotient, int64, int64_sum, hotness, is_zero, top_k_of_epoch, Change, landed, share, change,
  add_change, changes, turnover, analyse, analyse_records, analyse_epochs, analyse_changes,
}

-- A share that is at most another, of the same whole, which is at most one.
abbrev pub ShareLe : Option Quotient → Option Quotient → Type 0
ShareLe none none = Unit
ShareLe (some a) (some b) = (pos 0 ≤ℤ a.num) × (a.num ≤ℤ b.num) × (b.num ≤ℤ b.den) × (a.den ≡ b.den)
ShareLe none (some b) = ⊥
ShareLe (some a) none = ⊥

-- Retention and Jaccard index are at most one, and coverage at most concentration.
pub record IsShare (c : Change) : Type 0 where
  pub retention : c.retention.num ≤ c.retention.den
  pub jaccard : c.jaccard.num ≤ c.jaccard.den
  pub staleness : ShareLe c.coverage c.concentration

-- The two ways to a list of pages: no rows, or the first `k` of the descending order.
abbrev hottest : Numpy → List Record → ℕ → List ℕ
hottest np rows k = map (λ r. r.page) (take k (np.lexsort (λ r. r.page) hotness rows))

top_k-cases :
    (np : Numpy) (rows : List Record) (k : ℕ) (pages : List ℕ)
    → top_k_of_epoch np rows k ≡ some pages
    → ((rows ≡ []) × (pages ≡ [])) ⊎ (pages ≡ hottest np rows k)
unfolding top_k_of_epoch
top_k-cases np [] k pages h = inl (refl, ground arith)
top_k-cases np (r ∷ rows) k pages h = elim (Bool-cases (k == 0)) [
  | inl e ↦ absurd (ground arith)
  | inr e ↦ inr (ground arith)
]

top_k-le :
    (np : Numpy) (rows : List Record) (k : ℕ) (pages : List ℕ)
    → top_k_of_epoch np rows k ≡ some pages
    → length pages ≤ k
top_k-le np rows k pages h = elim (top_k-cases np rows k pages h) [
  | inl (_, e) ↦ rw e (omega arith)
  | inr e ↦
      let top = take k (np.lexsort (λ (r : Record). r.page) hotness rows) in
      rw e (
        omega (
          arith,
          length-map (λ (r : Record). r.page) top,
          length-take k (np.lexsort (λ (r : Record). r.page) hotness rows),
        ))
]

-- The accesses of the rows whose page is given, as a number without wrap-around.
abbrev caught_by : List ℕ → List Record → ℕ
caught_by pages rows = sum_by accesses (filter (λ r. contains pages r.page) rows)

-- What `hotness` sorts by: the accesses of a record of fewer than 2 ^ 63.
abbrev heat : Record → ℕ
heat r = neg_part (hotness r)

heat_lem : (r : Record) → accesses r < 2 ^ 63 → heat r ≡ accesses r
unfolding hotness
heat_lem r h = int64_neg (accesses r) h
  where
    int64_neg : (x : ℕ) → x < 2 ^ 63 → neg_part (int64 ((2 ^ 64 - x) % 2 ^ 64)) ≡ x
    int64_neg x h =
        unfold int64 in
        (elim (Bool-cases (x == 0)) [
          | inl e ↦ let z : x ≡ 0 = ground (arith, e) in rw z refl
          | inr e ↦
              let p : (2 ^ 64 - x) % 2 ^ 64 ≡ 2 ^ 64 - x = ground (arith, e, h) in
              rw p (ground (arith, e, h))
        ])

neg_part-falls : (z w : ℤ) → z ≤ℤ w → neg_part w ≤ neg_part z
neg_part-falls (pos a) (pos b) h = omega arith
neg_part-falls (pos a) (negsuc b) h = absurd (omega (arith, h))
neg_part-falls (negsuc a) (pos b) h = omega arith
neg_part-falls (negsuc a) (negsuc b) h = omega (arith, h)

heat-falls : (a b : Record) → RowLe (λ r. r.page) hotness a b → heat b ≤ heat a
heat-falls a b (inl p) = neg_part-falls (hotness a) (hotness b) (omega (arith, p))
heat-falls a b (inr (e, p)) = neg_part-falls (hotness a) (hotness b) (rw e (omega arith))

sum_by-heat :
    (p : Record → Bool) (rows : List Record)
    → sum_by accesses rows < 2 ^ 63
    → sum_by heat (filter p rows) ≡ sum_by accesses (filter p rows)
unfolding sum_by filter
sum_by-heat p [] h = refl
sum_by-heat p (r ∷ rows) h =
    let here : heat r ≡ accesses r = heat_lem r (omega (arith, h)) in
    let later = sum_by-heat p rows (omega (arith, h)) in
    elim (Bool-cases (p r)) [ inl e ↦ rw e (omega (arith, here, later)) | inr e ↦ rw e later ]

-- The pages that a window selects itself catch at least what any k pages catch of it.
caught_by-le-own :
    (np : Numpy) (rows : List Record) (k : ℕ) (own pages : List ℕ)
    → Distinct (λ r. r.page) rows
    → sum_by accesses rows < 2 ^ 63
    → top_k_of_epoch np rows k ≡ some own
    → length pages ≤ k
    → caught_by pages rows ≤ caught_by own rows
caught_by-le-own np rows k own pages d total h le = elim (top_k-cases np rows k own h) [
  | inl (e, _) ↦ rw e (unfold filter sum_by in omega arith)
  | inr e ↦ rw e (
      omega (
        arith,
        filter-le-top np (λ (r : Record). r.page) heat hotness rows heat-falls
            (λ r. contains pages r.page) k
            (omega (arith, count-contains-le (λ (r : Record). r.page) pages rows d)),
        top-le-filter np (λ (r : Record). r.page) heat hotness rows heat-falls k,
        sum_by-heat (λ r. contains pages r.page) rows total,
        sum_by-heat (λ r. contains (hottest np rows k) r.page) rows total,
      ))
]

int64_small : (x : ℕ) → x < 2 ^ 63 → int64 (x % 2 ^ 64) ≡ pos x
unfolding int64
int64_small x h = let p : x % 2 ^ 64 ≡ x = omega (arith, h) in rw p (ground (arith, h))

share-ShareLe :
    (pa pb : List ℕ) (rows : List Record)
    → sum_by accesses rows < 2 ^ 63
    → caught_by pa rows ≤ caught_by pb rows
    → ShareLe (share pa rows) (share pb rows)
unfolding share landed int64_sum is_zero
share-ShareLe pa pb rows total h =
    let bound = sum_by-filter-le accesses (λ r. contains pb r.page) rows in
    let whole = int64_small (sum_by accesses rows) total in
    let a = int64_small (caught_by pa rows) (omega (arith, total, h, bound)) in
    let b = int64_small (caught_by pb rows) (omega (arith, total, bound)) in
    rw (whole, a, b)
      (elim (Bool-cases (sum_by accesses rows == 0)) [
        | inl e ↦ rw e tt
        | inr e ↦ rw e (omega arith, omega (arith, h), omega (arith, bound), refl)
      ])

absent-All : (x : ℕ) (xs : List ℕ) → contains xs x ≡ false → All (λ b. (x == b) ≡ false) xs
unfolding contains
absent-All x [] h = tt
absent-All x (y ∷ ys) h = (ground arith, absent-All x ys (ground arith))

All-absent : (x : ℕ) (xs : List ℕ) → All (λ b. (x == b) ≡ false) xs → contains xs x ≡ false
unfolding contains
All-absent x [] h = refl
All-absent x (y ∷ ys) h = ground (arith, All-absent x ys h.1)

to_set-Distinct : (xs : List ℕ) → Distinct (λ x. x) (to_set xs)
unfolding to_set
to_set-Distinct [] = tt
to_set-Distinct (x ∷ xs) = elim (Bool-cases (contains (to_set xs) x)) [
  | inl e ↦ rw e (to_set-Distinct xs)
  | inr e ↦ rw e (absent-All x (to_set xs) e, to_set-Distinct xs)
]

to_set_of_Distinct : (xs : List ℕ) → Distinct (λ x. x) xs → to_set xs ≡ xs
unfolding to_set
to_set_of_Distinct [] d = refl
to_set_of_Distinct (x ∷ xs) d = rw (to_set_of_Distinct xs d.1, All-absent x xs d.0)

length-to_set_suffix : (xs ys : List ℕ) → length (to_set ys) ≤ length (to_set (xs ++ ys))
unfolding to_set
length-to_set_suffix [] ys = omega arith
length-to_set_suffix (x ∷ xs) ys = ground (arith, length-to_set_suffix xs ys)

change-IsShare :
    (pa pb : List ℕ) (rows : List Record)
    → sum_by accesses rows < 2 ^ 63
    → caught_by pa rows ≤ caught_by pb rows
    → IsShare (change pa pb rows)
unfolding change
change-IsShare pa pb rows total h = record {
  retention = omega (
    arith,
    length-filter (contains (to_set pb)) (to_set pa),
    count_if-le (contains (to_set pb)) (to_set pa),
  );
  jaccard = omega (
    arith,
    length-filter (contains (to_set pb)) (to_set pa),
    count-contains-le (λ (x : ℕ). x) (to_set pb) (to_set pa) (to_set-Distinct pa),
    length-to_set_suffix (to_set pa) (to_set pb),
    ap (length {A = ℕ}) (to_set_of_Distinct (to_set pb) (to_set-Distinct pb)),
  );
  staleness = share-ShareLe pa pb rows total h;
}

add_change-IsShare :
    (pa pb : List ℕ) (rows : List Record) (rest : Option (List Change)) (cs : List Change)
    → sum_by accesses rows < 2 ^ 63
    → caught_by pa rows ≤ caught_by pb rows
    → ((ds : List Change) → rest ≡ some ds → All IsShare ds)
    → add_change pa pb rows rest ≡ some cs
    → All IsShare cs
unfolding add_change
add_change-IsShare [] pb rows rest cs total le ih h = ih cs h
add_change-IsShare (p ∷ pa) [] rows rest cs total le ih h = ih cs h
add_change-IsShare (p ∷ pa) (q ∷ pb) rows none cs total le ih h = absurd (cc)
add_change-IsShare (p ∷ pa) (q ∷ pb) rows (some ds) cs total le ih h =
    let e : cs ≡ change (p ∷ pa) (q ∷ pb) rows ∷ ds = cc in
    rw e (change-IsShare (p ∷ pa) (q ∷ pb) rows total le, ih ds refl)

-- No window has 2 ^ 63 accesses or more.
abbrev pub SmallWindows : List Record → Type 0
SmallWindows recs = (e : ℕ) → sum_by accesses (in_epoch recs e) < 2 ^ 63

changes-IsShare :
    (np : Numpy) (k : ℕ) (recs : List Record) (a : ℕ) (later : List ℕ) (cs : List Change)
    → DistinctWindows recs
    → SmallWindows recs
    → changes np k recs a later ≡ some cs
    → All IsShare cs
unfolding changes
changes-IsShare np k recs a [] cs d small h = let e : cs ≡ [] = cc in rw e tt
changes-IsShare np k recs a (b ∷ later) cs d small h =
    elim (Option-cases (top_k_of_epoch np (in_epoch recs a) k)) [
      | inl e ↦ absurd (ground arith)
      | inr (pa, ea) ↦ elim (Option-cases (top_k_of_epoch np (in_epoch recs b) k)) [
        | inl e ↦ absurd (ground arith)
        | inr (pb, eb) ↦
            add_change-IsShare pa pb (in_epoch recs b) (changes np k recs b later) cs (small b)
              (caught_by-le-own np (in_epoch recs b) k pb pa (d b) (small b) eb
                (top_k-le np (in_epoch recs a) k pa ea))
              (λ ds e. changes-IsShare np k recs b later ds d small e) (ground arith)
      ]
    ]

analyse_changes-turnover :
    (n m : ℕ) (o : Option (List Change)) (cs : List Change)
    → analyse_changes n o ≡ turnover m cs
    → o ≡ some cs
unfolding analyse_changes
analyse_changes-turnover n m none cs h = absurd (cc)
analyse_changes-turnover n m (some []) cs h = absurd (cc)
analyse_changes-turnover n m (some (c ∷ ds)) cs h = cc

analyse_epochs-IsShare :
    (np : Numpy) (k : ℕ) (recs : List Record) (es : List ℕ) (n : ℕ) (cs : List Change)
    → DistinctWindows recs
    → SmallWindows recs
    → analyse_epochs np k recs es ≡ turnover n cs
    → All IsShare cs
unfolding analyse_epochs
analyse_epochs-IsShare np k recs [] n cs d small h = absurd (cc)
analyse_epochs-IsShare np k recs (a ∷ []) n cs d small h = absurd (cc)
analyse_epochs-IsShare np k recs (a ∷ b ∷ later) n cs d small h =
    changes-IsShare np k recs a (b ∷ later) cs d small (analyse_changes-turnover _ n _ cs h)

-- When no page is recorded twice in a window and every window has fewer than 2 ^ 63 accesses, so that the
-- int64 sums of the source do not wrap, every pair of windows that a completed analysis
-- reports has a retention and a Jaccard index of at most one, and what the pages of the window
-- before catch is at most what the window's own pages catch, which is at most all of it: coverage
-- is at most concentration, so acting a window late never gains.
pub analyse-IsShare :
    (np : Numpy) (file : PagesFile) (k n : ℕ) (cs : List Change)
    → DistinctWindows file.records
    → SmallWindows file.records
    → analyse np file k ≡ turnover n cs
    → All IsShare cs
unfolding analyse
analyse-IsShare np file k n cs d small h = go (load_pages file true false) refl h
  where
    go :
        (r : Loaded)
        → load_pages file true false ≡ r
        → analyse_records np k r ≡ turnover n cs
        → All IsShare cs
    go (Loaded.loaded recs) e h = elim (Bool-cases (length recs == 0)) [
      | inl z ↦ absurd (unfold analyse_records in ground arith)
      | inr s ↦
          analyse_epochs-IsShare np k recs (np.unique (map (λ r. r.epoch) recs)) n cs
            (rw (load_pages-records file false recs e) d)
            (rw (load_pages-records file false recs e) small)
            (unfold analyse_records in ground arith)
    ]
    go _ e h = absurd (unfold analyse_records in cc)
