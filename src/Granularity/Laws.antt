-- ===== src/Granularity/Laws.antt =====
-- What the sweep reports at every page size: the regions of the trace, and their touched words.
use memory_tiering.Prelude.{
  ℕ, ◌+◌, ◌*◌, ◌/◌, ◌^◌, ◌<◌, ◌≡◌, refl, sym, ap, ◌∙◌, inl, inr, List, [], ◌∷◌, Bool, true, false,
  map, ltb, leb, ◌==◌, any, length, filter, sum_by, count_if, sum_by-perm, sum_by-filter-perm, All,
  All-append, All-perm, Sorted, Permᴰ, Bool-cases, arith,
}
use memory_tiering.Prelude.Int.{pos}
use memory_tiering.Numpy.{Numpy}
use memory_tiering.Trace.{Record}
use memory_tiering.Placement.Optimal.{length-map}
use memory_tiering.Granularity.{
  coarsen_popcount, big, group_totals, totals_of, Cell, sorted_records, cell, cells_of_page,
  cells_of_pages, sweep_records, page_sizes, word_sizes,
}
use memory_tiering.Granularity.Words.{slots_of, coarsen_popcount-slots}
use memory_tiering.Granularity.Regions.{in_region, region_total, totals_of-AreRegions}

-- The records of a trace as the source holds them: the mask is a uint64.
abbrev pub SmallMasks : List Record → Type 0
SmallMasks recs = All (λ r. r.mask < 2 ^ 64) recs

-- The words of a size that a record touches.
abbrev pub slots : ℕ → Record → ℕ
slots word_size r = slots_of word_size r.mask

-- A reported cell, with a record for each region of the trace. Its pages are as many as the regions,
-- and no two of these are the same. Its touched words are those of all records, and the regions that it
-- reports as sparse are those of which at most a quarter of the words is touched.
pub record IsComplete (recs : List Record) (c : Cell) : Type 0 where
  pub regions : List Record
  pub apart : Sorted (λ a b. in_region c.page_bytes a b ≡ false) regions
  pub every : All (λ r. any (λ a. in_region c.page_bytes a r) regions ≡ true) recs
  pub pages : c.pages ≡ length regions
  pub touched : c.touched ≡ sum_by (slots c.word_bytes) recs
  pub sparse :
      c.sparse
      ≡ count_if
          (λ a.
            leb
              (region_total c.page_bytes (slots c.word_bytes) a recs * 4)
              (c.page_bytes / c.word_bytes))
          regions
  pub smaller : c.word_bytes < c.page_bytes

module _ (f g : Record → ℕ) where
  sum_by-agree : (recs : List Record) → All (λ r. f r ≡ g r) recs → sum_by f recs ≡ sum_by g recs
  unfolding sum_by
  sum_by-agree [] h = refl
  sum_by-agree (r ∷ rs) h = omega (arith, h.0, sum_by-agree rs h.1)

  filter-agree :
      (p : Record → Bool) (recs : List Record)
      → All (λ r. f r ≡ g r) recs
      → All (λ r. f r ≡ g r) (filter p recs)
  unfolding filter
  filter-agree p [] h = tt
  filter-agree p (r ∷ rs) h = elim (Bool-cases (p r)) [
    | inl e ↦ rw e (h.0, filter-agree p rs h.1)
    | inr e ↦ rw e (filter-agree p rs h.1)
  ]

  map-total-agree :
      (page_size : ℕ) (recs as_sorted regions : List Record)
      → All (λ r. f r ≡ g r) as_sorted
      → Permᴰ as_sorted recs
      → map (λ a. region_total page_size f a as_sorted) regions
        ≡ map (λ a. region_total page_size g a recs) regions
  unfolding region_total
  map-total-agree page_size recs sorted [] h p = refl
  map-total-agree page_size recs sorted (a ∷ regions) h p =
      let q = in_region page_size a in
      let here =
        sum_by-agree (filter q sorted) (filter-agree q sorted h) ∙ sum_by-filter-perm g q p in
      rw (here, map-total-agree page_size recs sorted regions h p) refl

count_if-map :
    (p : ℕ → Bool) (g : Record → ℕ) (rs : List Record)
    → count_if p (map g rs) ≡ count_if (λ a. p (g a)) rs
unfolding count_if
count_if-map p g [] = refl
count_if-map p g (r ∷ rs) = omega (arith, count_if-map p g rs)

module _ (touched : Record → ℕ) (page_size : ℕ) where
  group_totals_sum :
      (so_far : ℕ) (last : Record) (rs : List Record)
      → sum_by (λ t. t) (group_totals touched page_size so_far last rs) ≡ so_far + sum_by touched rs
  unfolding group_totals sum_by
  group_totals_sum so_far last [] = omega arith
  group_totals_sum so_far last (r ∷ rs) =
      ground (arith, group_totals_sum (so_far + touched r) r rs, group_totals_sum (touched r) r rs)

  totals_of_sum :
      (rs : List Record) → sum_by (λ t. t) (totals_of touched page_size rs) ≡ sum_by touched rs
  unfolding totals_of sum_by
  totals_of_sum [] = refl
  totals_of_sum (r ∷ rs) = group_totals_sum (touched r) r rs

perm_back : {xs ys : List Record} → Permᴰ xs ys → Permᴰ ys xs
perm_back Permᴰ.nil = Permᴰ.nil
perm_back (Permᴰ.cons e p) = Permᴰ.cons (sym e) (perm_back p)
perm_back (Permᴰ.swap e f) = Permᴰ.swap (sym f) (sym e)
perm_back (Permᴰ.trans p q) = Permᴰ.trans (perm_back q) (perm_back p)

-- The cell of a word size that the source's count gets right.
cell-IsComplete :
    (np : Numpy) (recs : List Record) (page_size word_size : ℕ)
    → All (λ r. coarsen_popcount np word_size r.mask ≡ slots word_size r) recs
    → ltb word_size page_size ≡ true
    → IsComplete recs (cell np recs page_size word_size)
unfolding cell sorted_records
cell-IsComplete np recs page_size word_size agree h =
    let f : Record → ℕ = λ r. coarsen_popcount np word_size r.mask in
    let g : Record → ℕ = slots word_size in
    let sorted = np.lexsort (big page_size) (λ r. pos r.epoch) recs in
    let perm = np.lexsort_perm (big page_size) (λ r. pos r.epoch) recs in
    let (regions, a) =
      totals_of-AreRegions page_size f sorted
        (np.lexsort_sorted (big page_size) (λ r. pos r.epoch) recs) in
    let sorted_agree = All-perm (λ (r : Record). f r ≡ g r) (perm_back perm) agree in
    let totals =
      a.totals_are ∙ map-total-agree f g page_size recs sorted regions sorted_agree perm in
    record {
      regions = regions;
      apart = a.apart;
      every = All-perm (λ r. any (λ b. in_region page_size b r) regions ≡ true) perm a.every;
      pages =
          ap (length {A = ℕ}) totals ∙ length-map (λ b. region_total page_size g b recs) regions;
      touched = totals_of_sum f page_size sorted ∙ sum_by-perm f perm ∙ sum_by-agree f g recs agree;
      sparse =
          ap (count_if (λ t. leb (t * 4) (page_size / word_size))) totals
          ∙ count_if-map (λ t. leb (t * 4) (page_size / word_size))
              (λ b. region_total page_size g b recs) regions;
      smaller = ground (arith, h);
    }

-- The word sizes at which the count of the source is that of the touched words.
abbrev Agrees : Numpy → List Record → ℕ → Type 0
Agrees np recs ws = All (λ r. coarsen_popcount np ws r.mask ≡ slots ws r) recs

Agrees-All : (np : Numpy) (recs : List Record) → SmallMasks recs → All (Agrees np recs) word_sizes
unfolding word_sizes
Agrees-All np [] m = (tt, (tt, (tt, (tt, (tt, (tt, (tt, tt)))))))
Agrees-All np (r ∷ rs) m =
    let (a, (b, (c, (d, (e, (f, (g, _))))))) = coarsen_popcount-slots np r.mask m.0 in
    let (p, (q, (s, (t, (u, (v, (w, _))))))) = Agrees-All np rs m.1 in
    ((a, p), ((b, q), ((c, s), ((d, t), ((e, u), ((f, v), ((g, w), tt)))))))

module _ (np : Numpy) (recs : List Record) (small : SmallMasks recs) where
  cells-IsComplete :
      (page_size : ℕ) (sizes : List ℕ)
      → All (Agrees np recs) sizes
      → All (IsComplete recs) (map (cell np recs page_size) (filter (λ ws. ltb ws page_size) sizes))
  unfolding filter
  cells-IsComplete page_size [] a = tt
  cells-IsComplete page_size (ws ∷ sizes) a = elim (Bool-cases (ltb ws page_size)) [
    | inl e ↦
        rw e (cell-IsComplete np recs page_size ws a.0 e, cells-IsComplete page_size sizes a.1)
    | inr e ↦ rw e (cells-IsComplete page_size sizes a.1)
  ]

  cells_of_pages-IsComplete : (ps : List ℕ) → All (IsComplete recs) (cells_of_pages np recs ps)
  unfolding cells_of_pages cells_of_page
  cells_of_pages-IsComplete [] = tt
  cells_of_pages-IsComplete (p ∷ ps) =
      All-append (IsComplete recs) (map (cell np recs p) (filter (λ ws. ltb ws p) word_sizes))
        (cells_of_pages np recs ps) (cells-IsComplete p word_sizes (Agrees-All np recs small))
        (cells_of_pages-IsComplete ps)

  pub sweep_records-IsComplete : All (IsComplete recs) (sweep_records np recs)
  unfolding sweep_records
  sweep_records-IsComplete = elim (Bool-cases (length recs == 0)) [
    | inl e ↦ rw (e, sweep_records) tt
    | inr e ↦ rw (e, sweep_records) (cells_of_pages-IsComplete page_sizes)
  ]
