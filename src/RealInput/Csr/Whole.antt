-- ===== src/RealInput/Csr/Whole.antt =====
-- The graph that `induce` writes, read again: the whole of it is what was written.
use memory_tiering.Prelude.{
  ℕ, ◌+◌, ◌-◌, ◌*◌, ◌<◌, ◌≡◌, refl, sym, ap, ◌∙◌, List, [], ◌∷◌, ◌++◌, Bool, true, false, map, ◌==◌,
  if◌then◌else◌, not, ◌||◌, length, length-append, take, arith,
}
use mathlib.Core.Path.{subst}
use mathlib.Core.List.{append_assoc}
use memory_tiering.Prelude.Int.{pos, pos_part, ltb_ℤ}
use memory_tiering.RealInput.Csr.{
  mixed, selected_nodes, Source, Error, bad_header, bad_size, invalid_offsets, empty_selection,
  offsets_valid, offset_at, row_of, Rows, refused, rows, cons_row, induced_rows, offsets_of,
  entries_of, Induced, Outcome, failed, induced, written, induce,
}
use memory_tiering.RealInput.Csr.Laws.{flat, source_of, AreRows, induced_rows-AreRows}
use memory_tiering.RealInput.Csr.Layout.{
  up, selected_from-up, length-up, retained-up, in_range, offset_at-append, offsets_valid-written,
  flat-append, length-flat, drop-map-append, take-map-append,
}

module _ (g : Induced) (offsets_eq : g.offsets ≡ offsets_of 0 g.adjacency) where
  offset_at-written :
      (done rest : List (List ℕ))
      → g.adjacency ≡ done ++ rest
      → offset_at (map pos g.offsets) (length done) ≡ entries_of done
  offset_at-written done rest e = rw (offsets_eq, e) (offset_at-append 0 done rest ∙ omega arith)

  entries_of-snoc :
      (done : List (List ℕ)) (r : List ℕ) → entries_of (done ++ r ∷ []) ≡ entries_of done + length r
  unfolding entries_of
  entries_of-snoc [] r = omega arith
  entries_of-snoc (d ∷ done) r = omega (arith, entries_of-snoc done r)

  row_of-written :
      (done rest : List (List ℕ)) (r : List ℕ)
      → g.adjacency ≡ done ++ r ∷ rest
      → row_of (source_of g) (length done) ≡ map pos r
  unfolding row_of source_of flat
  row_of-written done rest r e =
      let start = offset_at-written done (r ∷ rest) e in
      let size : length (done ++ r ∷ []) ≡ length done + 1 =
        length-append done (r ∷ []) ∙ omega arith in
      let until : offset_at (map pos g.offsets) (length done + 1) ≡ entries_of done + length r =
        ap (offset_at (map pos g.offsets)) (sym size)
        ∙ offset_at-written (done ++ r ∷ []) rest (e ∙ sym (append_assoc done (r ∷ []) rest))
        ∙ entries_of-snoc done r in
      let width : (entries_of done + length r) - entries_of done ≡ length r = omega arith in
      let all_flat : flat g.adjacency ≡ flat done ++ (r ++ flat rest) =
        ap flat e ∙ flat-append done (r ∷ rest) in
      rw (start, until, width, all_flat)
        (ap (take (length r))
            (drop-map-append (entries_of done) (flat done) (r ++ flat rest) (length-flat done))
          ∙ take-map-append (length r) r (flat rest) refl)

  induced_rows-written :
      (n : ℕ) (done rest : List (List ℕ))
      → g.nodes ≡ n
      → g.adjacency ≡ done ++ rest
      → AreRows n (length done) rest
      → induced_rows (source_of g) (up 0 n) (length done) (up (length done) (length rest))
        ≡ rows rest
  unfolding induced_rows AreRows up cons_row source_of
  induced_rows-written n done [] k e h = refl
  induced_rows-written n done (r ∷ rest) k e h =
      let size : length (done ++ r ∷ []) ≡ length done + 1 =
        length-append done (r ∷ []) ∙ omega arith in
      let later : induced_rows (source_of g) (up 0 n) (length done + 1)
            (up (length done + 1) (length rest))
          ≡ rows rest =
        ap (λ i. induced_rows (source_of g) (up 0 n) i (up i (length rest))) (sym size)
        ∙ induced_rows-written n (done ++ r ∷ []) rest k (e ∙ sym (append_assoc done (r ∷ []) rest))
            (subst (λ i. AreRows n i rest) (sym size) h.1) in
      rw
        (
          row_of-written done rest r e,
          retained-up n r h.0.bounded,
          k,
          in_range n r h.0.bounded,
          h.0.increasing,
          h.0.loop_free,
          later,
        )
        refl

-- The graph that is written of some rows.
unfoldable pub graph_of : ℕ → List (List ℕ) → Induced
graph_of n rs = record {
  nodes = n;
  directed_entries = entries_of rs;
  offsets = offsets_of 0 rs;
  adjacency = rs;
  bytes = 17 + (n + 1) * 8 + entries_of rs * 4;
}

written-graph_of :
    (chosen : List ℕ) (r : Rows) (g : Induced)
    → written chosen r ≡ induced g
    → (rs : List (List ℕ)) × (r ≡ rows rs) × (g ≡ graph_of (length chosen) rs)
unfolding written graph_of
written-graph_of chosen (refused e) g h = absurd (ground arith)
written-graph_of chosen (rows rs) g h = (rs, refl, cc)

four_tests :
    (a b c d : Bool) (e f k l : Error) (o : Outcome) (g : Induced)
    → (if a
        then failed e
        else if b
        then failed f
        else if c
        then failed k
        else if d
        then failed l
        else o)
      ≡ induced g
    → (d ≡ false) × (o ≡ induced g)
four_tests a b c d e f k l o g h = ground arith

induce-written :
    (s : Source) (denominator : ℕ) (g : Induced)
    → induce s denominator ≡ induced g
    → (chosen : List ℕ) × (0 < length chosen)
      × (written chosen (induced_rows s chosen 0 chosen) ≡ induced g)
unfolding induce
induce-written s denominator g h =
    let chosen = selected_nodes (pos_part s.nodes) denominator in
    let (some_chosen, is_written) =
      four_tests (s.directed || not (ltb_ℤ (pos 0) s.nodes) || ltb_ℤ s.edges (pos 0))
        (not (s.size == 17 + (pos_part s.nodes + 1) * 8 + pos_part s.edges * 4))
        (not (offsets_valid s.offsets s.edges)) (length chosen == 0) bad_header bad_size
        invalid_offsets empty_selection (written chosen (induced_rows s chosen 0 chosen)) g h in
    (chosen, ground (arith, some_chosen), is_written)

module _ (n : ℕ) (rs : List (List ℕ)) (positive : 0 < n) (size : length rs ≡ n) where
  selected_nodes-up : selected_nodes n 1 ≡ up 0 n
  unfolding selected_nodes
  selected_nodes-up = selected_from-up mixed 0 n

  induce-graph_of : AreRows n 0 rs → induce (source_of (graph_of n rs)) 1 ≡ induced (graph_of n rs)
  unfolding induce source_of graph_of
  induce-graph_of h =
      let header : (false || not (ltb_ℤ (pos 0) (pos n)) || ltb_ℤ (pos (entries_of rs)) (pos 0))
          ≡ false =
        ground (arith, positive) in
      let bytes : (17 + (n + 1) * 8 + entries_of rs * 4 == 17 + (n + 1) * 8 + entries_of rs * 4)
          ≡ true =
        ground arith in
      let nonempty : (n == 0) ≡ false = ground (arith, positive) in
      let all_rows : induced_rows (source_of (graph_of n rs)) (up 0 n) 0 (up 0 n) ≡ rows rs =
        ap (λ k. induced_rows (source_of (graph_of n rs)) (up 0 n) 0 (up 0 k)) (sym size)
        ∙ induced_rows-written (graph_of n rs) refl n [] rs refl refl h in
      rw (header, bytes, offsets_valid-written rs, selected_nodes-up, length-up 0 n, nonempty)
        (ap (written (up 0 n)) all_rows ∙ (unfold written in rw (length-up 0 n) refl))

-- A graph that is written is not empty, and each of its rows is increasing, within the graph and free
-- of its own index. Read again as a source, it passes every check, and the whole of it is what was
-- written.
pub induce-source_of :
    (s : Source) (denominator : ℕ) (g : Induced)
    → induce s denominator ≡ induced g
    → (0 < g.nodes) × AreRows g.nodes 0 g.adjacency × (induce (source_of g) 1 ≡ induced g)
unfolding graph_of
induce-source_of s denominator g h =
    let (chosen, positive, is_written) = induce-written s denominator g h in
    let (rs, is_rows, same) =
      written-graph_of chosen (induced_rows s chosen 0 chosen) g is_written in
    let (size, valid) = induced_rows-AreRows s chosen chosen 0 rs is_rows in
    rw same (positive, valid, induce-graph_of (length chosen) rs positive size valid)
