-- ===== src/Gplus/Laws.antt =====
-- The selection against its description on parsed rows, and the count of a published snapshot.
use memory_tiering.Prelude.{
  ℕ, ◌+◌, ◌≡◌, ◌⊎◌, refl, ap, sym, ◌∙◌, inl, inr, List, [], ◌∷◌, ◌++◌, map, Bool, true, false, some,
  if◌then◌else◌, ltb, ◌==◌, Bool-cases, arith, filter, length,
}
use memory_tiering.Prelude.Int.{ℤ}
use memory_tiering.Gplus.{
  Edge, parse_row, Selection, Selected, bad_row, selected, scan_edge, scan, nothing_yet,
  select_edges, expected, Archive, published, count_differs, prepare, publish, from_members,
  from_archive,
}

-- Row for row, the edges that the rows are.
abbrev pub Parses : List (List ℤ) → List Edge → Type 0
Parses [] [] = Unit
Parses (row ∷ rows) (e ∷ es) = (parse_row row ≡ some e) × Parses rows es
Parses [] (e ∷ es) = ⊥
Parses (row ∷ rows) [] = ⊥

-- The edges of a snapshot: those before its time.
unfoldable pub snapshot_edges : ℕ → List Edge → List Edge
snapshot_edges snapshot es = filter (λ e. ltb e.timestamp snapshot) es

abbrev pub ends : Edge → ℕ × ℕ
ends e = (e.u, e.v)

-- What a scan adds to a selection.
record Adds (snapshot : ℕ) (s : Selection) (es : List Edge) (t : Selection) : Type 0 where
  pub target : t.target ≡ s.target ++ map ends (snapshot_edges snapshot es)
  pub input : t.input_edges ≡ s.input_edges + length es
  pub kept : t.selected_edges ≡ s.selected_edges + length (snapshot_edges snapshot es)

append_assoc : (xs ys zs : List (ℕ × ℕ)) → (xs ++ ys) ++ zs ≡ xs ++ (ys ++ zs)
append_assoc [] ys zs = refl
append_assoc (x ∷ xs) ys zs = ap (◌∷◌ x) (append_assoc xs ys zs)

append_nil : (xs : List (ℕ × ℕ)) → xs ++ [] ≡ xs
append_nil [] = refl
append_nil (x ∷ xs) = ap (◌∷◌ x) (append_nil xs)

scan_edge-Adds :
    (snapshot : ℕ) (s : Selection) (e : Edge) (es : List Edge) (t : Selection)
    → Adds snapshot (scan_edge snapshot s e) es t
    → Adds snapshot s (e ∷ es) t
unfolding scan_edge snapshot_edges filter
scan_edge-Adds snapshot s e es t a = elim (Bool-cases (ltb e.timestamp snapshot)) [
  | inl b ↦ record {
    target = rw b (rw b at a.target ∙ append_assoc s.target (ends e ∷ []) _);
    input = rw b at a.input ∙ omega arith;
    kept = rw b (rw b at a.kept ∙ omega arith);
  }
  | inr b ↦ record {
    target = rw b (rw b at a.target);
    input = rw b at a.input ∙ omega arith;
    kept = rw b (rw b at a.kept);
  }
]

scan-Adds :
    (snapshot : ℕ) (rows : List (List ℤ)) (es : List Edge) (s : Selection)
    → Parses rows es
    → (t : Selection) × (scan snapshot s rows ≡ selected t) × Adds snapshot s es t
unfolding scan snapshot_edges filter
scan-Adds snapshot [] [] s h = (
  s,
  refl,
  record { target = sym (append_nil s.target); input = omega arith; kept = omega arith },
)
scan-Adds snapshot (row ∷ rows) (e ∷ es) s h =
    let (t, ran, adds) = scan-Adds snapshot rows es (scan_edge snapshot s e) h.1 in
    (t, rw (h.0, scan) ran, scan_edge-Adds snapshot s e es t adds)
scan-Adds snapshot [] (e ∷ es) s h = absurd h
scan-Adds snapshot (row ∷ rows) [] s h = absurd h

-- On rows that all parse, the selection succeeds, writes exactly the edges before the snapshot's time,
-- in their order, and counts the rows read and the edges written.
pub select_edges-snapshot :
    (rows : List (List ℤ)) (es : List Edge) (snapshot : ℕ)
    → Parses rows es
    → (t : Selection) × (select_edges rows snapshot ≡ selected t)
      × (t.target ≡ map ends (snapshot_edges snapshot es))
      × (t.input_edges ≡ length es)
      × (t.selected_edges ≡ length (snapshot_edges snapshot es))
unfolding select_edges
select_edges-snapshot rows es snapshot h =
    let (t, ran, adds) = scan-Adds snapshot rows es nothing_yet h in
    (t, ran, adds.target, omega (arith, adds.input), omega (arith, adds.kept))

-- A published file has as many edges as the snapshot is known to have, and no earlier output, manifest
-- or partial file stood in its place.
pub prepare-published :
    (exists : Bool) (archive : Archive) (snapshot : ℕ) (s : Selection)
    → prepare exists archive snapshot ≡ published s
    → (s.selected_edges ≡ expected snapshot) × (exists ≡ false)
unfolding prepare
prepare-published true archive snapshot s h = absurd (cc)
prepare-published false archive snapshot s h =
    (from_archive-published archive.members archive.nested h, refl)
  where
    publish-published :
        (r : Selected) → publish snapshot r ≡ published s → s.selected_edges ≡ expected snapshot
    publish-published (bad_row n) p = absurd (unfold publish in cc)
    publish-published (selected t) p =
        counted (Bool-cases (t.selected_edges == expected snapshot)) (unfold publish in p)
      where
        counted :
            (t.selected_edges == expected snapshot ≡ true)
              ⊎ (t.selected_edges == expected snapshot ≡ false)
            → (if t.selected_edges == expected snapshot then published t else count_differs t)
              ≡ published s
            → s.selected_edges ≡ expected snapshot
        counted (inl b) q = same (rw b at q) (ground (arith, b))
          where
            same :
                published t ≡ published s
                → t.selected_edges ≡ expected snapshot
                → s.selected_edges ≡ expected snapshot
            same q e = cc
        counted (inr b) q = absurd (differ (rw b at q))
          where
            differ : ¬ (count_differs t ≡ published s)
            differ q = cc

    from_members-published :
        (m : List (List (List ℤ)))
        → from_members snapshot m ≡ published s
        → s.selected_edges ≡ expected snapshot
    from_members-published [] p = absurd (unfold from_members in cc)
    from_members-published (source ∷ []) p =
        publish-published (select_edges source snapshot) (unfold from_members in p)
    from_members-published (a ∷ b ∷ more) p = absurd (unfold from_members in cc)

    from_archive-published :
        (m : List (List (List ℤ))) (n : List (List (List (List ℤ))))
        → from_archive snapshot m n ≡ published s
        → s.selected_edges ≡ expected snapshot
    from_archive-published m [] p = from_members-published m (unfold from_archive in p)
    from_archive-published m (a ∷ []) p = from_members-published a (unfold from_archive in p)
    from_archive-published m (a ∷ b ∷ more) p = absurd (unfold from_archive in cc)
