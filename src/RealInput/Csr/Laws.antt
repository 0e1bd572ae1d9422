-- ===== src/RealInput/Csr/Laws.antt =====
-- The graph that `induce` writes is a valid source, of which the whole is what was written.
use memory_tiering.Prelude.{
  ℕ, ◌+◌, ◌<◌, ◌≡◌, refl, inl, inr, List, [], ◌∷◌, ◌++◌, false, Option, some, none, map, ◌==◌, ◌||◌,
  length, contains, All, Bool-cases, arith,
}
use memory_tiering.Prelude.Int.{ℤ, pos, pos_part}
use memory_tiering.RealInput.Csr.{
  Source, place_of, keep, retained, out_of_range, not_increasing, row_of, Rows, refused, rows,
  cons_row, induced_rows, Induced,
}

unfoldable pub flat : List (List ℕ) → List ℕ
flat [] = []
flat (r ∷ rs) = r ++ flat rs

-- The written file, read as a source.
unfoldable pub source_of : Induced → Source
source_of g = record {
  directed = false;
  edges = pos g.directed_entries;
  nodes = pos g.nodes;
  size = g.bytes;
  offsets = map pos g.offsets;
  neighbors = map pos (flat g.adjacency);
}

-- What a row of the written graph satisfies, at its index among `n`.
pub record IsRow (n index : ℕ) (row : List ℕ) : Type 0 where
  pub bounded : All (λ v. v < n) row
  pub increasing : not_increasing row ≡ false
  pub loop_free : contains row index ≡ false

unfoldable pub AreRows : ℕ → ℕ → List (List ℕ) → Type 0
AreRows n index [] = Unit
AreRows n index (r ∷ rs) = IsRow n index r × AreRows n (index + 1) rs

place_of-le :
    (chosen : List ℕ) (first v place : ℕ)
    → place_of chosen first v ≡ some place
    → place < first + length chosen
unfolding place_of
place_of-le [] first v place h = absurd (ground arith)
place_of-le (c ∷ cs) first v place h = elim (Bool-cases (c == v)) [
  | inl e ↦ ground (arith, h, e)
  | inr e ↦ let later = place_of-le cs (first + 1) v place (rw e at h) in omega (arith, later)
]

keep-All :
    (n : ℕ) (o : Option ℕ) (rest : List ℕ)
    → ((place : ℕ) → o ≡ some place → place < n)
    → All (λ v. v < n) rest
    → All (λ v. v < n) (keep o rest)
unfolding keep
keep-All n none rest h a = a
keep-All n (some p) rest h a = (h p refl, a)

retained-All : (chosen : List ℕ) (row : List ℤ) → All (λ v. v < length chosen) (retained chosen row)
unfolding retained
retained-All chosen [] = tt
retained-All chosen (v ∷ row) =
    keep-All (length chosen) (place_of chosen 0 (pos_part v)) (retained chosen row)
      (λ place e. omega (arith, place_of-le chosen 0 (pos_part v) place e))
      (retained-All chosen row)

cons_row-rows :
    (row : List ℕ) (rest : Rows) (rs : List (List ℕ))
    → cons_row row rest ≡ rows rs
    → (ss : List (List ℕ)) × (rest ≡ rows ss) × (rs ≡ row ∷ ss)
unfolding cons_row
cons_row-rows row (refused e) rs h = absurd (ground arith)
cons_row-rows row (rows ss) rs h = (ss, refl, cc)

pub induced_rows-AreRows :
    (s : Source) (chosen vs : List ℕ) (index : ℕ) (rs : List (List ℕ))
    → induced_rows s chosen index vs ≡ rows rs
    → (length rs ≡ length vs) × AreRows (length chosen) index rs
unfolding induced_rows AreRows
induced_rows-AreRows s chosen [] index rs h = let same : rs ≡ [] = cc in rw same (refl, tt)
induced_rows-AreRows s chosen (v ∷ vs) index rs h =
    let row = row_of s v in
    let kept = retained chosen row in
    elim (Bool-cases (out_of_range (pos_part s.nodes) row)) [
      | inl e ↦ absurd (ground (arith, h, e))
      | inr e ↦ elim (Bool-cases (not_increasing kept || contains kept index)) [
        | inl d ↦ absurd (ground (arith, h, e, d))
        | inr d ↦
            let (ss, rest, same) =
              cons_row-rows kept (induced_rows s chosen (index + 1) vs) rs (rw (e, d) at h) in
            let later = induced_rows-AreRows s chosen vs (index + 1) ss rest in
            rw same (
              omega (arith, later.0),
              (
                record {
                  bounded = retained-All chosen row;
                  increasing = ground (arith, d);
                  loop_free = ground (arith, d);
                },
                later.1,
              ),
            )
      ]
    ]
