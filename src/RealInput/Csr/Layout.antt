-- ===== src/RealInput/Csr/Layout.antt =====
-- The arrays of a written graph: its offsets, its rows laid end to end, and the selection of all of it.
use memory_tiering.Prelude.{
  ℕ, zero, suc, ◌+◌, ◌%◌, ◌≤◌, ◌<◌, ◌≡◌, refl, sym, ap, ◌∙◌, inl, inr, List, [], ◌∷◌, ◌++◌, true,
  false, some, map, ◌==◌, length, length-append, take, drop, any, All, Bool-cases, arith,
}
use mathlib.Core.List.{append_assoc}
use memory_tiering.Prelude.Int.{ℤ, pos}
use memory_tiering.Histogram.{int_eq}
use memory_tiering.RealInput.Csr.{
  selected_from, last_of, decreases, offsets_valid, place_of, keep, retained, out_of_range,
  offset_at, offsets_of, entries_of,
}
use memory_tiering.RealInput.Csr.Laws.{flat}

unfoldable pub up : ℕ → ℕ → List ℕ
up v zero = []
up v (suc n) = v ∷ up (v + 1) n

-- With the denominator 1 every vertex is selected.
pub selected_from-up : (mix : ℕ → ℕ) (v n : ℕ) → selected_from mix 1 v n ≡ up v n
unfolding selected_from up
selected_from-up mix v zero = refl
selected_from-up mix v (suc n) =
    let all_selected : (mix v % 1 == 0) ≡ true = ground arith in
    rw all_selected (ap (◌∷◌ v) (selected_from-up mix (v + 1) n))

pub length-up : (v n : ℕ) → length (up v n) ≡ n
unfolding up
length-up v zero = omega arith
length-up v (suc n) = omega (arith, length-up (v + 1) n)

pub place_of-up :
    (first n v : ℕ) → first ≤ v → v < first + n → place_of (up first n) first v ≡ some v
unfolding place_of up
place_of-up first zero v l h = absurd (omega (arith, l, h))
place_of-up first (suc n) v l h = elim (Bool-cases (first == v)) [
  | inl e ↦ rw e (ap (λ k. some k) (ground (arith, e)))
  | inr e ↦ rw e (place_of-up (first + 1) n v (ground (arith, l, e)) (omega (arith, h)))
]

pub retained-up :
    (n : ℕ) (row : List ℕ) → All (λ v. v < n) row → retained (up 0 n) (map pos row) ≡ row
unfolding retained keep
retained-up n [] h = refl
retained-up n (v ∷ row) h =
    rw (place_of-up 0 n v (omega arith) (omega (arith, h.0))) (ap (◌∷◌ v) (retained-up n row h.1))

pub in_range : (n : ℕ) (row : List ℕ) → All (λ v. v < n) row → out_of_range n (map pos row) ≡ false
unfolding out_of_range any
in_range n [] h = refl
in_range n (v ∷ row) h = ground (arith, h.0, in_range n row h.1)

-- Lists of offsets.
pub offset_at-append :
    (first : ℕ) (done rest : List (List ℕ))
    → offset_at (map pos (offsets_of first (done ++ rest))) (length done) ≡ first + entries_of done
unfolding offset_at offsets_of entries_of
offset_at-append first [] [] = omega arith
offset_at-append first [] (r ∷ rest) = omega arith
offset_at-append first (d ∷ done) rest = offset_at-append (first + length d) done rest ∙ omega arith

pub last_of-offsets :
    (x : ℤ) (first : ℕ) (rs : List (List ℕ))
    → last_of x (map pos (offsets_of first rs)) ≡ pos (first + entries_of rs)
unfolding last_of offsets_of entries_of
last_of-offsets x first [] = ap pos (omega arith)
last_of-offsets x first (r ∷ rs) =
    last_of-offsets (pos first) (first + length r) rs ∙ ap pos (omega arith)

pub decreases-offsets :
    (a first : ℕ) (rs : List (List ℕ))
    → a ≤ first
    → decreases (pos a) (map pos (offsets_of first rs)) ≡ false
unfolding decreases offsets_of
decreases-offsets a first [] h = ground (arith, h)
decreases-offsets a first (r ∷ rs) h =
    ground (arith, h, decreases-offsets first (first + length r) rs (omega arith))

pub int_eq-same : (n : ℕ) → int_eq (pos n) (pos n) ≡ true
unfolding int_eq
int_eq-same n = ground arith

pub offsets_valid-written :
    (rs : List (List ℕ)) → offsets_valid (map pos (offsets_of 0 rs)) (pos (entries_of rs)) ≡ true
unfolding offsets_valid offsets_of entries_of
offsets_valid-written [] = rw (int_eq-same 0) refl
offsets_valid-written (r ∷ rs) =
    let last : last_of (pos 0) (map pos (offsets_of (0 + length r) rs))
        ≡ pos (length r + entries_of rs) =
      last_of-offsets (pos 0) (0 + length r) rs ∙ ap pos (omega arith) in
    rw
      (
        last,
        decreases-offsets 0 (0 + length r) rs (omega arith),
        int_eq-same 0,
        int_eq-same (length r + entries_of rs),
      )
      refl

pub flat-append : (xs ys : List (List ℕ)) → flat (xs ++ ys) ≡ flat xs ++ flat ys
unfolding flat
flat-append [] ys = refl
flat-append (x ∷ xs) ys = ap (◌++◌ x) (flat-append xs ys) ∙ sym (append_assoc x (flat xs) (flat ys))

pub length-flat : (xs : List (List ℕ)) → length (flat xs) ≡ entries_of xs
unfolding flat entries_of
length-flat [] = refl
length-flat (x ∷ xs) = omega (arith, length-append x (flat xs), length-flat xs)

pub drop-map-append :
    (n : ℕ) (xs ys : List ℕ) → length xs ≡ n → drop n (map pos (xs ++ ys)) ≡ map pos ys
unfolding drop
drop-map-append zero [] ys h = refl
drop-map-append (suc n) [] ys h = absurd (omega (arith, h))
drop-map-append zero (x ∷ xs) ys h = absurd (omega (arith, h))
drop-map-append (suc n) (x ∷ xs) ys h = drop-map-append n xs ys (omega (arith, h))

pub take-map-append :
    (n : ℕ) (xs ys : List ℕ) → length xs ≡ n → take n (map pos (xs ++ ys)) ≡ map pos xs
unfolding take
take-map-append zero [] ys h = refl
take-map-append (suc n) [] ys h = absurd (omega (arith, h))
take-map-append zero (x ∷ xs) ys h = absurd (omega (arith, h))
take-map-append (suc n) (x ∷ xs) ys h =
    ap (◌∷◌ (pos x)) (take-map-append n xs ys (omega (arith, h)))
