-- ===== src/Histogram/Laws.antt =====
-- What a histogram that is read says about the rows of the file.
use Prim.Native.String.{String}
use memory_tiering.Prelude.{
  ℕ, ◌≤◌, ◌≡◌, refl, ap, sym, ◌∙◌, inl, inr, List, [], ◌∷◌, Bool, true, false, some, if◌then◌else◌,
  ◌||◌, not, leb, ◌==◌, Bool-cases, arith, All, length, contains,
}
use memory_tiering.Prelude.Int.{ℤ, pos, negsuc}
use memory_tiering.Histogram.{
  Row, Error, Reading, Read, refused, read, agrees, set_bin, read_bin, selects, empty, finish,
  read_rows, read_hist, negative_count, inconsistent_events, incomplete,
}

-- The bin of a row: its index is in range and its count in the histogram.
abbrev pub Holds : Reading → Row → Type 0
Holds s r = (n : ℕ) × (r.words ≡ pos n) × (n ≤ 64) × (r.pages ≡ pos (s.hist n))

-- What one row does.
record Reads (s : Reading) (r : Row) (t : Reading) : Type 0 where
  pub bin : ℕ
  pub words : r.words ≡ pos bin
  pub in_range : bin ≤ 64
  pub unseen : contains s.seen bin ≡ false
  pub pages : r.pages ≡ pos (t.hist bin)
  pub others : (k : ℕ) → k == bin ≡ false → t.hist k ≡ s.hist k
  pub seen : t.seen ≡ bin ∷ s.seen

==_self : (n : ℕ) → n == n ≡ true
==_self n = ground arith

read_bin-Reads :
    (s : Reading) (r : Row) (w p e : ℤ) (t : Reading)
    → r.words ≡ w
    → r.pages ≡ p
    → read_bin s w p e ≡ read t
    → Reads s r t
unfolding read_bin
read_bin-Reads s r (negsuc n) p e t hw hp h = absurd (cc)
read_bin-Reads s r (pos n) p e t hw hp h = elim (Bool-cases (contains s.seen n || not (leb n 64))) [
  | inl b ↦ absurd (no_read (rw (b, read_bin) at h))
  | inr b ↦ counted p hp (rw (b, read_bin) at h) b
]
  where
    no_read : {x : Error} → ¬ (refused x ≡ read t)
    no_read h = cc

    counted :
        (p : ℤ)
        → r.pages ≡ p
        → (elim p [
          | negsuc q ↦ refused negative_count
          | pos q ↦
              if not (agrees s.events e)
              then refused inconsistent_events
              else read (record { hist = set_bin s.hist n q; seen = n ∷ s.seen; events = some e })
        ])
          ≡ read t
        → (contains s.seen n || not (leb n 64)) ≡ false
        → Reads s r t
    counted (negsuc q) hp h b = absurd (cc)
    counted (pos q) hp h b = elim (Bool-cases (agrees s.events e)) [
      | inr a ↦ absurd (no_read (rw a at h))
      | inl a ↦ made (rw a at h)
    ]
      where
        after : Reading
        after = record { hist = set_bin s.hist n q; seen = n ∷ s.seen; events = some e }

        same_reading : read after ≡ read t → after ≡ t
        same_reading g = cc

        made : read after ≡ read t → Reads s r t
        made g = rw (← same_reading g) (record {
          bin = n;
          words = hw;
          in_range = ground arith;
          unseen = ground arith;
          pages = hp ∙ ap pos (sym (unfold set_bin in (rw (==_self n) refl)));
          others = λ k d. unfold set_bin in (rw d refl);
          seen = refl;
        })

finish-same : (s t : Reading) → finish s ≡ read t → s ≡ t
unfolding finish
finish-same s t h = elim (Bool-cases (length s.seen == 65)) [
  | inl b ↦ same (rw b at h)
  | inr b ↦ absurd (differ (rw b at h))
]
  where
    same : read s ≡ read t → s ≡ t
    same g = cc

    differ : ¬ (refused incomplete ≡ read t)
    differ g = cc

module _ (p : Row → Bool) where
  read_rows_skip :
      (r : Row) (rs : List Row) (s t : Reading)
      → p r ≡ false
      → read_rows p (r ∷ rs) s ≡ read t
      → read_rows p rs s ≡ read t
  unfolding read_rows
  read_rows_skip r rs s t b h = rw (b, read_rows) at h

  read_rows_step :
      (r : Row) (rs : List Row) (s t : Reading)
      → p r ≡ true
      → read_rows p (r ∷ rs) s ≡ read t
      → (u : Reading) × Reads s r u × (read_rows p rs u ≡ read t)
  unfolding read_rows
  read_rows_step r rs s t b h =
      go (read_bin s r.words r.pages r.events) refl (rw (b, read_rows) at h)
    where
      go :
          (x : Read)
          → read_bin s r.words r.pages r.events ≡ x
          → (elim x [ refused e ↦ refused e | read u ↦ read_rows p rs u ]) ≡ read t
          → (u : Reading) × Reads s r u × (read_rows p rs u ≡ read t)
      go (refused e) q g = absurd (cc)
      go (read u) q g = (u, read_bin-Reads s r r.words r.pages r.events u refl refl q, g)

  seen-grows :
      (s : Reading) (r : Row) (u : Reading) (n : ℕ)
      → Reads s r u
      → contains s.seen n ≡ true
      → contains u.seen n ≡ true
  seen-grows s r u n d c = rw (d.seen) (unfold contains in ground (arith, c))

  bin-seen : (s : Reading) (r : Row) (u : Reading) (d : Reads s r u) → contains u.seen d.bin ≡ true
  bin-seen s r u d = rw (d.seen) (unfold contains in ground arith)

  read_rows-kept :
      (rs : List Row) (s t : Reading) (n : ℕ)
      → read_rows p rs s ≡ read t
      → contains s.seen n ≡ true
      → t.hist n ≡ s.hist n
  read_rows-kept [] s t n h c =
      ap (λ (u : Reading). u.hist n) (sym (finish-same s t (unfold read_rows in h)))
  read_rows-kept (r ∷ rs) s t n h c = elim (Bool-cases (p r)) [
    | inr b ↦ read_rows-kept rs s t n (read_rows_skip r rs s t b h) c
    | inl b ↦
        let (u, d, ran) = read_rows_step r rs s t b h in
        read_rows-kept rs u t n ran (seen-grows s r u n d c) ∙ d.others n (other u d)
  ]
    where
      other : (u : Reading) (d : Reads s r u) → n == d.bin ≡ false
      other u d = elim (Bool-cases (n == d.bin)) [
        | inr e ↦ e
        | inl e ↦ let here : n ≡ d.bin = ground arith in absurd (clash here d.unseen)
      ]
        where
          clash : n ≡ d.bin → contains s.seen d.bin ≡ false → ⊥
          clash here unseen = cc

  read_rows-Holds :
      (rs : List Row) (s t : Reading)
      → read_rows p rs s ≡ read t
      → All (λ r. p r ≡ true → Holds t r) rs
  read_rows-Holds [] s t h = tt
  read_rows-Holds (r ∷ rs) s t h = elim (Bool-cases (p r)) [
    | inr b ↦ (λ q. absurd (clash b q), read_rows-Holds rs s t (read_rows_skip r rs s t b h))
    | inl b ↦
        let (u, d, ran) = read_rows_step r rs s t b h in
        (
          λ q. (
            d.bin,
            d.words,
            d.in_range,
            d.pages ∙ ap pos (sym (read_rows-kept rs u t d.bin ran (bin-seen s r u d))),
          ),
          read_rows-Holds rs u t ran,
        )
  ]
    where
      clash : p r ≡ false → p r ≡ true → ⊥
      clash a b = cc

-- When a histogram is read, every row of its scope, stream and population, wherever it stands, has a
-- bin from 0 to 64, and the histogram has that row's pages there: no row is overwritten or lost.
pub read_hist-Holds :
    (rows : List Row) (scope stream population : String) (t : Reading)
    → read_hist rows scope stream population ≡ read t
    → All (λ r. selects scope stream population r ≡ true → Holds t r) rows
unfolding read_hist
read_hist-Holds rows scope stream population t h =
    read_rows-Holds (selects scope stream population) rows empty t h
