-- ===== src/Profile/Parse/Laws.antt =====
-- The groups of an attribution make up its total.
use memory_tiering.Prelude.{
  ℕ, ◌≡◌, refl, sym, ap, ◌∙◌, inl, inr, List, [], ◌∷◌, Bool, true, some, if◌then◌else◌, Bool-cases,
  arith, take, length, length-take, ◌≤◌,
}
use memory_tiering.Prelude.Int.{ℤ, pos, negsuc, difference, ◌+ℤ◌, ltb_ℤ, ◌<ℤ◌}
use Prim.Native.String.{String}
use memory_tiering.Profile.Parse.{
  Category, CsvRow, Row, parsed_rows, total_of, index_of, same_category, add_group, groups_of,
  by_period, Attribution, parse_report,
}

+ℤ_comm : (a b : ℤ) → a +ℤ b ≡ b +ℤ a
unfolding ◌+ℤ◌ difference
+ℤ_comm a b = ground arith

+ℤ_assoc : (a b c : ℤ) → (a +ℤ b) +ℤ c ≡ a +ℤ (b +ℤ c)
unfolding ◌+ℤ◌ difference
+ℤ_assoc a b c = ground arith

+ℤ_zero : (a : ℤ) → a +ℤ pos 0 ≡ a
unfolding ◌+ℤ◌ difference
+ℤ_zero (pos n) = ground arith
+ℤ_zero (negsuc n) = ground arith

-- The periods of a set of categories, in the groups and in the rows.
unfoldable pub in_set : (Category → Bool) → Category → ℤ → ℤ
in_set f c p = if f c then p else pos 0

unfoldable pub groups_weight : (Category → Bool) → List (Category × ℤ) → ℤ
groups_weight f [] = pos 0
groups_weight f ((c, p) ∷ gs) = in_set f c p +ℤ groups_weight f gs

unfoldable pub rows_weight : (Category → Bool) → List Row → ℤ
rows_weight f rows = total_of (λ r. in_set f r.category r.period) rows

same_category_lem : (a b : Category) → same_category a b ≡ true → a ≡ b
unfolding same_category index_of
same_category_lem a b h = ground (arith, h)

in_set_add :
    (f : Category → Bool) (c : Category) (p q : ℤ)
    → in_set f c (p +ℤ q) ≡ in_set f c p +ℤ in_set f c q
unfolding in_set
in_set_add f c p q = elim (Bool-cases (f c)) [
  | inl e ↦ rw e refl
  | inr e ↦ rw e (sym (+ℤ_zero (pos 0)))
]

swap_last : (a b c : ℤ) → (a +ℤ b) +ℤ c ≡ (a +ℤ c) +ℤ b
swap_last a b c = +ℤ_assoc a b c ∙ ap (λ z. a +ℤ z) (+ℤ_comm b c) ∙ sym (+ℤ_assoc a c b)

add_group-weight :
    (f : Category → Bool) (gs : List (Category × ℤ)) (c : Category) (p : ℤ)
    → groups_weight f (add_group gs c p) ≡ groups_weight f gs +ℤ in_set f c p
unfolding add_group groups_weight
add_group-weight f [] c p = +ℤ_comm (in_set f c p) (pos 0)
add_group-weight f ((d, q) ∷ gs) c p = elim (Bool-cases (same_category d c)) [
  | inl e ↦
      let same : d ≡ c = same_category_lem d c e in
      rw e (
        ap (λ z. z +ℤ groups_weight f gs) (in_set_add f d q p)
        ∙ swap_last (in_set f d q) (in_set f d p) (groups_weight f gs)
        ∙ ap (λ k. (in_set f d q +ℤ groups_weight f gs) +ℤ in_set f k p) same)
  | inr e ↦ rw e (
      ap (λ z. in_set f d q +ℤ z) (add_group-weight f gs c p)
      ∙ sym (+ℤ_assoc (in_set f d q) (groups_weight f gs) (in_set f c p)))
]

groups_of-weight :
    (f : Category → Bool) (gs : List (Category × ℤ)) (rows : List Row)
    → groups_weight f (groups_of gs rows) ≡ groups_weight f gs +ℤ rows_weight f rows
unfolding groups_of rows_weight total_of
groups_of-weight f gs [] = sym (+ℤ_zero (groups_weight f gs))
groups_of-weight f gs (r ∷ rs) =
    groups_of-weight f (add_group gs r.category r.period) rs
    ∙ ap (λ z. z +ℤ rows_weight f rs) (add_group-weight f gs r.category r.period)
    ∙ +ℤ_assoc (groups_weight f gs) (in_set f r.category r.period) (rows_weight f rs)

zero_add : (a : ℤ) → pos 0 +ℤ a ≡ a
zero_add a = +ℤ_comm (pos 0) a ∙ +ℤ_zero a

rows_weight_all : (rows : List Row) → rows_weight (λ c. true) rows ≡ total_of (λ r. r.period) rows
unfolding rows_weight total_of in_set
rows_weight_all [] = refl
rows_weight_all (r ∷ rs) = ap (λ z. r.period +ℤ z) (rows_weight_all rs)

length-take-le : (n : ℕ) (rows : List Row) → length (take n rows) ≤ n
length-take-le n rows = omega (arith, length-take n rows)

-- What an attribution says of the rows that it is made of.
pub record IsAttribution (rows : List Row) (a : Attribution) : Type 0 where
  pub by_set : (f : Category → Bool) → groups_weight f a.groups ≡ rows_weight f rows
  pub whole : groups_weight (λ c. true) a.groups ≡ a.total_period
  pub positive : pos 0 <ℤ a.total_period
  pub bounded : length a.top_symbols ≤ 25

-- The groups of a report share out its total: for every set of categories they have the periods of the
-- rows of those categories, and together they have the total, which is positive. At most 25 symbols
-- are listed.
pub parse_report-IsAttribution :
    (lower : String → String) (csv : List CsvRow) (a : Attribution)
    → parse_report lower csv ≡ some a
    → IsAttribution (parsed_rows lower csv) a
unfolding parse_report groups_weight
parse_report-IsAttribution lower csv a h =
    let rows = parsed_rows lower csv in
    let total = total_of (λ r. r.period) rows in
    let by_set : (f : Category → Bool) → groups_weight f (groups_of [] rows) ≡ rows_weight f rows =
      λ f. groups_of-weight f [] rows ∙ zero_add (rows_weight f rows) in
    elim (Bool-cases (ltb_ℤ (pos 0) total)) [
      | inr e ↦ absurd (ground (arith, h, e))
      | inl e ↦
          let same : a ≡ record {
            total_period = total;
            total_samples = total_of (λ r. r.samples) rows;
            groups = groups_of [] rows;
            top_symbols = take 25 (by_period rows);
          } =
            cc (rw e at h) in
          rw same (record {
            by_set = by_set;
            whole = by_set (λ c. true) ∙ rows_weight_all rows;
            positive = ground (arith, e);
            bounded = length-take-le 25 (by_period rows);
          })
    ]
