-- ===== src/Profile/Parse.antt =====
-- experiments/profile_pin_bottleneck.py, `category` and `parse_report`. Lower-casing is an argument, and
-- a row of the report is what `csv`, `float` and `int` read in it. Percentages are kept as a part with
-- the total.
pub mod Laws
use Prim.Native.String.{String, find, len}
use text.Mathlib.Text.{◌==◌ as str_eq, starts_with}
use memory_tiering.Prelude.{
  ℕ, List, [], ◌∷◌, Bool, true, false, Option, some, none, leb, ◌==◌, if◌then◌else◌, not, ◌&&◌,
  ◌||◌, any, take, filter,
}
use memory_tiering.Prelude.Int.{ℤ, pos, ltb_ℤ, ◌+ℤ◌}

pub data Category : Type 0 where
  synchronization memory_callback instruction_callback observer unresolved tool_linked other :
      Category

-- `term in name`
unfoldable pub occurs : String → String → Bool
occurs name term = leb (find name term) (len name)

abbrev pub lock_terms : List String
lock_terms =
    "spindelay" ∷ "spinlock" ∷ "getlock" ∷ "releaselock" ∷ "mutexlock" ∷ "mutexunlock"
    ∷ "lockinternal" ∷ "sync_lock" ∷ "sync_unlock" ∷ []

unfoldable pub category : (String → String) → String → String → Category
unfolding occurs
category lower dso symbol =
    let name = lower symbol in
    if any (occurs name) lock_terms
    then synchronization
    else if occurs name "analyzememref"
    then memory_callback
    else if occurs name "countbbl"
    then instruction_callback
    else if occurs name "finishepoch" || occurs name "pairedobserver" || occurs name "counters"
    then observer
    else if str_eq dso "[unknown]" || starts_with symbol "[.] 0x" || starts_with symbol "0x"
    then unresolved
    else if occurs dso "hotskew.so"
    then tool_linked
    else other

-- A row of the text: its number of fields, whether the first starts with `#`, whether `float` reads the
-- first, and what `int` reads in the next two.
pub record CsvRow : Type 0 where
  pub fields : ℕ
  pub comment : Bool
  pub float_read : Bool
  pub period : Option ℤ
  pub samples : Option ℤ
  pub dso : String
  pub symbol : String

pub record Row : Type 0 where
  pub period : ℤ
  pub samples : ℤ
  pub dso : String
  pub symbol : String
  pub category : Category

unfoldable pub converted : (String → String) → CsvRow → Option ℤ → Option ℤ → List Row
unfolding category
converted lower r (some p) (some s) =
    record {
      period = p;
      samples = s;
      dso = r.dso;
      symbol = r.symbol;
      category = category lower r.dso r.symbol;
    }
    ∷ []
converted lower r p s = []

unfoldable pub row_of : (String → String) → CsvRow → List Row
unfolding converted
row_of lower r =
    if not (r.fields == 5) || r.comment || not r.float_read
    then []
    else converted lower r r.period r.samples

unfoldable pub prepend : List Row → List Row → List Row
prepend [] rs = rs
prepend (x ∷ xs) rs = x ∷ prepend xs rs

unfoldable pub parsed_rows : (String → String) → List CsvRow → List Row
unfolding row_of prepend
parsed_rows lower [] = []
parsed_rows lower (r ∷ rs) = prepend (row_of lower r) (parsed_rows lower rs)

unfoldable pub total_of : (Row → ℤ) → List Row → ℤ
total_of f [] = pos 0
total_of f (r ∷ rs) = f r +ℤ total_of f rs

unfoldable pub index_of : Category → ℕ
index_of synchronization = 0
index_of memory_callback = 1
index_of instruction_callback = 2
index_of observer = 3
index_of unresolved = 4
index_of tool_linked = 5
index_of other = 6

unfoldable pub same_category : Category → Category → Bool
unfolding index_of
same_category a b = index_of a == index_of b

-- `groups[c] = groups.get(c, 0) + period`
unfoldable pub add_group : List (Category × ℤ) → Category → ℤ → List (Category × ℤ)
unfolding same_category
add_group [] c p = (c, p) ∷ []
add_group ((d, q) ∷ gs) c p =
    let rest = add_group gs c p in if same_category d c then (d, q +ℤ p) ∷ gs else (d, q) ∷ rest

unfoldable pub groups_of : List (Category × ℤ) → List Row → List (Category × ℤ)
unfolding add_group
groups_of gs [] = gs
groups_of gs (r ∷ rs) = groups_of (add_group gs r.category r.period) rs

-- `sorted(rows, key=period, reverse=True)`: equal periods keep their order.
unfoldable pub insert_sorted : Row → List Row → List Row
insert_sorted r [] = r ∷ []
insert_sorted r (x ∷ xs) =
    let rest = insert_sorted r xs in if ltb_ℤ r.period x.period then x ∷ rest else r ∷ x ∷ xs

unfoldable pub by_period : List Row → List Row
unfolding insert_sorted
by_period [] = []
by_period (r ∷ rs) = insert_sorted r (by_period rs)

pub record Attribution : Type 0 where
  pub total_period : ℤ
  pub total_samples : ℤ
  pub groups : List (Category × ℤ)
  pub top_symbols : List Row

-- `none` is the ValueError; without rows the sum is 0.
unfoldable pub parse_report : (String → String) → List CsvRow → Option Attribution
unfolding parsed_rows total_of groups_of by_period
parse_report lower csv =
    let rows = parsed_rows lower csv in
    let total = total_of (λ r. r.period) rows in
    if not (ltb_ℤ (pos 0) total)
    then none
    else some (record {
      total_period = total;
      total_samples = total_of (λ r. r.samples) rows;
      groups = groups_of [] rows;
      top_symbols = take 25 (by_period rows);
    })
