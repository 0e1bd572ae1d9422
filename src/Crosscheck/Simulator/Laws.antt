-- ===== src/Crosscheck/Simulator/Laws.antt =====
-- What an accepted histogram says of the job's numbers.
use mathlib.Core.Path.{subst}
use memory_tiering.Prelude.{
  ℕ, zero, suc, ◌+◌, ◌≤◌, ◌<◌, ◌≡◌, refl, sym, ap, ◌∙◌, inl, inr, List, [], ◌∷◌, Bool, true, false,
  Option, some, none, ltb, leb, ◌==◌, if◌then◌else◌, not, ◌||◌, count_if, contains, Bool-cases,
  arith,
}
use memory_tiering.Prelude.Int.{ℤ, pos, negsuc}
use memory_tiering.Crosscheck.Paired.{cumulative, hist_sum}
use memory_tiering.Crosscheck.Simulator.{
  Line, Error, Bins, Outcome, refused, passed, after, set_bin, add_bin, read_block, block_of,
  after_header, Actual, same_actual, touches, covers, check_bins, validated_histogram,
}

touches-ge : (hist : ℕ → ℕ) (n : ℕ) → cumulative hist n ≤ touches hist n + hist 0
unfolding cumulative touches
touches-ge hist zero = omega arith
touches-ge hist (suc n) = grind (arith, touches-ge hist n)

-- The pages of a row, if it is the word's.
unfoldable pub row_value : ℕ → List (Option ℤ) → Option ℕ
row_value word (some (pos w) ∷ some (pos n) ∷ []) = if w == word then some n else none
row_value word _ = none

abbrev pub prepend : Option ℕ → List ℕ → List ℕ
prepend none xs = xs
prepend (some x) xs = x ∷ xs

-- The page counts of the rows of a word, in the order of the lines.
unfoldable pub rows_of : ℕ → List Line → List ℕ
unfolding row_value
rows_of word [] = []
rows_of word (l ∷ ls) = prepend (row_value word l.fields) (rows_of word ls)

-- An accepted histogram: each of the 65 words has exactly one row, with the pages of its bin; the
-- numbers are those that the job recorded, and the pages make up the population. Every page was
-- touched in at least one word, and a request was seen for every touch.
pub record IsPopulated (lines : List Line) (expected actual : Actual) (b : Bins) : Type 0 where
  pub one_header : count_if (λ l. l.header) lines ≡ 1
  pub rows :
      (word : ℕ) → word ≤ 64 → rows_of word (block_of (after_header lines)) ≡ b.pages word ∷ []
  pub same_events : actual.events ≡ expected.events
  pub same_epochs : actual.epochs ≡ expected.epochs
  pub same_pages : actual.pages ≡ expected.pages
  pub population : hist_sum b.pages ≡ actual.pages
  pub some_epochs : 0 < actual.epochs
  pub touched : actual.pages ≤ touches b.pages 64
  pub requested : touches b.pages 64 ≤ actual.events

five_tests :
    (a b c d e : Bool) (p q r s t : Error) (x y : Bins)
    → (if a
        then refused p
        else if b
        then refused q
        else if c
        then refused r
        else if d
        then refused s
        else if e
        then refused t
        else passed x)
      ≡ passed y
    → (a ≡ false) × (b ≡ false) × (c ≡ false) × (d ≡ false) × (e ≡ false) × (x ≡ y)
five_tests a b c d e p q r s t x y h = ground arith

covers-contains :
    (n : ℕ) (keys : List ℕ) (word : ℕ) → covers n keys ≡ true → word ≤ n → contains keys word ≡ true
unfolding covers
covers-contains zero keys word h le = let z : word ≡ 0 = omega (arith, le) in rw z h
covers-contains (suc n) keys word h le = elim (Bool-cases (word == suc n)) [
  | inl e ↦ let same : word ≡ suc n = ground (arith, e) in rw same (ground (arith, h))
  | inr e ↦ covers-contains n keys word (ground (arith, h)) (ground (arith, e, le))
]

after-passed :
    (o : Outcome Bins) (f : Bins → Outcome Bins) (c : Bins)
    → after o f ≡ passed c
    → (b : Bins) × (o ≡ passed b) × (f b ≡ passed c)
unfolding after
after-passed (refused e) f c h = absurd (ground arith)
after-passed (passed b) f c h = (b, refl, h)

-- What a row that is added holds: a word that has no bin yet, and the pages of its bin.
record Adds (b c : Bins) (fields : List (Option ℤ)) : Type 0 where
  bin : ℕ
  bin_pages : ℕ
  is_row : fields ≡ some (pos bin) ∷ some (pos bin_pages) ∷ []
  is_new : contains b.keys bin ≡ false
  is_set : c ≡ set_bin b bin bin_pages

add_bin-Adds :
    (b c : Bins) (fields : List (Option ℤ)) → add_bin b fields ≡ passed c → Adds b c fields
unfolding add_bin
add_bin-Adds b c (some (pos word) ∷ some (pos n) ∷ []) h =
    elim (Bool-cases (contains b.keys word || not (leb word 64))) [
      | inl e ↦ absurd (ground (arith, h, e))
      | inr e ↦ record {
        bin = word;
        bin_pages = n;
        is_row = refl;
        is_new = ground (arith, e);
        is_set = cc (rw e at h);
      }
    ]
add_bin-Adds b c (some (negsuc word) ∷ some n ∷ []) h = absurd (cc)
add_bin-Adds b c (some (pos word) ∷ some (negsuc n) ∷ []) h = absurd (cc)
add_bin-Adds b c [] h = absurd (cc)
add_bin-Adds b c (none ∷ fs) h = absurd (cc)
add_bin-Adds b c (some (pos word) ∷ []) h = absurd (cc)
add_bin-Adds b c (some (negsuc word) ∷ []) h = absurd (cc)
add_bin-Adds b c (some (pos word) ∷ none ∷ fs) h = absurd (cc)
add_bin-Adds b c (some (negsuc word) ∷ none ∷ fs) h = absurd (cc)
add_bin-Adds b c (some (pos word) ∷ some (pos n) ∷ f ∷ fs) h = absurd (cc)
add_bin-Adds b c (some (pos word) ∷ some (negsuc n) ∷ f ∷ fs) h = absurd (cc)
add_bin-Adds b c (some (negsuc word) ∷ some n ∷ f ∷ fs) h = absurd (cc)

-- What the rest of a block holds for a word: no row, and its bin stays, when the word has a bin
-- already, and else exactly one row if it has a bin in the end.
abbrev IsOnce : ℕ → Bins → Bins → List Line → Bool → Type 0
IsOnce word b c ls true = (rows_of word ls ≡ []) × (c.pages word ≡ b.pages word)
IsOnce word b c ls false = contains c.keys word ≡ true → rows_of word ls ≡ c.pages word ∷ []

step-IsOnce :
    (word bin n : ℕ) (b c : Bins) (l : Line) (ls : List Line)
    → l.fields ≡ some (pos bin) ∷ some (pos n) ∷ []
    → contains b.keys bin ≡ false
    → IsOnce word (set_bin b bin n) c ls (contains (bin ∷ b.keys) word)
    → IsOnce word b c (l ∷ ls) (contains b.keys word)
unfolding rows_of set_bin contains
step-IsOnce word bin n b c l ls row fresh later = elim (Bool-cases (bin == word)) [
  | inl e ↦
      let same : word ≡ bin = ground (arith, e) in
      let absent : contains b.keys word ≡ false = rw same fresh in
      let is_there : contains (bin ∷ b.keys) word ≡ true = ground (arith, same) in
      let (no_more, kept) = subst (IsOnce word (set_bin b bin n) c ls) is_there later in
      let set_pages : c.pages word ≡ n = kept ∙ set_here same in
      rw absent (λ h. rw (row, e, no_more, set_pages) refl)
  | inr e ↦
      let differ : (word == bin) ≡ false = ground (arith, e) in
      elim (Bool-cases (contains b.keys word)) [
        | inl k ↦
            let is_there : contains (bin ∷ b.keys) word ≡ true = ground (arith, k) in
            let (no_more, kept) = subst (IsOnce word (set_bin b bin n) c ls) is_there later in
            rw k (rw (row, e) no_more, kept ∙ set_other differ)
        | inr k ↦
            let is_new : contains (bin ∷ b.keys) word ≡ false = ground (arith, differ, k) in
            let found = subst (IsOnce word (set_bin b bin n) c ls) is_new later in
            rw k (λ h. rw (row, e) (found h))
      ]
]
  where
    set_here : word ≡ bin → (set_bin b bin n).pages word ≡ n
    set_here same = ground (arith, same)

    set_other : (word == bin) ≡ false → (set_bin b bin n).pages word ≡ b.pages word
    set_other e = rw e refl

read_block-IsOnce :
    (word : ℕ) (ls : List Line) (b c : Bins)
    → read_block ls b ≡ passed c
    → IsOnce word b c ls (contains b.keys word)
unfolding read_block
read_block-IsOnce word [] b c h =
    let same : b ≡ c = cc in
    elim (Bool-cases (contains b.keys word)) [
      | inl k ↦ rw k (unfold rows_of in (refl, ap (λ x. x.pages word) (sym same)))
      | inr k ↦ rw k (λ e. absurd (ground (arith, ap (λ x. contains x.keys word) same, k, e)))
    ]
read_block-IsOnce word (l ∷ ls) b c h =
    let (d, added, later) = after-passed (add_bin b l.fields) (read_block ls) c h in
    let a = add_bin-Adds b d l.fields added in
    let rest = read_block-IsOnce word ls d c later in
    step-IsOnce word a.bin a.bin_pages b c l ls a.is_row a.is_new
      (unfold set_bin in subst (λ x. IsOnce word x c ls (contains x.keys word)) a.is_set rest)

check_bins-IsPopulated :
    (lines : List Line) (expected actual : Actual) (b c : Bins)
    → count_if (λ l. l.header) lines ≡ 1
    → read_block (block_of (after_header lines)) (record { pages = λ k. 0; keys = [] }) ≡ passed b
    → check_bins expected actual b ≡ passed c
    → IsPopulated lines expected actual c
unfolding check_bins same_actual contains
check_bins-IsPopulated lines expected actual b c header block h =
    let (bins, same, population, requests, nonempty, is_b) =
      five_tests (not (covers 64 b.keys)) (not (same_actual actual expected))
        (not (b.pages 0 == 0) || not (hist_sum b.pages == actual.pages))
        (ltb actual.events (touches b.pages 64)) ((actual.pages == 0) || ltb actual.epochs 1) _ _ _
        _ _ b c h in
    let zero_bin : b.pages 0 ≡ 0 = ground (arith, population) in
    let sum : hist_sum b.pages ≡ actual.pages = ground (arith, population) in
    let low = touches-ge b.pages 64 in
    let covered : covers 64 b.keys ≡ true = ground (arith, bins) in
    rw (sym is_b) (record {
      one_header = header;
      rows = λ word le.
          read_block-IsOnce word (block_of (after_header lines)) _ b block
            (covers-contains 64 b.keys word covered le);
      same_events = ground (arith, same);
      same_epochs = ground (arith, same);
      same_pages = ground (arith, same);
      population = sum;
      some_epochs = ground (arith, nonempty);
      touched = unfold hist_sum in omega (arith, low, zero_bin, sum);
      requested = ground (arith, requests);
    })

-- A file that is accepted for a finished job has one header and, in the block after it, exactly one row
-- for each word count from 0 to 64, whose pages are those of the histogram. The numbers are those that
-- the job recorded, there are windows, the pages of the histogram are the population, and the touched
-- words are at least the pages and at most the requests.
pub validated_histogram-IsPopulated :
    (lines : List Line) (expected actual : Actual) (b : Bins)
    → validated_histogram lines expected actual ≡ passed b
    → IsPopulated lines expected actual b
unfolding validated_histogram
validated_histogram-IsPopulated lines expected actual b h =
    elim (Bool-cases (not (count_if (λ l. l.header) lines == 1))) [
      | inl e ↦ absurd (ground (arith, h, e))
      | inr e ↦
          let (bins, block, accepted) =
            after-passed
              (read_block (block_of (after_header lines)) (record { pages = λ k. 0; keys = [] }))
              (check_bins expected actual) b (rw e at h) in
          check_bins-IsPopulated lines expected actual bins b (ground (arith, e)) block accepted
    ]
