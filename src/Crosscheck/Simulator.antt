-- ===== src/Crosscheck/Simulator.antt =====
-- src/analysis/compare_simulator_m5.py, `validated_histogram` and `completed_job`, and
-- src/analysis/check_sim_calibration.py, `check`. A line of a file is what Python's string functions find
-- in it.
pub mod Laws
use memory_tiering.Prelude.{
  ℕ, zero, suc, ◌+◌, ◌*◌, List, [], ◌∷◌, Bool, true, false, Option, some, none, ltb, leb, ◌==◌,
  if◌then◌else◌, not, ◌&&◌, ◌||◌, count_if, contains,
}
use memory_tiering.Prelude.Int.{ℤ, pos, negsuc}
use memory_tiering.Crosscheck.Paired.{cumulative, hist_sum, same_hist}

-- A line: whether it is the header, starts with `#`, is blank; and its fields, as `int` reads them.
pub record Line : Type 0 where
  pub header : Bool
  pub comment : Bool
  pub blank : Bool
  pub fields : List (Option ℤ)

pub data Error : Type 0 where
  bad_header malformed_row invalid_bin incomplete changed bad_population too_many_touches empty :
      Error

unfoldable pub after_header : List Line → List Line
after_header [] = []
after_header (l ∷ ls) = let later = after_header ls in if l.header then ls else later

-- The lines up to the next comment that are not blank.
unfoldable pub block_of : List Line → List Line
block_of [] = []
block_of (l ∷ ls) =
    let later = block_of ls in if l.comment then [] else if l.blank then later else l ∷ later

-- `bins`: a function with the keys that are set.
pub record Bins : Type 0 where
  pub pages : ℕ → ℕ
  pub keys : List ℕ

pub data Outcome (A : Type 0) : Type 0 where
  refused : Error → Outcome A
  passed : A → Outcome A

unfoldable pub set_bin : Bins → ℕ → ℕ → Bins
set_bin b word n = record { pages = λ k. if k == word then n else b.pages k; keys = word ∷ b.keys }

unfoldable pub add_bin : Bins → List (Option ℤ) → Outcome Bins
unfolding set_bin
add_bin b (some (pos word) ∷ some (pos n) ∷ []) =
    if contains b.keys word || not (leb word 64)
    then refused invalid_bin
    else passed (set_bin b word n)
add_bin b (some word ∷ some n ∷ []) = refused invalid_bin
add_bin b _ = refused malformed_row

unfoldable pub after : {A B : Type 0} → Outcome A → (A → Outcome B) → Outcome B
after (refused e) f = refused e
after (passed a) f = f a

unfoldable pub read_block : List Line → Bins → Outcome Bins
unfolding add_bin after
read_block [] b = passed b
read_block (l ∷ ls) b = after (add_bin b l.fields) (read_block ls)

-- What the job recorded, and what the summary says.
pub record Actual : Type 0 where
  pub events : ℕ
  pub epochs : ℕ
  pub pages : ℕ

unfoldable pub same_actual : Actual → Actual → Bool
same_actual a b = (a.events == b.events) && (a.epochs == b.epochs) && (a.pages == b.pages)

-- `sum(i * v for i, v in enumerate(hist))`, up to bin `n`.
unfoldable pub touches : (ℕ → ℕ) → ℕ → ℕ
touches hist zero = 0
touches hist (suc n) = touches hist n + suc n * hist (suc n)

-- `set(bins) == set(range(65))`: no key is above 64.
unfoldable pub covers : ℕ → List ℕ → Bool
covers zero keys = contains keys 0
covers (suc n) keys = covers n keys && contains keys (suc n)

unfoldable pub check_bins : Actual → Actual → Bins → Outcome Bins
unfolding same_actual touches hist_sum covers
check_bins expected actual b =
    if not (covers 64 b.keys)
    then refused incomplete
    else if not (same_actual actual expected)
    then refused changed
    else if not (b.pages 0 == 0) || not (hist_sum b.pages == actual.pages)
    then refused bad_population
    else if ltb actual.events (touches b.pages 64)
    then refused too_many_touches
    else if (actual.pages == 0) || ltb actual.epochs 1
    then refused empty
    else passed b

unfoldable pub validated_histogram : List Line → Actual → Actual → Outcome Bins
unfolding after_header block_of read_block after check_bins
validated_histogram lines expected actual =
    if not (count_if (λ l. l.header) lines == 1)
    then refused bad_header
    else after (read_block (block_of (after_header lines)) (record { pages = λ k. 0; keys = [] }))
        (check_bins expected actual)

pub record Job : Type 0 where
  pub complete : Bool
  pub exit_3 : Bool
  pub stopping : Bool

pub data JobResult : Type 0 where
  no_job missing_evidence completed : JobResult

unfoldable pub completed_job : Job → JobResult
completed_job j =
    if not j.complete
    then no_job
    else if not j.exit_3 || not j.stopping
    then missing_evidence
    else completed

-- A summary of the calibration.
pub record Summary : Type 0 where
  pub dram_accesses : ℕ
  pub page_observations : ℕ
  pub hist : ℕ → ℕ

unfoldable pub is_linear : Summary → Bool
unfolding hist_sum touches
is_linear s =
    ltb 0 s.dram_accesses
    && (s.page_observations == hist_sum s.hist)
    && (s.dram_accesses == touches s.hist 64)

-- The bridge and the controller; `none` is a failed assertion.
unfoldable pub check : Summary → Summary → Option ℕ
unfolding is_linear same_hist
check bridge controller =
    if is_linear bridge
      && is_linear controller
      && (bridge.dram_accesses == controller.dram_accesses)
      && same_hist 64 bridge.hist controller.hist
    then some bridge.dram_accesses
    else none
