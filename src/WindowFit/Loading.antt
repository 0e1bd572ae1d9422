-- ===== src/WindowFit/Loading.antt =====
-- The workloads that `main` of src/analysis/window_fit.py loads, each from a file of its directory.
use memory_tiering.Prelude.{
  ℕ, ◌≡◌, ◌⊎◌, refl, true, false, inl, inr, List, [], ◌∷◌, Option, some, none, ◌==◌, if◌then◌else◌,
  length, Bool-cases, All,
}
use memory_tiering.Trace.Load.{Loaded, load_pages}
use memory_tiering.WindowFit.{lookup, m5_figure4}
use memory_tiering.WindowFit.Main.{Entry, Workload, Dumps, refused, dumps, add_workload, load_all}

-- One of a list.
abbrev pub Some : {A : Type 0} → (A → Type 0) → List A → Type 0
Some P [] = ⊥
Some P (x ∷ xs) = P x ⊎ Some P xs

pub Some-map :
    {A : Type 0} (P Q : A → Type 0) → ((x : A) → P x → Q x) → (xs : List A) → Some P xs → Some Q xs
Some-map P Q f [] h = h
Some-map P Q f (x ∷ xs) (inl h) = inl (f x h)
Some-map P Q f (x ∷ xs) (inr h) = inr (Some-map P Q f xs h)

All-map :
    {A : Type 0} (P Q : A → Type 0) → ((x : A) → P x → Q x) → (xs : List A) → All P xs → All Q xs
All-map P Q f [] h = tt
All-map P Q f (x ∷ xs) h = (f x h.0, All-map P Q f xs h.1)

-- A loaded workload: the name and the records of one of the entries.
abbrev pub Loads : Workload → Entry → Type 0
Loads w e = (w.bench ≡ e.bench) × (load_pages e.file true false ≡ Loaded.loaded w.recs)

abbrev pub AreLoaded : List Entry → Dumps → Type 0
AreLoaded entries (refused l) = Unit
AreLoaded entries (dumps ws) = All (λ w. Some (Loads w) entries) ws

AreLoaded-more : (e : Entry) (es : List Entry) (d : Dumps) → AreLoaded es d → AreLoaded (e ∷ es) d
AreLoaded-more e es (refused l) h = tt
AreLoaded-more e es (dumps ws) h = All-map _ _ (λ w k. inr k) ws h

add_workload-AreLoaded :
    (e : Entry) (es : List Entry) (l : Loaded) (d : Dumps)
    → load_pages e.file true false ≡ l
    → AreLoaded (e ∷ es) d
    → AreLoaded (e ∷ es) (add_workload e.bench l d)
unfolding add_workload
add_workload-AreLoaded e es (Loaded.loaded recs) (dumps ws) h k =
    elim (Bool-cases (length recs == 0)) [ inl z ↦ rw z k | inr z ↦ rw z (inl (refl, h), k) ]
add_workload-AreLoaded e es (Loaded.loaded recs) (refused l) h k = tt
add_workload-AreLoaded e es Loaded.file_not_found d h k = tt
add_workload-AreLoaded e es Loaded.truncated d h k = tt
add_workload-AreLoaded e es Loaded.saturated d h k = tt
add_workload-AreLoaded e es Loaded.capped_dump d h k = tt
add_workload-AreLoaded e es Loaded.uncovered d h k = tt
add_workload-AreLoaded e es Loaded.not_complete d h k = tt

pub load_all-AreLoaded : (entries : List Entry) → AreLoaded entries (load_all entries)
unfolding load_all
load_all-AreLoaded [] = tt
load_all-AreLoaded (e ∷ es) =
    let rest = AreLoaded-more e es (load_all es) (load_all-AreLoaded es) in
    known (lookup m5_figure4 e.bench) rest
  where
    known :
        (o : Option (List ℕ))
        → AreLoaded (e ∷ es) (load_all es)
        → AreLoaded (e ∷ es) (elim o [
          | none ↦ load_all es
          | some values ↦
              if e.size == 0
              then load_all es
              else add_workload e.bench (load_pages e.file true false) (load_all es)
        ])
    known none h = h
    known (some values) h = elim (Bool-cases (e.size == 0)) [
      | inl z ↦ rw z h
      | inr z ↦
          rw z (add_workload-AreLoaded e es (load_pages e.file true false) (load_all es) refl h)
    ]
