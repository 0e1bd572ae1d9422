-- ===== src/Profile/Study/Laws.antt =====
-- What a study that completes has established of its profiles.
use Prim.Native.String.{String}
use memory_tiering.Prelude.{
  ℕ, ◌+◌, ◌≡◌, ◌⊎◌, inl, inr, refl, ap, ◌∙◌, List, [], ◌∷◌, Bool, true, false, Option, some, none,
  map, ◌==◌, not, ◌&&◌, ◌||◌, Bool-cases, arith,
}
use memory_tiering.Prelude.Int.{ℤ, pos, negsuc}
use memory_tiering.Histogram.{int_eq}
use memory_tiering.RealInput.Runs.{Tool, baseline, local_bbl, triangles}
use memory_tiering.Profile.Parse.{CsvRow, Attribution, parse_report, parsed_rows}
use memory_tiering.Profile.Parse.Laws.{IsAttribution, parse_report-IsAttribution}
use memory_tiering.Profile.Study.{
  capture, is_cutoff, ProfileRun, Collection, bounded_prefix, complete_audited, Profile, Checked,
  check_failed, checked, native_answer, answer_check, collection_of, Profiled, profile_failed,
  profiled, attributed, reported_on, after_check, profile_case, Profiles, profiles_failed, profiles,
  cons_profile, run_profiles, profile_cases, World, Study, completed, exact_outputs, study_of, main,
}

unfoldable pub case_of : Profile → ℕ × Tool
case_of p = (p.threads, p.case)

-- A profile of a run: a cut-off run is a bounded prefix; any other exited with 0, passed the histogram
-- checks and has the known answer. Its groups are those of the report that `perf` printed.
pub record IsProfile (lower : String → String) (r : ProfileRun) (p : Profile) : Type 0 where
  pub collected :
      ((p.collection ≡ bounded_prefix) × (r.child.exit_code ≡ none))
      ⊎ ((p.collection ≡ complete_audited)
          × (r.child.exit_code ≡ some (pos 0))
          × (r.histograms_pass ≡ true)
          × (triangles r.matches ≡ some 957682))
  pub report :
      (csv : List CsvRow) × (r.perf_report ≡ some csv)
      × IsAttribution (parsed_rows lower csv) p.attribution

abbrev Collected : ProfileRun → Option ℤ → Collection → Type 0
Collected r code c =
    ((c ≡ bounded_prefix) × (code ≡ none))
    ⊎ ((c ≡ complete_audited)
        × (code ≡ some (pos 0))
        × (r.histograms_pass ≡ true)
        × (triangles r.matches ≡ some 957682))

answer_check-checked :
    (pass : Bool) (count : Option ℕ) (c : Collection)
    → answer_check pass count ≡ checked c
    → (c ≡ complete_audited) × (pass ≡ true) × (count ≡ some 957682)
unfolding answer_check native_answer
answer_check-checked false count c h = absurd (ground arith)
answer_check-checked true none c h = absurd (ground arith)
answer_check-checked true (some n) c h = elim (Bool-cases (n == native_answer)) [
  | inr e ↦ absurd (ground (arith, h, e))
  | inl e ↦
      let same : n ≡ 957682 = ground (arith, e) in
      (ground (arith, h, e), refl, ap (λ k. some k) same)
]

int_eq-pos : (z : ℤ) (n : ℕ) → int_eq z (pos n) ≡ true → z ≡ pos n
unfolding int_eq
int_eq-pos (pos m) n h = ground arith
int_eq-pos (negsuc m) n h = absurd (cc)

collection_of-checked :
    (r : ProfileRun) (code : Option ℤ) (c : Collection)
    → collection_of r code ≡ checked c
    → Collected r code c
unfolding collection_of
collection_of-checked r none c h = inl (cc, refl)
collection_of-checked r (some code) c h = elim (Bool-cases (int_eq code (pos 0))) [
  | inr e ↦ absurd (ground (arith, h, e))
  | inl e ↦
      let zero_code = int_eq-pos code 0 e in
      let (same, pass, count) =
        answer_check-checked r.histograms_pass (triangles r.matches) c (rw e at h) in
      inr (same, ap (λ z. some z) zero_code, pass, count)
]

module _ (lower : String → String) (threads : ℕ) (tool : Tool) (r : ProfileRun) where
  attributed-profiled :
      (c : Collection) (a : Option Attribution) (p : Profile)
      → attributed threads tool r c a ≡ profiled p
      → (case_of p ≡ (threads, tool)) × (p.collection ≡ c) × (a ≡ some p.attribution)
  unfolding attributed case_of
  attributed-profiled c none p h = absurd (ground arith)
  attributed-profiled c (some a) p h =
      let same : p ≡ record {
        case = tool;
        threads = threads;
        captured = capture r.child;
        interrupted = is_cutoff r.child.exit_code && r.has_manifest;
        collection = c;
        attribution = a;
      } =
        cc in
      rw same (refl, refl, refl)

  reported_on-profiled :
      (c : Collection) (csv : Option (List CsvRow)) (p : Profile)
      → reported_on lower threads tool r c csv ≡ profiled p
      → (case_of p ≡ (threads, tool))
        × (p.collection ≡ c)
        × ((rows : List CsvRow) × (csv ≡ some rows)
            × IsAttribution (parsed_rows lower rows) p.attribution)
  unfolding reported_on
  reported_on-profiled c none p h = absurd (ground arith)
  reported_on-profiled c (some rows) p h =
      let (k, s, a) = attributed-profiled c (parse_report lower rows) p h in
      (k, s, (rows, refl, parse_report-IsAttribution lower rows p.attribution a))

  after_check-profiled :
      (k : Checked) (p : Profile)
      → after_check lower threads tool r k ≡ profiled p
      → (c : Collection) × (k ≡ checked c)
        × (reported_on lower threads tool r c r.perf_report ≡ profiled p)
  unfolding after_check
  after_check-profiled (check_failed e) p h = absurd (ground arith)
  after_check-profiled (checked c) p h = (c, refl, h)

  profile_case-IsProfile :
      (p : Profile)
      → profile_case lower threads tool r ≡ profiled p
      → (case_of p ≡ (threads, tool)) × IsProfile lower r p
  unfolding profile_case
  profile_case-IsProfile p h =
      let (c, k, s) = after_check-profiled (collection_of r r.child.exit_code) p h in
      let (same_case, same, report) = reported_on-profiled c r.perf_report p s in
      (
        same_case,
        record {
          collected = rw same (collection_of-checked r r.child.exit_code c k);
          report = report;
        },
      )

-- The profiles are those of the runs, from an index on.
unfoldable pub AreProfiles : (String → String) → (ℕ → ProfileRun) → ℕ → List Profile → Type 0
AreProfiles lower runs index [] = Unit
AreProfiles lower runs index (p ∷ ps) =
    IsProfile lower (runs index) p × AreProfiles lower runs (index + 1) ps

cons_profile-profiles :
    (rest : Profiles) (x : Profiled) (ps : List Profile)
    → cons_profile rest x ≡ profiles ps
    → (p : Profile) × (qs : List Profile) × (x ≡ profiled p) × (rest ≡ profiles qs) × (ps ≡ p ∷ qs)
unfolding cons_profile
cons_profile-profiles rest (profile_failed e) ps h = absurd (ground arith)
cons_profile-profiles (profiles_failed e) (profiled p) ps h = absurd (ground arith)
cons_profile-profiles (profiles qs) (profiled p) ps h = (p, qs, refl, refl, cc)

run_profiles-AreProfiles :
    (lower : String → String) (runs : ℕ → ProfileRun) (index : ℕ) (cs : List (ℕ × Tool))
    (ps : List Profile)
    → run_profiles lower runs index cs ≡ profiles ps
    → (map case_of ps ≡ cs) × AreProfiles lower runs index ps
unfolding run_profiles AreProfiles
run_profiles-AreProfiles lower runs index [] ps h = let same : ps ≡ [] = cc in rw same (refl, tt)
run_profiles-AreProfiles lower runs index ((threads, tool) ∷ more) ps h =
    let (p, qs, x, rest, same) =
      cons_profile-profiles (run_profiles lower runs (index + 1) more)
        (profile_case lower threads tool (runs index)) ps h in
    let here = profile_case-IsProfile lower threads tool (runs index) p x in
    let later = run_profiles-AreProfiles lower runs (index + 1) more qs rest in
    rw same
      (ap (λ k. k ∷ map case_of qs) here.0 ∙ ap (◌∷◌ (threads, tool)) later.0, (here.1, later.1))

study_of-profiles :
    (w : World) (ps : Profiles) (s : Study) → study_of w ps ≡ completed s → ps ≡ profiles s.profiles
unfolding study_of
study_of-profiles w (profiles_failed e) s h = absurd (ground arith)
study_of-profiles w (profiles ps) s h =
    let same : s ≡ record { profiles = ps; one_thread_exact_outputs = exact_outputs w ps } = cc in
    rw same refl

-- A study that completes has the frozen graph and tools, and the profiles of the six cases that are
-- written out, in their order. Each is of its own run: a bounded prefix if the run was cut off, and else a run that exited
-- with 0 and passed its checks with the known answer; its groups share out the report that `perf` printed.
pub main-AreProfiles :
    (lower : String → String) (w : World) (s : Study)
    → main lower w ≡ completed s
    → (w.same_graph ≡ true)
      × (w.same_tools ≡ true)
      × (map case_of s.profiles
          ≡ (1, baseline)
            ∷ (1, local_bbl)
            ∷ (20, baseline)
            ∷ (20, local_bbl)
            ∷ (20, local_bbl)
            ∷ (20, baseline)
            ∷ [])
      × AreProfiles lower w.runs 0 s.profiles
unfolding main profile_cases
main-AreProfiles lower w s h = elim (Bool-cases (not w.same_graph || not w.same_tools)) [
  | inl e ↦ absurd (ground (arith, h, e))
  | inr e ↦
      let ps = study_of-profiles w (run_profiles lower w.runs 0 profile_cases) s (rw e at h) in
      let parts = run_profiles-AreProfiles lower w.runs 0 profile_cases s.profiles ps in
      (ground (arith, e), ground (arith, e), parts.0, parts.1)
]
