-- ===== src/Waste/Findings/Tallies.antt =====
-- What the counters of a summary add up to.
use torvix.Prelude.{
  zero, suc, inr, inl, ltb, Bool-cases, ◌<◌, eq_iff, All, suc, ◌≢◌, ◌≤◌, if◌then◌else◌, length,
  keep, ℕ, ◌+◌, String, ◌≡◌, refl, Bool, ◌||◌, some, List, [], ◌∷◌, arith, ◌==◌,
}
use torvix.Prelude.Result.{ok}
use torvix.Prelude.Int.{ℤ, pos, negsuc, leb_ℤ, ltb_ℤ}
use torvix.Prelude.Exec.{◌>>=◌}
use torvix.Prelude.Float64.{Float64}
use torvix.Waste.Types.{Finding, status_open}
use torvix.Waste.Results.{FindingFilters, Summary, Repository}
use torvix.Waste.Findings.{
  increment, count_finding, count_findings, empty_summary, summary, list_findings, top_filters,
  all_filters,
}

-- The limit of the first list is between one and ten.
clamp :
    (n : ℤ)
    → (k : ℕ) × ((if leb_ℤ n (pos 0) || ltb_ℤ (pos 10) n then pos 10 else n) ≡ pos (suc k))
      × (k < 10)
clamp (negsuc n) = (9, ground arith, omega arith)
clamp (pos zero) = (9, ground arith, omega arith)
clamp (pos (suc k)) = elim (Bool-cases (ltb 10 (suc k))) [
  | inl e ↦ (9, ground arith, omega arith)
  | inr e ↦ (k, ground arith, ground arith)
]

open-ne-empty : status_open ≢ ""
open-ne-empty e = ground (arith, eq_iff status_open "")

-- A finding's text as the key that it is counted at.
abbrev pub counted_as : String → String → Bool
counted_as key s = (if s == "" then "unknown" else s) == key

module _ {F : Type 0} ⦃fl : Float64 F⦄ where
  abbrev pub IsOpen : Finding F → Type 0
  IsOpen f = f.status ≡ "open"

  -- How many findings are counted at the key, by a field.
  abbrev pub tally : (Finding F → String) → List (Finding F) → String → ℕ
  tally field fs key = length (keep (λ f. counted_as key (field f)) fs)

  count_findings-total :
      (s : Summary F) (fs : List (Finding F))
      → (count_findings s fs).total_open_findings ≡ s.total_open_findings + length fs
  unfolding count_findings
  count_findings-total s [] = omega arith
  count_findings-total s (f ∷ fs) = omega (arith, count_findings-total (count_finding s f) fs)

  -- A field of the findings, and the counters of the summary that belong to it.
  module _ (field : Finding F → String) (counters : Summary F → String → ℕ)
      (step : (s : Summary F) (f : Finding F) (key : String)
        → counters (count_finding s f) key ≡ increment (counters s) (field f) key) where
    count_findings-tally :
        (s : Summary F) (fs : List (Finding F)) (key : String)
        → counters (count_findings s fs) key ≡ counters s key + tally field fs key
    unfolding count_findings increment
    count_findings-tally s [] key = omega arith
    count_findings-tally s (f ∷ fs) key =
        ground (arith, count_findings-tally (count_finding s f) fs key, step s f key)

    tally_from_zero :
        (s : Summary F) (fs : List (Finding F)) (key : String)
        → counters s key ≡ 0
        → counters (count_findings s fs) key ≡ tally field fs key
    tally_from_zero s fs key h = omega (arith, count_findings-tally s fs key, h)

  -- The counters of a summary of the findings: their number, and by each field how many there are at
  -- each key.
  pub record Counts (s : Summary F) (fs : List (Finding F)) : Type 0 where
    pub total : s.total_open_findings ≡ length fs
    pub by_severity : (key : String) → s.findings_by_severity key ≡ tally (λ f. f.severity) fs key
    pub by_rule : (key : String) → s.findings_by_rule key ≡ tally (λ f. f.rule_id) fs key
    pub by_region : (key : String) → s.findings_by_region key ≡ tally (λ f. f.region) fs key
    pub by_scope : (key : String) → s.findings_by_scope key ≡ tally (λ f. f.scope_name) fs key
    pub by_service : (key : String) → s.findings_by_service key ≡ tally (λ f. f.service) fs key

  pub count_findings-Counts :
      (top fs : List (Finding F)) → Counts (count_findings (empty_summary top) fs) fs
  unfolding increment
  count_findings-Counts top fs = record {
    total = omega (arith, count_findings-total (empty_summary top) fs);
    by_severity = λ key.
        tally_from_zero (λ f. f.severity) (λ s. s.findings_by_severity) (λ s f k. refl)
          (empty_summary top) fs key refl;
    by_rule = λ key.
        tally_from_zero (λ f. f.rule_id) (λ s. s.findings_by_rule) (λ s f k. refl)
          (empty_summary top) fs key refl;
    by_region = λ key.
        tally_from_zero (λ f. f.region) (λ s. s.findings_by_region) (λ s f k. refl)
          (empty_summary top) fs key refl;
    by_scope = λ key.
        tally_from_zero (λ f. f.scope_name) (λ s. s.findings_by_scope) (λ s f k. refl)
          (empty_summary top) fs key refl;
    by_service = λ key.
        tally_from_zero (λ f. f.service) (λ s. s.findings_by_service) (λ s f k. refl)
          (empty_summary top) fs key refl;
  }

  keep_top :
      (s : Summary F) (fs : List (Finding F)) → (count_findings s fs).top_findings ≡ s.top_findings
  unfolding count_findings
  keep_top s [] = refl
  keep_top s (f ∷ fs) = keep_top (count_finding s f) fs

  -- What a database promises of a list of findings: they have the status that the filters ask for, and
  -- they are no more than the limit, where there is one.
  pub record IsListing {W : Type 0} (repo : Repository F W) : Type 0 where
    pub asked :
        (filters : FindingFilters F) (w w' : W) (fs : List (Finding F))
        → filters.status ≢ ""
        → repo.list_waste_findings filters w ≡ (ok fs, w')
        → All (λ f. f.status ≡ filters.status) fs
    pub limited :
        (k : ℕ) (filters : FindingFilters F) (w w' : W) (fs : List (Finding F))
        → filters.limit ≡ pos (suc k)
        → repo.list_waste_findings filters w ≡ (ok fs, w')
        → length fs ≤ suc k

  -- Where both lists can be read and the database keeps its promises of a list, Summary succeeds; it
  -- carries the first list, of at most ten findings, all of them open, and its counters are those of the
  -- second, whose findings are all open too.
  pub summary-Counts :
      {W : Type 0} (repo : Repository F W) (filters : FindingFilters F) (w w₁ w₂ : W)
      (top fs : List (Finding F))
      → IsListing repo
      → list_findings (some repo) (top_filters filters) w ≡ (ok top, w₁)
      → list_findings (some repo) (all_filters filters) w₁ ≡ (ok fs, w₂)
      → (s : Summary F) × (summary (some repo) filters w ≡ (ok s, w₂))
        × (s.top_findings ≡ top)
        × (length top ≤ 10)
        × All IsOpen top
        × Counts s fs
        × All IsOpen fs
  unfolding summary list_findings ◌>>=◌
  summary-Counts repo filters w w₁ w₂ top fs law e₁ e₂ =
      let (k, at, small) = clamp filters.limit in
      let few = law.limited k (top_filters filters) w w₁ top at e₁ in
      (
        count_findings (empty_summary top) fs,
        rw (e₁, e₂) refl,
        keep_top (empty_summary top) fs,
        omega (arith, few, small),
        law.asked (top_filters filters) w w₁ top open-ne-empty e₁,
        count_findings-Counts top fs,
        law.asked (all_filters filters) w₁ w₂ fs open-ne-empty e₂,
      )
