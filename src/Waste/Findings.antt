-- ===== src/Waste/Findings.antt =====
-- engine/service.go: Rules, ListFindings, GetFinding, UpdateFindingStatus and Summary.
pub mod Tallies
use torvix.Prelude.{
  ltb, leb, ◌=ℕ◌, if◌then◌else◌, ltb→lt, lt→ltb, leb→le, le→leb, tests, Bool-cases, Option-cases,
  length, take, drop, keep, any, All, length-append, length-take, length-drop, length-keep,
  length-map, All-append, All-map, ℕ, zero, suc, ◌+◌, ◌-◌, ◌*◌, ◌/◌, ◌%◌, ◌^◌, ◌≤◌, ◌<◌, min,
  String, ◌≡◌, refl, sym, ap, subst, ◌∙◌, ◌≢◌, ◌↔◌, ◌⊎◌, inl, inr, Bool, true, false, not, ◌&&◌,
  ◌||◌, Option, none, some, List, [], ◌∷◌, map, arith, ◌==◌, eq_iff, eq_refl,
}
use Prim.Native.String.{◌++◌}
use torvix.Prelude.Int.{ℤ, pos, leb_ℤ, ltb_ℤ}
use torvix.Prelude.Exec.{Exec, pure, raise, ◌>>=◌}
use torvix.Prelude.Float64.{Float64}
use torvix.Waste.Types.{
  Finding, RuleInfo, status_open, status_accepted, status_ignored, status_false_positive,
  status_fixed, status_resolved,
}
use torvix.Waste.Catalog.{rule_catalog}
use torvix.Waste.Results.{FindingFilters, Summary, Repository}

-- validStatus
unfoldable pub valid_status : String → Bool
valid_status status =
    status == status_open
    || status == status_accepted
    || status == status_ignored
    || status == status_false_positive
    || status == status_fixed
    || status == status_resolved

-- increment
unfoldable pub increment : (String → ℕ) → String → String → ℕ
increment values key k =
    if (if key == "" then "unknown" else key) == k then suc (values k) else values k

-- Rules
unfoldable pub rules : List RuleInfo
unfolding rule_catalog
rules = rule_catalog

abbrev no_repository : String
no_repository = "waste repository is not configured"

module _ {F : Type 0} ⦃fl : Float64 F⦄ where
  abbrev pub estimate_of : Option F → F → F
  estimate_of none sum = sum
  estimate_of (some x) sum = fl.add sum x

  abbrev pub count_finding : Summary F → Finding F → Summary F
  unfolding increment
  count_finding s f = record s {
    total_open_findings = suc s.total_open_findings;
    estimated_monthly_waste = estimate_of f.estimated_monthly_waste s.estimated_monthly_waste;
    findings_by_severity = increment s.findings_by_severity f.severity;
    findings_by_rule = increment s.findings_by_rule f.rule_id;
    findings_by_region = increment s.findings_by_region f.region;
    findings_by_scope = increment s.findings_by_scope f.scope_name;
    findings_by_service = increment s.findings_by_service f.service;
  }

  -- The loop of Summary.
  unfoldable pub count_findings : Summary F → List (Finding F) → Summary F
  unfolding count_finding
  count_findings s [] = s
  count_findings s (f ∷ fs) = count_findings (count_finding s f) fs

  abbrev pub empty_summary : List (Finding F) → Summary F
  empty_summary top = record {
    total_open_findings = 0;
    estimated_monthly_waste = fl.decimal 0 0;
    findings_by_severity = λ k. 0;
    findings_by_rule = λ k. 0;
    findings_by_region = λ k. 0;
    findings_by_scope = λ k. 0;
    findings_by_service = λ k. 0;
    top_findings = top;
  }

  abbrev pub top_filters : FindingFilters F → FindingFilters F
  top_filters filters = record filters {
    status = status_open;
    limit =
        if leb_ℤ filters.limit (pos 0) || ltb_ℤ (pos 10) filters.limit
        then pos 10
        else filters.limit;
  }

  abbrev pub all_filters : FindingFilters F → FindingFilters F
  all_filters filters = record (top_filters filters) { limit = pos 10_000; offset = pos 0 }

module _ {F W : Type 0} ⦃fl : Float64 F⦄ where
  -- ListFindings
  unfoldable pub list_findings :
      Option (Repository F W) → FindingFilters F → Exec W (List (Finding F))
  list_findings none filters = pure []
  list_findings (some repo) filters = repo.list_waste_findings filters

  -- GetFinding
  unfoldable pub get_finding : Option (Repository F W) → ℕ → Exec W (Finding F)
  get_finding none id = raise no_repository
  get_finding (some repo) id = repo.get_waste_finding id

  -- UpdateFindingStatus
  unfoldable pub update_finding_status : Option (Repository F W) → ℕ → String → Exec W (Finding F)
  unfolding valid_status
  update_finding_status repo id status =
      if valid_status status
      then elim repo [
        | none ↦ raise no_repository
        | some r ↦ r.update_waste_finding_status id status
      ]
      else raise ("invalid waste finding status: " ++ status)

  -- Summary
  unfoldable pub summary : Option (Repository F W) → FindingFilters F → Exec W (Summary F)
  unfolding list_findings count_findings
  summary repo filters = do
    top ← list_findings repo (top_filters filters)
    findings ← list_findings repo (all_filters filters)
    pure (count_findings (empty_summary top) findings)
