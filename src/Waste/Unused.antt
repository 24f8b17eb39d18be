-- ===== src/Waste/Unused.antt =====
-- rules/oci.go: detachedVolumeFinding and unusedReservedPublicIPFinding.
use torvix.Prelude.{
  ltb, if◌then◌else◌, ℕ, String, Bool, false, not, ◌&&◌, ◌||◌, Option, none, some, List, [], ◌∷◌,
  ◌++◌, ◌==◌,
}
use torvix.Prelude.Int.{leb_ℤ, pos}
use torvix.Prelude.Keys.{is_some}
use torvix.Prelude.Clock.{Time}
use torvix.Prelude.Float64.{Float64}
use torvix.Waste.Types.{
  Config, Resource, Relationship, CostSignal, Finding, number, flag, block_volume_attached,
  boot_volume_attached, public_ip_assigned, rule_detached_boot_volume, rule_unused_public_ip,
}
use torvix.Waste.Signals.{
  count_relationships, is_active_storage_state, is_active_public_ip_state, age_days,
  estimate_monthly_waste, observed_cost, severity, currency, base_evidence,
}
use torvix.Waste.Catalog.{finding_of}

-- The attachment that a rule on volumes looks for.
abbrev pub attachment_of : String → String
attachment_of rule =
    if rule == rule_detached_boot_volume then boot_volume_attached else block_volume_attached

module _ {F : Type 0} ⦃fl : Float64 F⦄ where
  -- hasCost && observedCost(cost) <= cfg.MinCostThreshold
  abbrev pub is_cheap : CostSignal F → Config F → Bool
  unfolding estimate_monthly_waste observed_cost
  is_cheap cost cfg =
      is_some (estimate_monthly_waste cost) && fl.le (observed_cost cost) cfg.min_cost_threshold

  abbrev detached_finding :
      Resource → Config F → Time → CostSignal F → ℕ → String → String → String → String → Finding F
  detached_finding resource cfg now cost attached rule service summary recommendation =
      let estimate = estimate_monthly_waste cost in
      record (finding_of resource now rule) {
        service = service;
        severity = severity estimate cfg;
        confidence = if is_some estimate then fl.decimal 95 2 else fl.decimal 85 2;
        estimated_monthly_waste = estimate;
        currency = currency cost cfg;
        summary = summary;
        recommendation = recommendation;
        evidence =
            base_evidence resource now cost estimate
            ++ ("attachment_count", number (pos attached)) ∷ [];
      }

  -- detachedVolumeFinding; `none` is the result that is not ok
  unfoldable pub detached_volume_finding :
      Resource
      → Config F
      → Time
      → CostSignal F
      → List Relationship
      → String
      → String
      → String
      → String
      → Option (Finding F)
  unfolding is_active_storage_state age_days count_relationships is_cheap severity currency
      base_evidence
  detached_volume_finding resource cfg now cost rels rule service summary recommendation =
      let attached = count_relationships rels (attachment_of rule) in
      if not (is_active_storage_state resource.lifecycle_state)
        || leb_ℤ (age_days resource.time_created now) cfg.min_resource_age_days
      then none
      else if ltb 0 attached
      then none
      else if is_cheap cost cfg
      then none
      else some
          (detached_finding resource cfg now cost attached rule service summary recommendation)

  abbrev unused_finding : Resource → Config F → Time → CostSignal F → Finding F
  unused_finding resource cfg now cost =
      let estimate = estimate_monthly_waste cost in
      record (finding_of resource now rule_unused_public_ip) {
        service = "Networking";
        severity = severity estimate cfg;
        confidence = if is_some estimate then fl.decimal 90 2 else fl.decimal 75 2;
        estimated_monthly_waste = estimate;
        currency = currency cost cfg;
        summary = "Unused reserved public IP is possibly generating cost.";
        recommendation = "Release the unused reserved public IP if it is not needed.";
        evidence = base_evidence resource now cost estimate ++ ("assigned", flag false) ∷ [];
      }

  -- unusedReservedPublicIPFinding
  unfoldable pub unused_public_ip_finding :
      Resource → Config F → Time → CostSignal F → List Relationship → Option (Finding F)
  unfolding is_active_public_ip_state age_days count_relationships is_cheap severity currency
      base_evidence
  unused_public_ip_finding resource cfg now cost rels =
      if not (is_active_public_ip_state resource.lifecycle_state)
        || leb_ℤ (age_days resource.time_created now) cfg.min_resource_age_days
      then none
      else if ltb 0 (count_relationships rels public_ip_assigned)
      then none
      else if is_cheap cost cfg
      then none
      else some (unused_finding resource cfg now cost)
