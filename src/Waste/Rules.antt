-- ===== src/Waste/Rules.antt =====
-- rules/oci.go: EvaluateOCI. The costs are a map from resource ids, whose missing entries read as no
-- signal.
pub mod Attachments
pub mod Verdict
pub mod Reported
use torvix.Prelude.{
  ltb, leb, ◌=ℕ◌, if◌then◌else◌, ltb→lt, lt→ltb, leb→le, le→leb, tests, Bool-cases, Option-cases,
  length, take, drop, keep, any, All, length-append, length-take, length-drop, length-keep,
  length-map, All-append, All-map, ℕ, zero, suc, ◌+◌, ◌-◌, ◌*◌, ◌/◌, ◌%◌, ◌^◌, ◌≤◌, ◌<◌, min,
  String, ◌≡◌, refl, sym, ap, subst, ◌∙◌, ◌≢◌, ◌↔◌, ◌⊎◌, inl, inr, Bool, true, false, not, ◌&&◌,
  ◌||◌, Option, none, some, List, [], ◌∷◌, ◌++◌, map, arith, ◌==◌, eq_iff, eq_refl,
}
use torvix.Prelude.Int.{ℤ, leb_ℤ, ltb_ℤ, pos}
use torvix.Prelude.Text.{to_upper}
use torvix.Prelude.Keys.{Map, insert, empty, get_or, is_some}
use torvix.Prelude.Clock.{Time}
use torvix.Prelude.Float64.{Float64}
use torvix.Domain.{provider_oci}
use torvix.Waste.Types.{
  Config, Resource, Relationship, CostSignal, Evidence, Finding, RuleInfo, number, flag, texts,
  resource_block_volume, resource_boot_volume, resource_compute_instance, resource_public_ip,
  resource_reserved_public_ip, block_volume_attached, boot_volume_attached, public_ip_assigned,
  rule_detached_block_volume, rule_detached_boot_volume, rule_stopped_compute,
  rule_unused_public_ip, status_open,
}
use torvix.Waste.Exclusion.{has_exclusion_tag}
use torvix.Waste.Signals.{
  relationships_by_source, relationships_by_target, count_relationships, is_active_storage_state,
  is_active_public_ip_state, age_days, estimate_monthly_waste, observed_cost, severity, currency,
  base_evidence,
}
use torvix.Waste.Catalog.{signal_at}
use torvix.Waste.Unused.{detached_volume_finding, unused_public_ip_finding}
use torvix.Waste.Stopped.{stopped_compute_finding}

abbrev pub block_summary : String
block_summary = "Detached block volume is possibly still generating cost."

abbrev pub block_recommendation : String
block_recommendation =
    "Review the detached block volume. If no backup or restore requirement exists, delete it after owner approval."

abbrev pub boot_summary : String
boot_summary = "Detached boot volume is possibly still generating cost."

abbrev pub boot_recommendation : String
boot_recommendation =
    "Review the detached boot volume. If the instance is no longer required and no restore requirement exists, delete it after approval."

-- A resource of the provider that the rules are about; the empty provider counts as it.
abbrev pub is_oci : Resource → Bool
is_oci r = r.provider == "" || r.provider == provider_oci

-- The map from ids to the resources of the provider; a later one replaces an earlier one.
unfoldable pub by_id : List Resource → Map Resource
by_id [] id = none
by_id (r ∷ rs) id = elim (by_id rs id) [
  | some later ↦ some later
  | none ↦ if is_oci r && r.resource_id == id then some r else none
]

module _ {F : Type 0} ⦃fl : Float64 F⦄ where
  -- The switch of EvaluateOCI on the type of a resource.
  unfoldable pub evaluate_one :
      Config F
      → Time
      → List Relationship
      → Map (CostSignal F)
      → Map Resource
      → Resource
      → Option (Finding F)
  unfolding detached_volume_finding stopped_compute_finding unused_public_ip_finding
      relationships_by_source relationships_by_target
  evaluate_one cfg now rels costs resources r =
      let cost = signal_at costs r.resource_id in
      let from = relationships_by_source rels r.resource_id in
      if r.resource_type == resource_block_volume
      then detached_volume_finding r cfg now cost from rule_detached_block_volume "Block Storage"
          block_summary block_recommendation
      else if r.resource_type == resource_boot_volume
      then detached_volume_finding r cfg now cost from rule_detached_boot_volume "Block Storage"
          boot_summary boot_recommendation
      else if r.resource_type == resource_compute_instance
      then stopped_compute_finding r cfg now costs (relationships_by_target rels r.resource_id)
          resources
      else if r.resource_type == resource_public_ip
          || r.resource_type == resource_reserved_public_ip
      then unused_public_ip_finding r cfg now cost from
      else none

  abbrev pub with_finding : Option (Finding F) → List (Finding F) → List (Finding F)
  with_finding none fs = fs
  with_finding (some f) fs = f ∷ fs

  -- The loop of EvaluateOCI: its findings, and how many resources are excluded.
  unfoldable pub evaluate_each :
      Config F
      → Time
      → List Relationship
      → Map (CostSignal F)
      → Map Resource
      → List Resource
      → List (Finding F) × ℕ
  unfolding evaluate_one has_exclusion_tag
  evaluate_each cfg now rels costs resources [] = ([], 0)
  evaluate_each cfg now rels costs resources (r ∷ rs) =
      let (findings, skipped) = evaluate_each cfg now rels costs resources rs in
      if not (is_oci r)
      then (findings, skipped)
      else if has_exclusion_tag r cfg
      then (findings, suc skipped)
      else (with_finding (evaluate_one cfg now rels costs resources r) findings, skipped)

  -- EvaluateOCI, at a time that is not zero
  unfoldable pub evaluate_oci :
      Config F
      → Time
      → List Resource
      → List Relationship
      → Map (CostSignal F)
      → List (Finding F) × ℕ
  unfolding evaluate_each by_id
  evaluate_oci cfg now resources rels costs =
      evaluate_each cfg now rels costs (by_id resources) resources
