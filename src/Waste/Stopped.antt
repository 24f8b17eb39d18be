-- ===== src/Waste/Stopped.antt =====
-- rules/oci.go: stoppedComputeFinding.
use torvix.Prelude.{
  if◌then◌else◌, length, String, Bool, true, false, not, ◌&&◌, ◌||◌, Option, none, some, List, [],
  ◌∷◌, ◌++◌, ◌==◌,
}
use torvix.Prelude.Int.{leb_ℤ, pos}
use torvix.Prelude.Text.{to_upper}
use torvix.Prelude.Keys.{Map, is_some}
use torvix.Prelude.Clock.{Time}
use torvix.Prelude.Float64.{Float64}
use torvix.Waste.Types.{
  Config, Resource, Relationship, CostSignal, Evidence, Finding, number, flag, texts,
  block_volume_attached, boot_volume_attached, rule_stopped_compute,
}
use torvix.Waste.Exclusion.{has_exclusion_tag}
use torvix.Waste.Signals.{age_days, estimate_monthly_waste, severity, base_evidence}
use torvix.Waste.Catalog.{finding_of, signal_at}

-- What the loop over the attachments of an instance gathers.
pub record Attached (F : Type 0) : Type 0 where
  pub storage : List String
  pub last7 : F
  pub last30 : F
  pub has_cost : Bool

abbrev pub is_attachment : Relationship → Bool
is_attachment rel =
    rel.relationship_type == block_volume_attached || rel.relationship_type == boot_volume_attached

module _ {F : Type 0} ⦃fl : Float64 F⦄ where
  -- Whether an attachment's source is a known resource that is not excluded.
  abbrev pub counts : Option Resource → Config F → Bool
  counts none cfg = false
  counts (some storage) cfg = not (has_exclusion_tag storage cfg)

  abbrev pub add_signal : Attached F → String → CostSignal F → Attached F
  add_signal a source cost = record {
    storage = a.storage ++ source ∷ [];
    last7 = if cost.has_last_7d then fl.add a.last7 cost.last_7d_cost else a.last7;
    last30 = if cost.has_last_30d then fl.add a.last30 cost.last_30d_cost else a.last30;
    has_cost = a.has_cost || cost.has_last_7d || cost.has_last_30d;
  }

  unfoldable pub attached_storage :
      Config F → Map (CostSignal F) → Map Resource → List Relationship → Attached F → Attached F
  unfolding has_exclusion_tag
  attached_storage cfg costs resources [] a = a
  attached_storage cfg costs resources (rel ∷ rels) a =
      let source = rel.source_resource_id in
      attached_storage cfg costs resources rels (
        if is_attachment rel && counts (resources source) cfg
        then add_signal a source (signal_at costs source)
        else a)

  abbrev pub nothing_attached : Attached F
  nothing_attached = record {
    storage = [];
    last7 = fl.decimal 0 0;
    last30 = fl.decimal 0 0;
    has_cost = false;
  }

  abbrev total_signal : Attached F → Config F → CostSignal F
  total_signal a cfg = record {
    last_7d_cost = a.last7;
    last_30d_cost = a.last30;
    currency = cfg.currency;
    has_last_7d = fl.lt (fl.decimal 0 0) a.last7;
    has_last_30d = fl.lt (fl.decimal 0 0) a.last30;
  }

  abbrev no_cost_evidence : Bool → List (String × Evidence F)
  no_cost_evidence true = []
  no_cost_evidence false = ("cost_data_unavailable", flag true) ∷ []

  abbrev stopped_finding : Resource → Config F → Time → Attached F → Finding F
  stopped_finding resource cfg now a =
      let cost = total_signal a cfg in
      let estimate = estimate_monthly_waste cost in
      record (finding_of resource now rule_stopped_compute) {
        service = "Compute";
        severity = severity estimate cfg;
        confidence = if a.has_cost || is_some estimate then fl.decimal 85 2 else fl.decimal 70 2;
        estimated_monthly_waste = estimate;
        currency = cfg.currency;
        summary = "Stopped compute instance has attached storage that may still generate cost.";
        recommendation =
            "Review the stopped instance and its attached storage. If the workload is no longer required, terminate the instance and delete unused volumes after backup/approval.";
        evidence =
            base_evidence resource now cost estimate
            ++ (("attached_storage_count", number (pos (length a.storage)))
                ∷ ("attached_storage_resource_ids", texts a.storage)
                ∷ no_cost_evidence a.has_cost);
      }

  abbrev pub stopped_with :
      Resource → Config F → Time → Attached F → List String → Option (Finding F)
  stopped_with resource cfg now a [] = none
  stopped_with resource cfg now a (s ∷ ss) = some (stopped_finding resource cfg now a)

  -- stoppedComputeFinding
  unfoldable pub stopped_compute_finding :
      Resource
      → Config F
      → Time
      → Map (CostSignal F)
      → List Relationship
      → Map Resource
      → Option (Finding F)
  unfolding attached_storage age_days estimate_monthly_waste severity base_evidence to_upper
  stopped_compute_finding resource cfg now costs attached resources =
      let a = attached_storage cfg costs resources attached nothing_attached in
      if not (to_upper resource.lifecycle_state == "STOPPED")
        || leb_ℤ (age_days resource.time_created now) cfg.stopped_instance_min_days
      then none
      else stopped_with resource cfg now a a.storage
