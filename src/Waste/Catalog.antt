-- ===== src/Waste/Catalog.antt =====
-- rules/oci.go: the catalog of the rules, and what all of their findings share.
use torvix.Prelude.{String, false, none, List, [], ◌∷◌}
use torvix.Prelude.Keys.{Map, get_or}
use torvix.Prelude.Clock.{Time}
use torvix.Prelude.Float64.{Float64}
use torvix.Domain.{provider_oci}
use torvix.Waste.Types.{
  Resource, CostSignal, Finding, RuleInfo, resource_block_volume, resource_boot_volume,
  resource_compute_instance, resource_reserved_public_ip, rule_detached_block_volume,
  rule_detached_boot_volume, rule_stopped_compute, rule_unused_public_ip, status_open,
}

-- RuleCatalog
unfoldable pub rule_catalog : List RuleInfo
rule_catalog =
    record {
      rule_id = rule_detached_block_volume;
      provider = provider_oci;
      resource_type = resource_block_volume;
      severity_basis = "estimated monthly waste";
      description = "Detects active OCI block volumes with no instance attachment.";
      recommendation =
          "Review the detached block volume and delete it after owner approval if no restore requirement exists.";
    }
    ∷ record {
      rule_id = rule_detached_boot_volume;
      provider = provider_oci;
      resource_type = resource_boot_volume;
      severity_basis = "estimated monthly waste";
      description = "Detects active OCI boot volumes with no instance attachment.";
      recommendation =
          "Review the detached boot volume and delete it after approval if no restore requirement exists.";
    }
    ∷ record {
      rule_id = rule_stopped_compute;
      provider = provider_oci;
      resource_type = resource_compute_instance;
      severity_basis = "attached storage cost";
      description =
          "Detects stopped OCI compute instances whose attached storage may still generate cost.";
      recommendation =
          "Review the stopped instance and its attached storage, then terminate/delete unused resources after backup and approval.";
    }
    ∷ record {
      rule_id = rule_unused_public_ip;
      provider = provider_oci;
      resource_type = resource_reserved_public_ip;
      severity_basis = "estimated monthly waste";
      description = "Detects active reserved public IPs with no assignment.";
      recommendation = "Release the unused reserved public IP if it is not needed.";
    }
    ∷ []

module _ {F : Type 0} ⦃fl : Float64 F⦄ where
  -- The fields that every finding takes from its resource.
  abbrev pub finding_of : Resource → Time → String → Finding F
  finding_of resource now rule = record {
    id = 0;
    provider = provider_oci;
    resource_id = resource.resource_id;
    resource_name = resource.resource_name;
    resource_type = resource.resource_type;
    region = resource.region;
    scope_id = resource.scope_id;
    scope_name = resource.scope_name;
    service = "";
    rule_id = rule;
    severity = "";
    confidence = fl.decimal 0 0;
    estimated_monthly_waste = none;
    currency = "";
    summary = "";
    recommendation = "";
    evidence = [];
    status = status_open;
    detected_at = now;
    last_seen_at = now;
    resolved_at = none;
  }

  abbrev no_signal : CostSignal F
  no_signal = record {
    last_7d_cost = fl.decimal 0 0;
    last_30d_cost = fl.decimal 0 0;
    currency = "";
    has_last_7d = false;
    has_last_30d = false;
  }

  abbrev pub signal_at : Map (CostSignal F) → String → CostSignal F
  signal_at costs id = get_or (costs id) no_signal
