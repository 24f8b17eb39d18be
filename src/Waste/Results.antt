-- ===== src/Waste/Results.antt =====
-- types.go: what the service takes and returns, and the database and the inventory that it calls.
use torvix.Prelude.{ℕ, String, Bool, Option, List}
use torvix.Prelude.Int.{ℤ}
use torvix.Prelude.Clock.{Time}
use torvix.Prelude.Exec.{Exec}
use torvix.Domain.{Provider}
use torvix.Waste.Types.{Resource, Relationship, CostSignal, Finding}

pub record InventoryResult : Type 0 where
  pub provider : Provider
  pub resources_scanned : ℕ
  pub relationships_scanned : ℕ
  pub resources_upserted : ℕ
  pub relationships_upserted : ℕ
  pub skipped : Bool
  pub message : String

pub record DetectionResult : Type 0 where
  pub provider : Provider
  pub resources_scanned : ℕ
  pub findings_created : ℕ
  pub findings_updated : ℕ
  pub findings_resolved : ℕ
  pub resources_skipped : ℕ
  pub skipped : Bool
  pub message : String
  pub duration : ℕ

pub record FindingFilters (F : Type 0) : Type 0 where
  pub provider : Provider
  pub region : String
  pub scope_id : String
  pub scope_name : String
  pub service : String
  pub resource_type : String
  pub rule_id : String
  pub severity : String
  pub status : String
  pub min_confidence : Option F
  pub min_estimated_monthly_waste : Option F
  pub limit : ℤ
  pub offset : ℤ

-- A map of counters is read by its keys.
pub record Summary (F : Type 0) : Type 0 where
  pub total_open_findings : ℕ
  pub estimated_monthly_waste : F
  pub findings_by_severity : String → ℕ
  pub findings_by_rule : String → ℕ
  pub findings_by_region : String → ℕ
  pub findings_by_scope : String → ℕ
  pub findings_by_service : String → ℕ
  pub top_findings : List (Finding F)

-- The methods of waste.Repository that the service calls; `seen` is the list of the keys of a map.
pub record Repository (F W : Type 0) : Type 0 where
  pub list_cloud_resources : Provider → Exec W (List Resource)
  pub list_cloud_relationships : Provider → Exec W (List Relationship)
  pub get_resource_cost_signal : Provider → String → Time → Exec W (CostSignal F)
  pub upsert_waste_finding : Finding F → Exec W String
  pub resolve_missing_waste_findings : Provider → List String → List String → Exec W ℕ
  pub list_waste_findings : FindingFilters F → Exec W (List (Finding F))
  pub get_waste_finding : ℕ → Exec W (Finding F)
  pub update_waste_finding_status : ℕ → String → Exec W (Finding F)

-- waste.InventoryProvider
pub record InventoryProvider (W : Type 0) : Type 0 where
  pub provider : Provider
  pub sync : Exec W InventoryResult
