-- ===== src/Waste/Types.antt =====
-- types.go: resources of the cloud, their relationships, and findings about them. A map of tags or raw
-- data is an association list; a pointer that may be nil is an Option.
use torvix.Prelude.{ℕ, String, Bool, Option, List}
use torvix.Prelude.Int.{ℤ}
use torvix.Prelude.Clock.{Time}
use torvix.Domain.{Provider, RawData, RawValue, Tags}

abbrev pub resource_block_volume : String
resource_block_volume = "block_volume"

abbrev pub resource_boot_volume : String
resource_boot_volume = "boot_volume"

abbrev pub resource_compute_instance : String
resource_compute_instance = "compute_instance"

abbrev pub resource_public_ip : String
resource_public_ip = "public_ip"

abbrev pub resource_reserved_public_ip : String
resource_reserved_public_ip = "reserved_public_ip"

abbrev pub block_volume_attached : String
block_volume_attached = "block_volume_attached_to_instance"

abbrev pub boot_volume_attached : String
boot_volume_attached = "boot_volume_attached_to_instance"

abbrev pub public_ip_assigned : String
public_ip_assigned = "public_ip_assigned_to_private_ip"

abbrev pub rule_detached_block_volume : String
rule_detached_block_volume = "OCI_DETACHED_BLOCK_VOLUME"

abbrev pub rule_detached_boot_volume : String
rule_detached_boot_volume = "OCI_DETACHED_BOOT_VOLUME"

abbrev pub rule_stopped_compute : String
rule_stopped_compute = "OCI_STOPPED_COMPUTE_WITH_PAID_STORAGE"

abbrev pub rule_unused_public_ip : String
rule_unused_public_ip = "OCI_UNUSED_RESERVED_PUBLIC_IP"

abbrev pub status_open : String
status_open = "open"

abbrev pub status_accepted : String
status_accepted = "accepted"

abbrev pub status_ignored : String
status_ignored = "ignored"

abbrev pub status_false_positive : String
status_false_positive = "false_positive"

abbrev pub status_fixed : String
status_fixed = "fixed"

abbrev pub status_resolved : String
status_resolved = "resolved"

pub record Config (F : Type 0) : Type 0 where
  pub enabled : Bool
  pub provider : Provider
  pub scan_interval_hours : ℤ
  pub min_resource_age_days : ℤ
  pub stopped_instance_min_days : ℤ
  pub old_backup_days : ℤ
  pub min_cost_threshold : F
  pub high_monthly_threshold : F
  pub currency : String
  pub enable_tag_exclusions : Bool
  pub exclusion_tag_keys : List String

pub record Resource : Type 0 where
  pub id : ℕ
  pub provider : Provider
  pub resource_id : String
  pub resource_name : String
  pub resource_type : String
  pub region : String
  pub scope_id : String
  pub scope_name : String
  pub lifecycle_state : String
  pub availability_domain : String
  pub time_created : Option Time
  pub tags : Tags
  pub raw : RawData
  pub first_seen_at : Time
  pub last_seen_at : Time
  pub last_seen_run_id : String
  pub active : Bool
  pub missing_since : Option Time
  pub inactive_at : Option Time

pub record Relationship : Type 0 where
  pub id : ℕ
  pub provider : Provider
  pub source_resource_id : String
  pub target_resource_id : String
  pub relationship_type : String
  pub region : String
  pub scope_id : String
  pub detected_at : Time
  pub raw : RawData

pub record CostSignal (F : Type 0) : Type 0 where
  pub last_7d_cost : F
  pub last_30d_cost : F
  pub currency : String
  pub has_last_7d : Bool
  pub has_last_30d : Bool

-- A value of a finding's evidence.
pub data Evidence (F : Type 0) : Type 0 where
  text : String → Evidence F
  number : ℤ → Evidence F
  amount : F → Evidence F
  flag : Bool → Evidence F
  texts : List String → Evidence F
  raw : RawValue → Evidence F

-- The AI note that the database joins to a finding is left out.
pub record Finding (F : Type 0) : Type 0 where
  pub id : ℕ
  pub provider : Provider
  pub resource_id : String
  pub resource_name : String
  pub resource_type : String
  pub region : String
  pub scope_id : String
  pub scope_name : String
  pub service : String
  pub rule_id : String
  pub severity : String
  pub confidence : F
  pub estimated_monthly_waste : Option F
  pub currency : String
  pub summary : String
  pub recommendation : String
  pub evidence : List (String × Evidence F)
  pub status : String
  pub detected_at : Time
  pub last_seen_at : Time
  pub resolved_at : Option Time

pub record RuleInfo : Type 0 where
  pub rule_id : String
  pub provider : String
  pub resource_type : String
  pub severity_basis : String
  pub description : String
  pub recommendation : String
