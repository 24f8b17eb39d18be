-- ===== src/Domain.antt =====
-- internal/domain/models.go: the records that the components exchange. Costs are of the type `F` of
-- floats; maps of tags and raw data are association lists.
use torvix.Prelude.{ℕ, List, String}
use torvix.Prelude.Int.{ℤ}
use torvix.Prelude.Clock.{Time}

-- type Provider string
abbrev pub Provider : Type 0
Provider = String

abbrev pub provider_aws : Provider
provider_aws = "aws"

abbrev pub provider_oci : Provider
provider_oci = "oci"

-- A value of a map[string]any that the program looks into: a text, or something else.
pub data RawValue : Type 0 where
  text : String → RawValue
  nil : RawValue
  other : RawValue

abbrev pub RawData : Type 0
RawData = List (String × RawValue)

abbrev pub Tags : Type 0
Tags = List (String × String)

pub record RawBillingRecord (F : Type 0) : Type 0 where
  pub provider : Provider
  pub account_id : String
  pub usage_start : Time
  pub usage_end : Time
  pub service : String
  pub category : String
  pub sku : String
  pub region : String
  pub billing_scope_type : String
  pub billing_scope_id : String
  pub billing_scope_name : String
  pub project_id : String
  pub project_name : String
  pub project_source : String
  pub network_scope_type : String
  pub network_scope_id : String
  pub network_scope_name : String
  pub resource_id : String
  pub resource_type : String
  pub currency : String
  pub cost : F
  pub usage_amount : F
  pub usage_unit : String
  pub tags : Tags
  pub meter : String
  pub record_type : String
  pub source_file_key : String
  pub source_file_etag : String
  pub source_line_number : ℤ
  pub source_record_hash : String
  pub raw_data : RawData
  pub source_object : String

pub record CanonicalCostRecord (F : Type 0) : Type 0 where
  pub timestamp : Time
  pub provider : Provider
  pub account_id : String
  pub service : String
  pub category : String
  pub region : String
  pub billing_scope_type : String
  pub billing_scope_id : String
  pub billing_scope_name : String
  pub project_id : String
  pub project_name : String
  pub project_source : String
  pub network_scope_type : String
  pub network_scope_id : String
  pub network_scope_name : String
  pub resource_id : String
  pub resource_type : String
  pub currency : String
  pub cost : F
  pub usage_amount : F
  pub usage_unit : String
  pub tags : Tags
  pub meter : String
  pub record_type : String
  pub source_file_key : String
  pub source_file_etag : String
  pub source_line_number : ℤ
  pub source_record_hash : String
  pub raw_data : RawData
  pub source_object : String

pub record ProcessedReportFile : Type 0 where
  pub provider : Provider
  pub bucket : String
  pub object_name : String
  pub etag : String
  pub last_modified : Time
  pub processed_at : Time
  pub record_count : ℕ
  pub status : String
  pub error_message : String

pub record AggregatedCost (F : Type 0) : Type 0 where
  pub window_start : Time
  pub window_end : Time
  pub provider : Provider
  pub account_id : String
  pub service : String
  pub total_cost : F

pub record CostVariance (F : Type 0) : Type 0 where
  pub period : String
  pub current_window_start : Time
  pub current_window_end : Time
  pub previous_window_start : Time
  pub previous_window_end : Time
  pub provider : Provider
  pub account_id : String
  pub service : String
  pub compartment_id : String
  pub compartment_name : String
  pub current_cost : F
  pub previous_cost : F
  pub delta : F
  pub percent_change : F
  pub direction : String

pub record Anomaly (F : Type 0) : Type 0 where
  pub date : Time
  pub provider : Provider
  pub account_id : String
  pub service : String
  pub category : String
  pub compartment_id : String
  pub compartment_name : String
  pub region : String
  pub baseline : F
  pub actual : F
  pub z_score : F
  pub percent_deviation : F
  pub moving_average_delta : F
  pub severity : String

pub record ForecastPoint (F : Type 0) : Type 0 where
  pub date : Time
  pub provider : Provider
  pub account_id : String
  pub service : String
  pub forecast_cost : F
  pub confidence_low : F
  pub confidence_high : F

pub record Report (F : Type 0) : Type 0 where
  pub period : String
  pub from : Time
  pub to : Time
  pub generated : Time
  pub summary : List (AggregatedCost F)
  pub anomalies : List (Anomaly F)
  pub forecast : List (ForecastPoint F)
  pub cost_increases : List (CostVariance F)
  pub cost_decreases : List (CostVariance F)

pub record ReportDeliveryKey : Type 0 where
  pub provider : String
  pub report_type : String
  pub period_start : Time
  pub period_end : Time
  pub destination : String
