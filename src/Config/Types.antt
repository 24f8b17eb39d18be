-- ===== src/Config/Types.antt =====
-- internal/config/config.go: the configuration. An int is an integer, time.Duration its nanoseconds.
use torvix.Prelude.{String, Bool, List}
use torvix.Prelude.Int.{ℤ}
use torvix.Config.Webhooks.{Webhook}

pub record Logging : Type 0 where
  pub level : String
  pub dir : String
  pub retention_days : ℤ
  pub stdout : Bool

pub record Scheduler : Type 0 where
  pub enabled : Bool
  pub ingest_interval : String

pub record Http : Type 0 where
  pub address : String

pub record ApiAuth : Type 0 where
  pub enabled : Bool
  pub bearer_token : String

pub record Api : Type 0 where
  pub auth : ApiAuth

pub record Db : Type 0 where
  pub dsn : String
  pub max_conns : ℤ
  pub min_conns : ℤ

pub record Provider : Type 0 where
  pub enabled : Bool
  pub bucket : String
  pub prefix : String
  pub account : String
  pub namespace : String
  pub config_file : String
  pub config_profile : String
  pub passphrase : String
  pub lookback_days : ℤ
  pub max_object_scan : ℤ
  pub max_zero_yield_files : ℤ
  pub max_files_per_run : ℤ
  pub max_records_per_batch : ℤ
  pub max_runtime : String
  pub max_memory_buffer_records : ℤ
  pub dry_run : Bool
  pub sample_mode : Bool

pub record AwsProvider : Type 0 where
  pub enabled : Bool
  pub ingestion_mode : String
  pub region : String
  pub cost_metric : String
  pub lookback_days : ℤ
  pub report_lag_days : ℤ
  pub cur_bucket : String
  pub cur_prefix : String
  pub cur_region : String
  pub cur_format : String
  pub cur_lookback_days : ℤ
  pub cur_report_lag_days : ℤ
  pub cur_local_path : String
  pub max_files_per_run : ℤ
  pub max_records_per_batch : ℤ
  pub max_runtime : String
  pub max_memory_buffer_records : ℤ

pub record Waste (F : Type 0) : Type 0 where
  pub detection_enabled : Bool
  pub provider : String
  pub scan_interval_hours : ℤ
  pub min_resource_age_days : ℤ
  pub stopped_instance_min_days : ℤ
  pub old_backup_days : ℤ
  pub min_cost_threshold : F
  pub high_monthly_threshold : F
  pub currency : String
  pub enable_tag_exclusions : Bool
  pub exclusion_tag_keys : List String

pub record Ai : Type 0 where
  pub enabled : Bool
  pub provider : String
  pub model : String
  pub api_key : String
  pub base_url : String
  pub timeout : String
  pub max_items_per_run : ℤ
  pub queue_size : ℤ
  pub include_identifiers : Bool

pub record Ingestion : Type 0 where
  pub lookback_days : ℤ
  pub retention_days : ℤ
  pub compression_after_days : ℤ
  pub max_files_per_run : ℤ
  pub max_zero_yield_files : ℤ
  pub max_records_per_batch : ℤ
  pub max_runtime : String
  pub max_memory_buffer_records : ℤ
  pub dry_run : Bool
  pub sample_mode : Bool

pub record IngestionLimits : Type 0 where
  pub max_files_per_run : ℤ
  pub max_zero_yield_files : ℤ
  pub max_records_per_batch : ℤ
  pub max_runtime : ℤ
  pub max_memory_buffer_records : ℤ
  pub dry_run : Bool
  pub sample_mode : Bool

pub record Reporting : Type 0 where
  pub timezone : String
  pub daily_report_cron : String
  pub weekly_report_cron : String
  pub require_complete_ingestion : Bool
  pub daily_report_target_lag_days : ℤ
  pub webhooks : List Webhook

pub record Metrics : Type 0 where
  pub namespace : String
  pub cost_stats_enabled : Bool

pub record Providers : Type 0 where
  pub oci : Provider
  pub aws : AwsProvider

pub record Config (F : Type 0) : Type 0 where
  pub log_level : String
  pub logging : Logging
  pub http : Http
  pub api : Api
  pub db : Db
  pub providers : Providers
  pub ingestion : Ingestion
  pub scheduler : Scheduler
  pub reporting : Reporting
  pub metrics : Metrics
  pub waste : Waste F
  pub ai : Ai
