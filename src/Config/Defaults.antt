-- ===== src/Config/Defaults.antt =====
-- internal/config/config.go: the WithDefaults methods.
pub mod Complete
use torvix.Prelude.{
  ltb, leb, ◌=ℕ◌, if◌then◌else◌, ltb→lt, lt→ltb, leb→le, le→leb, tests, Bool-cases, Option-cases,
  length, take, drop, keep, any, All, length-append, length-take, length-drop, length-keep,
  length-map, All-append, All-map, ℕ, zero, suc, ◌+◌, ◌-◌, ◌*◌, ◌/◌, ◌%◌, ◌^◌, ◌≤◌, ◌<◌, min,
  String, ◌≡◌, refl, sym, ap, subst, ◌∙◌, ◌≢◌, ◌↔◌, ◌⊎◌, inl, inr, Bool, true, false, not, ◌&&◌,
  ◌||◌, Option, none, some, List, [], ◌∷◌, ◌++◌, map, arith, ◌==◌, eq_iff, eq_refl,
}
use torvix.Prelude.Text.{
  to_lower, to_upper, upper_first, is_blank, trim_left, trim_right, trim_space, join, decimal_fuel,
  itoa,
}
use torvix.Prelude.Int.{ℤ, pos, leb_ℤ, positive_or}
use torvix.Prelude.Float64.{Float64}
use torvix.Config.Types.{Logging, Scheduler, Reporting, AwsProvider, Waste, Ai, Ingestion, Provider}

abbrev pub text_or : String → String → String
text_or s d = if s == "" then d else s

abbrev pub lowered : String → String
unfolding to_lower trim_space
lowered s = trim_space (to_lower s)

-- Scheduler.WithDefaults
unfoldable pub scheduler_with_defaults : Scheduler → Scheduler
scheduler_with_defaults s = record s { ingest_interval = text_or s.ingest_interval "24h" }

-- Reporting.WithDefaults
unfoldable pub reporting_with_defaults : Reporting → Reporting
reporting_with_defaults r = record r {
  timezone = text_or r.timezone "Asia/Kolkata";
  daily_report_cron = text_or r.daily_report_cron "0 14 * * *";
  weekly_report_cron = text_or r.weekly_report_cron "0 15 * * 1";
  daily_report_target_lag_days = positive_or r.daily_report_target_lag_days (pos 1);
}

-- AWSProvider.WithDefaults
unfoldable pub aws_with_defaults : AwsProvider → AwsProvider
unfolding lowered
aws_with_defaults a =
    let region = text_or a.region "us-east-1" in
    let report_lag_days = positive_or a.report_lag_days (pos 2) in
    record a {
      ingestion_mode = text_or (lowered a.ingestion_mode) "cur_s3";
      region = region;
      cost_metric = text_or a.cost_metric "UnblendedCost";
      lookback_days = positive_or a.lookback_days (pos 3);
      report_lag_days = report_lag_days;
      cur_region = text_or a.cur_region region;
      cur_format = text_or (lowered a.cur_format) "csv_gzip";
      cur_lookback_days = positive_or a.cur_lookback_days (pos 3);
      cur_report_lag_days = positive_or (positive_or a.cur_report_lag_days report_lag_days) (pos 2);
    }

abbrev default_tag_keys : List String
default_tag_keys =
    "torvix:ignore" ∷ "torvix:waste-ignore" ∷ "finops:ignore" ∷ "keep" ∷ "retain" ∷ "do-not-delete"
    ∷ []

abbrev pub keys_or_default : List String → List String
keys_or_default [] = default_tag_keys
keys_or_default (k ∷ ks) = k ∷ ks

-- Waste.WithDefaults
unfoldable pub waste_with_defaults : {F : Type 0} ⦃fl : Float64 F⦄ → Waste F → Waste F
unfolding lowered
waste_with_defaults ⦃fl⦄ w = record w {
  provider = text_or (lowered w.provider) "oci";
  scan_interval_hours = positive_or w.scan_interval_hours (pos 24);
  min_resource_age_days = positive_or w.min_resource_age_days (pos 7);
  stopped_instance_min_days = positive_or w.stopped_instance_min_days (pos 3);
  old_backup_days = positive_or w.old_backup_days (pos 30);
  high_monthly_threshold =
      if fl.le w.high_monthly_threshold (fl.decimal 0 0)
      then fl.decimal 50 0
      else w.high_monthly_threshold;
  currency = text_or w.currency "USD";
  exclusion_tag_keys = keys_or_default w.exclusion_tag_keys;
}

-- AI.WithDefaults
unfoldable pub ai_with_defaults : Ai → Ai
unfolding lowered
ai_with_defaults a = record a {
  provider = text_or (lowered a.provider) "openai";
  model = text_or a.model "gpt-5.4-mini";
  base_url = text_or a.base_url "https://api.openai.com/v1";
  timeout = text_or a.timeout "20s";
  max_items_per_run = positive_or a.max_items_per_run (pos 10);
  queue_size = positive_or a.queue_size (pos 100);
}

-- Logging.WithDefaults
unfoldable pub logging_with_defaults : String → Logging → Logging
logging_with_defaults legacy_level l = record l {
  level = text_or (text_or l.level legacy_level) "info";
  dir = text_or l.dir "logs";
  retention_days = positive_or l.retention_days (pos 14);
}

-- Ingestion.WithDefaults
unfoldable pub ingestion_with_defaults : Ingestion → Ingestion
ingestion_with_defaults i =
    let batch = positive_or i.max_records_per_batch (pos 1000) in
    record i {
      lookback_days = positive_or i.lookback_days (pos 30);
      retention_days = positive_or i.retention_days (pos 90);
      compression_after_days = positive_or i.compression_after_days (pos 7);
      max_files_per_run = positive_or i.max_files_per_run (pos 25);
      max_zero_yield_files = positive_or i.max_zero_yield_files (pos 25);
      max_records_per_batch = batch;
      max_memory_buffer_records = positive_or i.max_memory_buffer_records batch;
      max_runtime = text_or i.max_runtime "10m";
    }
