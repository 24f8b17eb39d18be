-- ===== src/Config/Load.antt =====
-- internal/config/config.go: Load. The file and the parser of YAML are parameters; the parser sets the
-- fields that a file names, and leaves the others.
pub mod Ready
pub mod Address
use torvix.Prelude.{String, true, false, Option, []}
use Prim.Native.String.{◌++◌}
use torvix.Prelude.Int.{pos}
use torvix.Prelude.Float64.{Float64}
use torvix.Prelude.Result.{Result, ok, err, ◌>>=◌}
use torvix.Config.Types.{
  Config, Logging, Reporting, AwsProvider, Waste, Ai, Scheduler, Provider, Ingestion,
}
use torvix.Config.Environment.{apply_env_overrides}
use torvix.Config.Defaults.{
  text_or, scheduler_with_defaults, reporting_with_defaults, aws_with_defaults, waste_with_defaults,
  ai_with_defaults, logging_with_defaults, ingestion_with_defaults,
}

abbrev no_logging : Logging
no_logging = record { level = ""; dir = ""; retention_days = pos 0; stdout = false }

abbrev no_scheduler : Scheduler
no_scheduler = record { enabled = false; ingest_interval = "" }

abbrev pub no_provider : Provider
no_provider = record {
  enabled = false;
  bucket = "";
  prefix = "";
  account = "";
  namespace = "";
  config_file = "";
  config_profile = "";
  passphrase = "";
  lookback_days = pos 0;
  max_object_scan = pos 0;
  max_zero_yield_files = pos 0;
  max_files_per_run = pos 0;
  max_records_per_batch = pos 0;
  max_runtime = "";
  max_memory_buffer_records = pos 0;
  dry_run = false;
  sample_mode = false;
}

abbrev no_aws : AwsProvider
no_aws = record {
  enabled = false;
  ingestion_mode = "";
  region = "";
  cost_metric = "";
  lookback_days = pos 0;
  report_lag_days = pos 0;
  cur_bucket = "";
  cur_prefix = "";
  cur_region = "";
  cur_format = "";
  cur_lookback_days = pos 0;
  cur_report_lag_days = pos 0;
  cur_local_path = "";
  max_files_per_run = pos 0;
  max_records_per_batch = pos 0;
  max_runtime = "";
  max_memory_buffer_records = pos 0;
}

abbrev no_ai : Ai
no_ai = record {
  enabled = false;
  provider = "";
  model = "";
  api_key = "";
  base_url = "";
  timeout = "";
  max_items_per_run = pos 0;
  queue_size = pos 0;
  include_identifiers = false;
}

abbrev no_ingestion : Ingestion
no_ingestion = record {
  lookback_days = pos 0;
  retention_days = pos 0;
  compression_after_days = pos 0;
  max_files_per_run = pos 0;
  max_zero_yield_files = pos 0;
  max_records_per_batch = pos 0;
  max_runtime = "";
  max_memory_buffer_records = pos 0;
  dry_run = false;
  sample_mode = false;
}

abbrev no_reporting : Reporting
no_reporting = record {
  timezone = "";
  daily_report_cron = "";
  weekly_report_cron = "";
  require_complete_ingestion = true;
  daily_report_target_lag_days = pos 0;
  webhooks = [];
}

abbrev pub errorf : {A : Type 0} → String → Result A → Result A
errorf label (ok a) = ok a
errorf label (err e) = err (label ++ ": " ++ e)

module _ {F : Type 0} ⦃fl : Float64 F⦄ where
  abbrev no_waste : Waste F
  no_waste = record {
    detection_enabled = true;
    provider = "";
    scan_interval_hours = pos 0;
    min_resource_age_days = pos 0;
    stopped_instance_min_days = pos 0;
    old_backup_days = pos 0;
    min_cost_threshold = fl.decimal 0 0;
    high_monthly_threshold = fl.decimal 0 0;
    currency = "";
    enable_tag_exclusions = true;
    exclusion_tag_keys = [];
  }

  -- The configuration that a file is read into.
  abbrev pub initial : Config F
  initial = record {
    log_level = "";
    logging = no_logging;
    http = record { address = "" };
    api = record { auth = record { enabled = false; bearer_token = "" } };
    db = record { dsn = ""; max_conns = pos 0; min_conns = pos 0 };
    providers = record { oci = no_provider; aws = no_aws };
    ingestion = no_ingestion;
    scheduler = no_scheduler;
    reporting = no_reporting;
    metrics = record { namespace = ""; cost_stats_enabled = false };
    waste = no_waste;
    ai = no_ai;
  }

  -- What Load does to the configuration after the environment.
  unfoldable pub fill : Config F → Config F
  unfolding scheduler_with_defaults reporting_with_defaults aws_with_defaults waste_with_defaults
      ai_with_defaults logging_with_defaults ingestion_with_defaults
  fill cfg =
      let logging = logging_with_defaults cfg.log_level cfg.logging in
      record cfg {
        http = record { address = text_or cfg.http.address ":8080" };
        logging = logging;
        log_level = logging.level;
        metrics = record cfg.metrics { namespace = text_or cfg.metrics.namespace "torvix" };
        ingestion = ingestion_with_defaults cfg.ingestion;
        scheduler = scheduler_with_defaults cfg.scheduler;
        reporting = reporting_with_defaults cfg.reporting;
        providers = record cfg.providers { aws = aws_with_defaults cfg.providers.aws };
        waste = waste_with_defaults cfg.waste;
        ai = ai_with_defaults cfg.ai;
      }

  module _ (read_file : String → Result String) (unmarshal : String → Config F → Result (Config F))
      (env : String → String) (parse_float : String → Option F) where
    -- Load, without the configuration that it returns next to an error.
    unfoldable pub load : String → Result (Config F)
    unfolding fill apply_env_overrides
    load path = do
      b ← errorf "read config" (read_file path)
      cfg ← errorf "parse config" (unmarshal b initial)
      ok (fill (apply_env_overrides env parse_float cfg))
