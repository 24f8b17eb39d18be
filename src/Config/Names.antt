-- ===== src/Config/Names.antt =====
-- internal/config/config.go: the names of the environment variables that the program reads.
use torvix.Prelude.{String}

abbrev pub env_http_address : String
env_http_address = "TORVIX_HTTP_ADDRESS"

abbrev pub env_http_port : String
env_http_port = "TORVIX_HTTP_PORT"

abbrev pub env_api_port : String
env_api_port = "TORVIX_API_PORT"

abbrev pub env_api_bearer_token : String
env_api_bearer_token = "TORVIX_API_BEARER_TOKEN"

abbrev pub env_log_level : String
env_log_level = "TORVIX_LOG_LEVEL"

abbrev pub env_log_dir : String
env_log_dir = "TORVIX_LOG_DIR"

abbrev pub env_log_retention_days : String
env_log_retention_days = "TORVIX_LOG_RETENTION_DAYS"

abbrev pub env_log_stdout : String
env_log_stdout = "TORVIX_LOG_STDOUT"

abbrev pub env_report_timezone : String
env_report_timezone = "TORVIX_REPORT_TIMEZONE"

abbrev pub env_daily_report_cron : String
env_daily_report_cron = "TORVIX_DAILY_REPORT_CRON"

abbrev pub env_weekly_report_cron : String
env_weekly_report_cron = "TORVIX_WEEKLY_REPORT_CRON"

abbrev pub env_report_require_complete_ingestion : String
env_report_require_complete_ingestion = "TORVIX_REPORT_REQUIRE_COMPLETE_INGESTION"

abbrev pub env_daily_report_target_lag_days : String
env_daily_report_target_lag_days = "TORVIX_DAILY_REPORT_TARGET_LAG_DAYS"

abbrev pub env_aws_enabled : String
env_aws_enabled = "TORVIX_AWS_ENABLED"

abbrev pub env_aws_ingestion_mode : String
env_aws_ingestion_mode = "TORVIX_AWS_INGESTION_MODE"

abbrev pub env_aws_cost_metric : String
env_aws_cost_metric = "TORVIX_AWS_COST_METRIC"

abbrev pub env_aws_lookback_days : String
env_aws_lookback_days = "TORVIX_AWS_LOOKBACK_DAYS"

abbrev pub env_aws_report_lag_days : String
env_aws_report_lag_days = "TORVIX_AWS_REPORT_LAG_DAYS"

abbrev pub env_aws_cur_bucket : String
env_aws_cur_bucket = "TORVIX_AWS_CUR_BUCKET"

abbrev pub env_aws_cur_prefix : String
env_aws_cur_prefix = "TORVIX_AWS_CUR_PREFIX"

abbrev pub env_aws_cur_region : String
env_aws_cur_region = "TORVIX_AWS_CUR_REGION"

abbrev pub env_aws_cur_format : String
env_aws_cur_format = "TORVIX_AWS_CUR_FORMAT"

abbrev pub env_aws_cur_lookback_days : String
env_aws_cur_lookback_days = "TORVIX_AWS_CUR_LOOKBACK_DAYS"

abbrev pub env_aws_cur_report_lag_days : String
env_aws_cur_report_lag_days = "TORVIX_AWS_CUR_REPORT_LAG_DAYS"

abbrev pub env_aws_cur_local_path : String
env_aws_cur_local_path = "TORVIX_AWS_CUR_LOCAL_PATH"

abbrev pub env_waste_detection_enabled : String
env_waste_detection_enabled = "TORVIX_WASTE_DETECTION_ENABLED"

abbrev pub env_waste_provider : String
env_waste_provider = "TORVIX_WASTE_PROVIDER"

abbrev pub env_waste_scan_interval_hours : String
env_waste_scan_interval_hours = "TORVIX_WASTE_SCAN_INTERVAL_HOURS"

abbrev pub env_waste_min_resource_age_days : String
env_waste_min_resource_age_days = "TORVIX_WASTE_MIN_RESOURCE_AGE_DAYS"

abbrev pub env_waste_stopped_instance_min_days : String
env_waste_stopped_instance_min_days = "TORVIX_WASTE_STOPPED_INSTANCE_MIN_DAYS"

abbrev pub env_waste_old_backup_days : String
env_waste_old_backup_days = "TORVIX_WASTE_OLD_BACKUP_DAYS"

abbrev pub env_waste_min_cost_threshold : String
env_waste_min_cost_threshold = "TORVIX_WASTE_MIN_COST_THRESHOLD"

abbrev pub env_waste_high_monthly_threshold : String
env_waste_high_monthly_threshold = "TORVIX_WASTE_HIGH_MONTHLY_THRESHOLD"

abbrev pub env_waste_currency : String
env_waste_currency = "TORVIX_WASTE_CURRENCY"

abbrev pub env_waste_enable_tag_exclusions : String
env_waste_enable_tag_exclusions = "TORVIX_WASTE_ENABLE_TAG_EXCLUSIONS"

abbrev pub env_waste_exclusion_tag_keys : String
env_waste_exclusion_tag_keys = "TORVIX_WASTE_EXCLUSION_TAG_KEYS"

abbrev pub env_ai_enabled : String
env_ai_enabled = "TORVIX_AI_ENABLED"

abbrev pub env_ai_provider : String
env_ai_provider = "TORVIX_AI_PROVIDER"

abbrev pub env_ai_model : String
env_ai_model = "TORVIX_AI_MODEL"

abbrev pub env_ai_api_key : String
env_ai_api_key = "OPENAI_API_KEY"

abbrev pub env_ai_base_url : String
env_ai_base_url = "OPENAI_BASE_URL"

abbrev pub env_ai_timeout : String
env_ai_timeout = "TORVIX_AI_TIMEOUT"

abbrev pub env_ai_max_items_per_run : String
env_ai_max_items_per_run = "TORVIX_AI_MAX_ITEMS_PER_RUN"

abbrev pub env_ai_queue_size : String
env_ai_queue_size = "TORVIX_AI_QUEUE_SIZE"

abbrev pub env_ai_include_identifiers : String
env_ai_include_identifiers = "TORVIX_AI_INCLUDE_IDENTIFIERS"

abbrev pub legacy_env_report_timezone : String
legacy_env_report_timezone = "CLOUDPULSE_REPORT_TIMEZONE"

abbrev pub legacy_env_daily_report_cron : String
legacy_env_daily_report_cron = "CLOUDPULSE_DAILY_REPORT_CRON"

abbrev pub legacy_env_weekly_report_cron : String
legacy_env_weekly_report_cron = "CLOUDPULSE_WEEKLY_REPORT_CRON"

abbrev pub legacy_env_report_require_complete_ingestion : String
legacy_env_report_require_complete_ingestion = "CLOUDPULSE_REPORT_REQUIRE_COMPLETE_INGESTION"

abbrev pub legacy_env_daily_report_target_lag_days : String
legacy_env_daily_report_target_lag_days = "CLOUDPULSE_DAILY_REPORT_TARGET_LAG_DAYS"

abbrev pub legacy_env_waste_detection_enabled : String
legacy_env_waste_detection_enabled = "CLOUDPULSE_WASTE_DETECTION_ENABLED"

abbrev pub legacy_env_waste_provider : String
legacy_env_waste_provider = "CLOUDPULSE_WASTE_PROVIDER"

abbrev pub legacy_env_waste_scan_interval_hours : String
legacy_env_waste_scan_interval_hours = "CLOUDPULSE_WASTE_SCAN_INTERVAL_HOURS"

abbrev pub legacy_env_waste_min_resource_age_days : String
legacy_env_waste_min_resource_age_days = "CLOUDPULSE_WASTE_MIN_RESOURCE_AGE_DAYS"

abbrev pub legacy_env_waste_stopped_instance_min_days : String
legacy_env_waste_stopped_instance_min_days = "CLOUDPULSE_WASTE_STOPPED_INSTANCE_MIN_DAYS"

abbrev pub legacy_env_waste_old_backup_days : String
legacy_env_waste_old_backup_days = "CLOUDPULSE_WASTE_OLD_BACKUP_DAYS"

abbrev pub legacy_env_waste_min_cost_threshold : String
legacy_env_waste_min_cost_threshold = "CLOUDPULSE_WASTE_MIN_COST_THRESHOLD"

abbrev pub legacy_env_waste_high_monthly_threshold : String
legacy_env_waste_high_monthly_threshold = "CLOUDPULSE_WASTE_HIGH_MONTHLY_THRESHOLD"

abbrev pub legacy_env_waste_currency : String
legacy_env_waste_currency = "CLOUDPULSE_WASTE_CURRENCY"

abbrev pub legacy_env_waste_enable_tag_exclusions : String
legacy_env_waste_enable_tag_exclusions = "CLOUDPULSE_WASTE_ENABLE_TAG_EXCLUSIONS"

abbrev pub legacy_env_waste_exclusion_tag_keys : String
legacy_env_waste_exclusion_tag_keys = "CLOUDPULSE_WASTE_EXCLUSION_TAG_KEYS"
