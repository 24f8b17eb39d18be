-- ===== src/Config/Environment.antt =====
-- internal/config/config.go: envValue, normalizeHTTPPort, splitCSV and applyEnvOverrides. `env` is
-- os.Getenv, and `parse_float` is strconv.ParseFloat, whose errors are `none`.
use torvix.Prelude.{
  if◌then◌else◌, keep, String, Bool, true, not, Option, none, some, List, [], ◌∷◌, map, ◌==◌,
}
use Prim.Native.String.{◌++◌}
use torvix.Prelude.Int.{ℤ}
use torvix.Prelude.Text.{trim_space}
use torvix.Prelude.Words.{split, atoi, parse_bool, str_contains}
use torvix.Config.Names
use torvix.Config.Types.{Config, Logging, Reporting, AwsProvider, Waste, Ai, Http, ApiAuth}

-- envValue
unfoldable pub env_value : (String → String) → List String → String
unfolding trim_space
env_value env [] = ""
env_value env (name ∷ names) =
    let value = trim_space (env name) in
    let rest = env_value env names in if value == "" then rest else value

-- normalizeHTTPPort
unfoldable pub normalize_http_port : String → String
unfolding str_contains
normalize_http_port port = if str_contains port ":" then port else ":" ++ port

-- splitCSV
unfoldable pub split_csv : String → List String
unfolding split trim_space
split_csv value = keep (λ s. not (s == "")) (map (λ s. trim_space s) (split "," value))

-- A value that is set, and that parses, takes the place of the old one.
abbrev pub parsed_or : {A : Type 0} → Option A → A → A
parsed_or none old = old
parsed_or (some a) old = a

abbrev pub set_text : String → String → String
set_text v old = if v == "" then old else v

abbrev pub set_int : String → ℤ → ℤ
unfolding atoi
set_int v old = if v == "" then old else parsed_or (atoi v) old

abbrev pub set_bool : String → Bool → Bool
unfolding parse_bool
set_bool v old = if v == "" then old else parsed_or (parse_bool v) old

abbrev pub set_float : {F : Type 0} → (String → Option F) → String → F → F
set_float parse_float v old = if v == "" then old else parsed_or (parse_float v) old

abbrev pub set_list : String → List String → List String
unfolding split_csv
set_list v old = if v == "" then old else split_csv v

module _ (env : String → String) where
  abbrev pub override_logging : Logging → Logging
  override_logging l = record l {
    level = set_text (env_value env (Names.env_log_level ∷ [])) l.level;
    dir = set_text (env_value env (Names.env_log_dir ∷ [])) l.dir;
    retention_days = set_int (env_value env (Names.env_log_retention_days ∷ [])) l.retention_days;
    stdout = set_bool (env_value env (Names.env_log_stdout ∷ [])) l.stdout;
  }

  abbrev pub override_reporting : Reporting → Reporting
  override_reporting r = record r {
    timezone =
        set_text (env_value env (Names.env_report_timezone ∷ Names.legacy_env_report_timezone ∷ []))
          r.timezone;
    daily_report_cron =
        set_text
          (env_value env (Names.env_daily_report_cron ∷ Names.legacy_env_daily_report_cron ∷ []))
          r.daily_report_cron;
    weekly_report_cron =
        set_text
          (env_value env (Names.env_weekly_report_cron ∷ Names.legacy_env_weekly_report_cron ∷ []))
          r.weekly_report_cron;
    require_complete_ingestion =
        set_bool
          (env_value env (
            Names.env_report_require_complete_ingestion
            ∷ Names.legacy_env_report_require_complete_ingestion ∷ []))
          r.require_complete_ingestion;
    daily_report_target_lag_days =
        set_int
          (env_value env (
            Names.env_daily_report_target_lag_days ∷ Names.legacy_env_daily_report_target_lag_days
            ∷ []))
          r.daily_report_target_lag_days;
  }

  abbrev pub override_aws : AwsProvider → AwsProvider
  override_aws a = record a {
    enabled = set_bool (env_value env (Names.env_aws_enabled ∷ [])) a.enabled;
    ingestion_mode = set_text (env_value env (Names.env_aws_ingestion_mode ∷ [])) a.ingestion_mode;
    region = set_text (env_value env ("AWS_REGION" ∷ [])) a.region;
    cost_metric = set_text (env_value env (Names.env_aws_cost_metric ∷ [])) a.cost_metric;
    lookback_days = set_int (env_value env (Names.env_aws_lookback_days ∷ [])) a.lookback_days;
    report_lag_days =
        set_int (env_value env (Names.env_aws_report_lag_days ∷ [])) a.report_lag_days;
    cur_bucket = set_text (env_value env (Names.env_aws_cur_bucket ∷ [])) a.cur_bucket;
    cur_prefix = set_text (env_value env (Names.env_aws_cur_prefix ∷ [])) a.cur_prefix;
    cur_region = set_text (env_value env (Names.env_aws_cur_region ∷ [])) a.cur_region;
    cur_format = set_text (env_value env (Names.env_aws_cur_format ∷ [])) a.cur_format;
    cur_lookback_days =
        set_int (env_value env (Names.env_aws_cur_lookback_days ∷ [])) a.cur_lookback_days;
    cur_report_lag_days =
        set_int (env_value env (Names.env_aws_cur_report_lag_days ∷ [])) a.cur_report_lag_days;
    cur_local_path = set_text (env_value env (Names.env_aws_cur_local_path ∷ [])) a.cur_local_path;
  }

  abbrev pub override_ai : Ai → Ai
  override_ai a = record a {
    enabled = set_bool (env_value env (Names.env_ai_enabled ∷ [])) a.enabled;
    provider = set_text (env_value env (Names.env_ai_provider ∷ [])) a.provider;
    model = set_text (env_value env (Names.env_ai_model ∷ [])) a.model;
    api_key = set_text (env_value env (Names.env_ai_api_key ∷ [])) a.api_key;
    base_url = set_text (env_value env (Names.env_ai_base_url ∷ [])) a.base_url;
    timeout = set_text (env_value env (Names.env_ai_timeout ∷ [])) a.timeout;
    max_items_per_run =
        set_int (env_value env (Names.env_ai_max_items_per_run ∷ [])) a.max_items_per_run;
    queue_size = set_int (env_value env (Names.env_ai_queue_size ∷ [])) a.queue_size;
    include_identifiers =
        set_bool (env_value env (Names.env_ai_include_identifiers ∷ [])) a.include_identifiers;
  }

  -- An address wins over a port.
  unfoldable pub override_http : Http → Http
  unfolding normalize_http_port
  override_http h =
      let address = env_value env (Names.env_http_address ∷ []) in
      let port = env_value env (Names.env_http_port ∷ Names.env_api_port ∷ []) in
      record h {
        address =
            if address == ""
            then if port == "" then h.address else normalize_http_port port
            else address;
      }

  abbrev pub override_auth : ApiAuth → ApiAuth
  override_auth a =
      let token = env_value env (Names.env_api_bearer_token ∷ []) in
      record a {
        enabled = if token == "" then a.enabled else true;
        bearer_token = set_text token a.bearer_token;
      }

  module _ {F : Type 0} (parse_float : String → Option F) where
    abbrev pub override_waste : Waste F → Waste F
    override_waste w = record w {
      detection_enabled =
          set_bool
            (env_value env
              (Names.env_waste_detection_enabled ∷ Names.legacy_env_waste_detection_enabled ∷ []))
            w.detection_enabled;
      provider =
          set_text (env_value env (Names.env_waste_provider ∷ Names.legacy_env_waste_provider ∷ []))
            w.provider;
      scan_interval_hours =
          set_int
            (env_value env (
              Names.env_waste_scan_interval_hours ∷ Names.legacy_env_waste_scan_interval_hours
              ∷ []))
            w.scan_interval_hours;
      min_resource_age_days =
          set_int
            (env_value env (
              Names.env_waste_min_resource_age_days ∷ Names.legacy_env_waste_min_resource_age_days
              ∷ []))
            w.min_resource_age_days;
      stopped_instance_min_days =
          set_int
            (env_value env (
              Names.env_waste_stopped_instance_min_days
              ∷ Names.legacy_env_waste_stopped_instance_min_days ∷ []))
            w.stopped_instance_min_days;
      old_backup_days =
          set_int
            (env_value env
              (Names.env_waste_old_backup_days ∷ Names.legacy_env_waste_old_backup_days ∷ []))
            w.old_backup_days;
      min_cost_threshold =
          set_float parse_float
            (env_value env
              (Names.env_waste_min_cost_threshold ∷ Names.legacy_env_waste_min_cost_threshold ∷ []))
            w.min_cost_threshold;
      high_monthly_threshold =
          set_float parse_float
            (env_value env (
              Names.env_waste_high_monthly_threshold ∷ Names.legacy_env_waste_high_monthly_threshold
              ∷ []))
            w.high_monthly_threshold;
      currency =
          set_text (env_value env (Names.env_waste_currency ∷ Names.legacy_env_waste_currency ∷ []))
            w.currency;
      enable_tag_exclusions =
          set_bool
            (env_value env (
              Names.env_waste_enable_tag_exclusions ∷ Names.legacy_env_waste_enable_tag_exclusions
              ∷ []))
            w.enable_tag_exclusions;
      exclusion_tag_keys =
          set_list
            (env_value env
              (Names.env_waste_exclusion_tag_keys ∷ Names.legacy_env_waste_exclusion_tag_keys ∷ []))
            w.exclusion_tag_keys;
    }

    -- applyEnvOverrides
    unfoldable pub apply_env_overrides : Config F → Config F
    unfolding override_http
    apply_env_overrides cfg = record cfg {
      http = override_http cfg.http;
      api = record { auth = override_auth cfg.api.auth };
      logging = override_logging cfg.logging;
      reporting = override_reporting cfg.reporting;
      providers = record cfg.providers { aws = override_aws cfg.providers.aws };
      waste = override_waste cfg.waste;
      ai = override_ai cfg.ai;
    }
