-- ===== src/Config/Limits.antt =====
-- internal/config/config.go: WithIngestionDefaults and IngestionLimits, of both kinds of provider.
-- `parse_duration` is time.ParseDuration, in nanoseconds, whose errors are `none`.
pub mod Bounds
use torvix.Prelude.{
  ltb, leb, ◌=ℕ◌, if◌then◌else◌, ltb→lt, lt→ltb, leb→le, le→leb, tests, Bool-cases, Option-cases,
  length, take, drop, keep, any, All, length-append, length-take, length-drop, length-keep,
  length-map, All-append, All-map, ℕ, zero, suc, ◌+◌, ◌-◌, ◌*◌, ◌/◌, ◌%◌, ◌^◌, ◌≤◌, ◌<◌, min,
  String, ◌≡◌, refl, sym, ap, subst, ◌∙◌, ◌≢◌, ◌↔◌, ◌⊎◌, inl, inr, Bool, true, false, not, ◌&&◌,
  ◌||◌, Option, none, some, List, [], ◌∷◌, ◌++◌, map, arith, ◌==◌, eq_iff, eq_refl,
}
use torvix.Prelude.Clock.{
  Time, second, hour, day, zero_time, is_zero, before, after, add_days, truncate_day, Location, utc,
  weekday, unix_epoch,
}
use torvix.Prelude.Int.{ℤ, pos, leb_ℤ, ltb_ℤ, positive_or}
use torvix.Config.Types.{AwsProvider, Ingestion, IngestionLimits, Provider}
use torvix.Config.Defaults.{text_or, ingestion_with_defaults}

-- AWSProvider.WithIngestionDefaults
unfoldable pub aws_with_ingestion_defaults : AwsProvider → Ingestion → AwsProvider
unfolding ingestion_with_defaults
aws_with_ingestion_defaults a ingestion =
    let i = ingestion_with_defaults ingestion in
    record a {
      max_files_per_run = positive_or a.max_files_per_run i.max_files_per_run;
      max_records_per_batch = positive_or a.max_records_per_batch i.max_records_per_batch;
      max_memory_buffer_records =
          positive_or a.max_memory_buffer_records i.max_memory_buffer_records;
      max_runtime = text_or a.max_runtime i.max_runtime;
    }

-- Provider.WithIngestionDefaults
unfoldable pub with_ingestion_defaults : Provider → Ingestion → Provider
unfolding ingestion_with_defaults
with_ingestion_defaults p ingestion =
    let i = ingestion_with_defaults ingestion in
    record p {
      lookback_days = positive_or p.lookback_days i.lookback_days;
      max_files_per_run = positive_or p.max_files_per_run i.max_files_per_run;
      max_zero_yield_files = positive_or p.max_zero_yield_files i.max_zero_yield_files;
      max_records_per_batch = positive_or p.max_records_per_batch i.max_records_per_batch;
      max_memory_buffer_records =
          positive_or p.max_memory_buffer_records i.max_memory_buffer_records;
      max_runtime = text_or p.max_runtime i.max_runtime;
      dry_run = p.dry_run || i.dry_run;
      sample_mode = p.sample_mode || i.sample_mode;
    }

-- `if v > m { v = m }`
abbrev pub at_most : ℤ → ℤ → ℤ
at_most m v = if ltb_ℤ m v then m else v

abbrev pub minutes : ℕ → ℤ
minutes n = pos (n * 60 * second)

abbrev pub positive_duration : Option ℤ → ℤ
positive_duration none = minutes 10
positive_duration (some d) = positive_or d (minutes 10)

abbrev pub sampled : IngestionLimits → IngestionLimits
sampled l =
    let batch = at_most (pos 100) l.max_records_per_batch in
    record l {
      max_files_per_run = at_most (pos 3) l.max_files_per_run;
      max_zero_yield_files = at_most (pos 3) l.max_zero_yield_files;
      max_records_per_batch = batch;
      max_memory_buffer_records = at_most batch l.max_memory_buffer_records;
      max_runtime = at_most (minutes 2) l.max_runtime;
    }

module _ (parse_duration : String → Option ℤ) where
  abbrev pub unsampled : Provider → IngestionLimits
  unsampled p =
      let batch = positive_or p.max_records_per_batch (pos 1000) in
      record {
        max_files_per_run = positive_or p.max_files_per_run (pos 25);
        max_zero_yield_files = positive_or p.max_zero_yield_files (pos 25);
        max_records_per_batch = batch;
        max_runtime =
            if p.max_runtime == ""
            then minutes 10
            else positive_duration (parse_duration p.max_runtime);
        max_memory_buffer_records = at_most batch (positive_or p.max_memory_buffer_records batch);
        dry_run = p.dry_run;
        sample_mode = p.sample_mode;
      }

  -- Provider.IngestionLimits
  unfoldable pub ingestion_limits : Provider → IngestionLimits
  ingestion_limits p = if p.sample_mode then sampled (unsampled p) else unsampled p

  -- AWSProvider.IngestionLimits
  unfoldable pub aws_ingestion_limits : AwsProvider → IngestionLimits
  unfolding ingestion_limits
  aws_ingestion_limits a = ingestion_limits (record {
    enabled = false;
    bucket = "";
    prefix = "";
    account = "";
    namespace = "";
    config_file = "";
    config_profile = "";
    passphrase = "";
    lookback_days = pos 0;
    max_object_scan = pos 0;
    max_zero_yield_files = pos 0;
    max_files_per_run = a.max_files_per_run;
    max_records_per_batch = a.max_records_per_batch;
    max_runtime = a.max_runtime;
    max_memory_buffer_records = a.max_memory_buffer_records;
    dry_run = false;
    sample_mode = false;
  })
