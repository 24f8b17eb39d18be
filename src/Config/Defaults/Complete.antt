-- ===== src/Config/Defaults/Complete.antt =====
-- What a configuration that was loaded has a value for.
use torvix.Prelude.{Bool-cases, ℕ, String, ◌≡◌, refl, ◌≢◌, inl, inr, false, arith, ◌==◌, eq_iff}
use torvix.Prelude.Int.{ℤ, pos, positive_or}
use torvix.Config.Types.{Reporting, AwsProvider, Ingestion}
use torvix.Config.Defaults.{
  text_or, lowered, reporting_with_defaults, aws_with_defaults, ingestion_with_defaults,
}
use torvix.Config.Limits.Bounds.{IsPositive, positive_or-IsPositive}

nonempty : (s d : String) → d ≢ "" → text_or s d ≢ ""
nonempty s d h = elim (Bool-cases (s == "")) [
  | inl e ↦ rw e h
  | inr e ↦ rw e (λ p. ground (arith, eq_iff s ""))
]

-- A literal that the comparison tells from the empty text is not empty.
not_empty : (d : String) → (d == "") ≡ false → d ≢ ""
not_empty d h e = ground (arith, eq_iff d "")

pub default : (s d : String) → (d == "") ≡ false → text_or s d ≢ ""
default s d h = nonempty s d (not_empty d h)

pub positive : (v : ℤ) (n : ℕ) → IsPositive (pos n) → IsPositive (positive_or v (pos n))
positive v n h = positive_or-IsPositive v (pos n) h

pub record IsScheduled (r : Reporting) : Type 0 where
  pub timezone : r.timezone ≢ ""
  pub daily_report_cron : r.daily_report_cron ≢ ""
  pub weekly_report_cron : r.weekly_report_cron ≢ ""
  pub daily_report_target_lag_days : IsPositive r.daily_report_target_lag_days

pub reporting_with_defaults-IsScheduled : (r : Reporting) → IsScheduled (reporting_with_defaults r)
unfolding reporting_with_defaults
reporting_with_defaults-IsScheduled r = record {
  timezone = default r.timezone "Asia/Kolkata" refl;
  daily_report_cron = default r.daily_report_cron "0 14 * * *" refl;
  weekly_report_cron = default r.weekly_report_cron "0 15 * * 1" refl;
  daily_report_target_lag_days = positive r.daily_report_target_lag_days 1 refl;
}

pub record IsIngestible (i : Ingestion) : Type 0 where
  pub lookback_days : IsPositive i.lookback_days
  pub retention_days : IsPositive i.retention_days
  pub compression_after_days : IsPositive i.compression_after_days
  pub max_files_per_run : IsPositive i.max_files_per_run
  pub max_zero_yield_files : IsPositive i.max_zero_yield_files
  pub max_records_per_batch : IsPositive i.max_records_per_batch
  pub max_memory_buffer_records : IsPositive i.max_memory_buffer_records
  pub max_runtime : i.max_runtime ≢ ""

pub ingestion_with_defaults-IsIngestible :
    (i : Ingestion) → IsIngestible (ingestion_with_defaults i)
unfolding ingestion_with_defaults
ingestion_with_defaults-IsIngestible i =
    let batch = positive i.max_records_per_batch 1000 refl in
    record {
      lookback_days = positive i.lookback_days 30 refl;
      retention_days = positive i.retention_days 90 refl;
      compression_after_days = positive i.compression_after_days 7 refl;
      max_files_per_run = positive i.max_files_per_run 25 refl;
      max_zero_yield_files = positive i.max_zero_yield_files 25 refl;
      max_records_per_batch = batch;
      max_memory_buffer_records = positive_or-IsPositive i.max_memory_buffer_records _ batch;
      max_runtime = default i.max_runtime "10m" refl;
    }

pub record IsCollectable (a : AwsProvider) : Type 0 where
  pub ingestion_mode : a.ingestion_mode ≢ ""
  pub region : a.region ≢ ""
  pub cost_metric : a.cost_metric ≢ ""
  pub lookback_days : IsPositive a.lookback_days
  pub report_lag_days : IsPositive a.report_lag_days
  pub cur_region : a.cur_region ≢ ""
  pub cur_format : a.cur_format ≢ ""
  pub cur_lookback_days : IsPositive a.cur_lookback_days
  pub cur_report_lag_days : IsPositive a.cur_report_lag_days

pub aws_with_defaults-IsCollectable : (a : AwsProvider) → IsCollectable (aws_with_defaults a)
unfolding aws_with_defaults
aws_with_defaults-IsCollectable a = record {
  ingestion_mode = default (lowered a.ingestion_mode) "cur_s3" refl;
  region = default a.region "us-east-1" refl;
  cost_metric = default a.cost_metric "UnblendedCost" refl;
  lookback_days = positive a.lookback_days 3 refl;
  report_lag_days = positive a.report_lag_days 2 refl;
  cur_region = nonempty a.cur_region _ (default a.region "us-east-1" refl);
  cur_format = default (lowered a.cur_format) "csv_gzip" refl;
  cur_lookback_days = positive a.cur_lookback_days 3 refl;
  cur_report_lag_days = positive (positive_or a.cur_report_lag_days _) 2 refl;
}
