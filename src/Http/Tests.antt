-- ===== src/Http/Tests.antt =====
-- A job of two collectors that end without an error.
use torvix.Prelude.{All, ℕ, suc, ◌+◌, ◌-◌, ◌*◌, ◌≡◌, refl, false, none, List, [], ◌∷◌}
use torvix.Prelude.Int.{ℤ, pos}
use torvix.Prelude.Whole.{whole_floats}
use torvix.Prelude.Clock.{Time, day, unix_epoch}
use torvix.Prelude.Result.{ok}
use torvix.Collect.Lookback.{Policy}
use torvix.Collect.Batches.{CollectResult, Collector, Repository}
use torvix.Collect.Run.{run}
use torvix.Http.Jobs.{complete, Job, Store, new_store, enqueue, status_success}
use torvix.Http.Ingestion.{run_ingestion_job, ingestion_notification}
use torvix.Http.Ingestion.Success.{outcome_of, run_ingestion_job-Succeeded}

abbrev now : Time
now = unix_epoch + 19_723 * day

abbrev policy : Policy
policy = record { lookback_days = pos 30; retention_days = pos 90; compression_after_days = pos 7 }

-- The world is the number of writes to the database.
abbrev database : Repository ℤ ℕ
database = record {
  clock = λ w. now;
  last_ingestion_checkpoint = λ p w. ok (now - 2 * day);
  mark_ingestion_checkpoint = λ p t w. (none, suc w);
  delete_cost_records_for_source = λ p s w. (none, suc w);
  store_cost_records = λ rs w. (none, suc w);
  mark_report_processed = λ f w. (none, suc w);
  store_ingested_batch = λ f rs w. (none, suc w);
  refresh_aggregates = λ from to w. (none, suc w);
  refresh_dashboard_analytics = λ from to n w. (none, suc w);
  run_data_lifecycle_maintenance = λ n m w. (none, suc w);
}

abbrev one_file : CollectResult ℤ
one_file = record {
  batches = [];
  files_processed = 1;
  files_skipped = 0;
  skipped_old_files = 0;
  records_processed = 0;
  batches_inserted = 0;
  hit_file_limit = false;
  hit_runtime_limit = false;
  hit_zero_yield_limit = false;
  failures = 0;
}

abbrev collectors : List (Collector ℤ ℕ)
collectors =
    record { name = "oci"; collect = λ since w. (one_file, none); collect_stream = none }
    ∷ record { name = "aws"; collect = λ since w. (one_file, none); collect_stream = none }
    ∷ []

abbrev queued : Store
queued = (enqueue now 3 (now - 3 * day) new_store).1

abbrev job : Job
job =
    (run_ingestion_job now (now + 9) queued.active
      (outcome_of database policy whole_floats false collectors (now - day) 0) queued).0

job_succeeds : job.status ≡ status_success
unfolding run_ingestion_job complete run
job_succeeds = refl

run_ingestion_job-Succeeded_example :
    (false ≡ false)
    × All (λ r. r.error ≡ "") job.results
    × ((ingestion_notification whole_floats job).severity ≡ "success")
run_ingestion_job-Succeeded_example =
    run_ingestion_job-Succeeded database policy whole_floats now (now + 9) queued.active queued
      false collectors (now - day) 0 job_succeeds
