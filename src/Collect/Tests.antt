-- ===== src/Collect/Tests.antt =====
-- The collection theorems at two collectors, one of them streaming, on 1 January 2024.
use torvix.Prelude.{
  ◌⊎◌, ◌≤◌, max, All, ℕ, suc, ◌+◌, ◌-◌, ◌*◌, ◌%◌, ◌≡◌, refl, inl, inr, true, false, none, some, [],
  ◌∷◌, arith,
}
use torvix.Prelude.Int.{ℤ, pos}
use torvix.Prelude.Clock.{truncate_day, Time, hour, day, zero_time, unix_epoch}
use torvix.Prelude.Result.{ok}
use torvix.Domain.{RawBillingRecord, ProcessedReportFile}
use torvix.Collect.Lookback.{Policy, effective_since}
use torvix.Collect.Normalize.{canonical}
use torvix.Collect.Since.{effective_since-latest}
use torvix.Collect.Batches.{
  FileBatch, CollectResult, done, emit, Collector, Repository, ProviderResult, Progress,
  store_normalized_batch, retained_of, earliest_of,
}
use torvix.Collect.Counts.{IsDated, Stored, store_normalized_batch-Stored}
use torvix.Collect.Run.{run, started, refresh_since}
use torvix.Collect.Results.{
  IsDayOf, Results, Succeeded, IsCovered, run-Results, run-Succeeded, refresh_since-IsCovered,
}

abbrev now : Time
now = unix_epoch + 19_723 * day

abbrev policy : Policy
policy = record { lookback_days = pos 30; retention_days = pos 90; compression_after_days = pos 7 }

abbrev raw : Time → RawBillingRecord ℤ
raw start = record {
  provider = "oci";
  account_id = "main";
  usage_start = start;
  usage_end = start + hour;
  service = "compute";
  category = "";
  sku = "";
  region = "";
  billing_scope_type = "";
  billing_scope_id = "";
  billing_scope_name = "";
  project_id = "";
  project_name = "";
  project_source = "";
  network_scope_type = "";
  network_scope_id = "";
  network_scope_name = "";
  resource_id = "";
  resource_type = "";
  currency = "USD";
  cost = pos 2;
  usage_amount = pos 1;
  usage_unit = "";
  tags = [];
  meter = "";
  record_type = "";
  source_file_key = "";
  source_file_etag = "";
  source_line_number = pos 1;
  source_record_hash = "";
  raw_data = [];
  source_object = "";
}

abbrev file : ProcessedReportFile
file = record {
  provider = "oci";
  bucket = "reports";
  object_name = "a.csv";
  etag = "1";
  last_modified = now;
  processed_at = now;
  record_count = 0;
  status = "";
  error_message = "";
}

-- One record of yesterday and one of a hundred days ago.
abbrev batch : FileBatch ℤ
batch = record {
  metadata = file;
  records = raw (now - day) ∷ raw (now - 100 * day) ∷ [];
  first = true;
  final = false;
}

abbrev nothing_found : CollectResult ℤ
nothing_found = record {
  batches = [];
  files_processed = 0;
  files_skipped = 0;
  skipped_old_files = 0;
  records_processed = 0;
  batches_inserted = 0;
  hit_file_limit = false;
  hit_runtime_limit = false;
  hit_zero_yield_limit = false;
  failures = 0;
}

abbrev one_file : CollectResult ℤ
one_file = record nothing_found { files_processed = 1; records_processed = 2 }

-- The world is the number of writes to the database.
abbrev database : Repository ℤ ℕ
database = record {
  clock = λ w. now;
  last_ingestion_checkpoint = λ p w. ok (now - 2 * day);
  mark_ingestion_checkpoint = λ p t w. (none, suc w);
  delete_cost_records_for_source = λ p s w. (none, suc w);
  store_cost_records = λ rs w. (none, suc w);
  mark_report_processed = λ f w. (none, suc w);
  store_ingested_batch = λ f rs w. (none, suc w);
  refresh_aggregates = λ from to w. (none, suc w);
  refresh_dashboard_analytics = λ from to n w. (none, suc w);
  run_data_lifecycle_maintenance = λ n m w. (none, suc w);
}

abbrev streaming : Collector ℤ ℕ
streaming = record {
  name = "oci";
  collect = λ since w. (nothing_found, none);
  collect_stream = some (λ since w.
      emit batch
        (λ e. emit (record batch { first = false; final = true }) (λ e'. done one_file e)));
}

abbrev whole : Collector ℤ ℕ
whole = record {
  name = "aws";
  collect = λ since w. (record one_file { batches = batch ∷ [] }, none);
  collect_stream = none;
}

abbrev begun : Progress ℕ
begun = record { result = started "oci"; inserted = 0; world = 0 }

effective_since-latest_example :
    effective_since policy now (ok (now - 2 * day)) zero_time
    ≡ max (max zero_time (now - 30 * day)) (now - 2 * day - hour)
effective_since-latest_example =
    effective_since-latest policy 30 now zero_time (now - 2 * day) refl (omega arith)

batch-IsDated : All IsDated (retained_of database policy batch 0).0
unfolding retained_of canonical
batch-IsDated = (omega arith, tt)

store_normalized_batch-Stored_example :
    ((store_normalized_batch database policy batch true begun).1.result.records_within_lookback
        + (store_normalized_batch database policy batch true begun).1.result.records_skipped_old
      ≡ 2)
    × Stored database policy
        (retained_of database policy batch 0).0
        begun
        (store_normalized_batch database policy batch true begun)
store_normalized_batch-Stored_example =
    store_normalized_batch-Stored database policy batch true begun batch-IsDated

run-Results_example :
    Results
      (streaming ∷ whole ∷ [])
      (run database policy false (streaming ∷ whole ∷ []) (now - day) 0).0.0
run-Results_example = run-Results database policy (streaming ∷ whole ∷ []) (now - day) 0

run_succeeds : (run database policy false (streaming ∷ whole ∷ []) (now - day) 0).0.1 ≡ none
unfolding run
run_succeeds = refl

run-Succeeded_example :
    (false ≡ false)
    × All Succeeded (run database policy false (streaming ∷ whole ∷ []) (now - day) 0).0.0
run-Succeeded_example =
    run-Succeeded database policy false (streaming ∷ whole ∷ []) (now - day) 0 run_succeeds

abbrev result : ProviderResult
result = record (started "oci") { earliest_record = now - 3 * day - hour; records_inserted = 4 }

refresh_since-IsCovered_example :
    All
      (IsCovered (refresh_since (result ∷ started "aws" ∷ []) now now))
      (result ∷ started "aws" ∷ [])
    × (refresh_since (result ∷ started "aws" ∷ []) now now % day ≡ 0)
    × (refresh_since (result ∷ started "aws" ∷ []) now now ≤ now)
    × ((refresh_since (result ∷ started "aws" ∷ []) now now ≡ truncate_day now)
        ⊎ IsDayOf
            (refresh_since (result ∷ started "aws" ∷ []) now now)
            (result ∷ started "aws" ∷ []))
refresh_since-IsCovered_example =
    refresh_since-IsCovered (result ∷ started "aws" ∷ []) now now (omega arith)
      (inr (omega arith, omega arith), (inl refl, tt))

-- A record without a timestamp that stands after a dated one makes the earlier date forgotten.
test_forgotten :
    earliest_of zero_time
      (canonical (raw (now - 3 * day)) ∷ canonical (raw zero_time) ∷ canonical (raw now) ∷ [])
    ≡ now
unfolding earliest_of canonical
test_forgotten = refl
