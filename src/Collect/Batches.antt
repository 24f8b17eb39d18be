-- ===== src/Collect/Batches.antt =====
-- Storing what a collector delivers: collectProvider and storeNormalizedBatch, over the interfaces of
-- the database and of the collectors. `W` is the state of the world, whose clock time.Now() reads.
use torvix.Prelude.{
  if◌then◌else◌, length, ℕ, ◌+◌, String, Bool, true, false, ◌||◌, Option, none, some, List, [], ◌∷◌,
}
use Prim.Native.String.{◌++◌}
use torvix.Prelude.Int.{ℤ}
use torvix.Prelude.Clock.{Time, is_zero, before}
use torvix.Prelude.Result.{Result}
use torvix.Domain.{Provider, ProcessedReportFile, RawBillingRecord, CanonicalCostRecord}
use torvix.Collect.Normalize.{normalize}
use torvix.Collect.Lookback.{Policy, lookback_since, filter_records_within_lookback}

pub record FileBatch (F : Type 0) : Type 0 where
  pub metadata : ProcessedReportFile
  pub records : List (RawBillingRecord F)
  pub first : Bool
  pub final : Bool

pub record CollectResult (F : Type 0) : Type 0 where
  pub batches : List (FileBatch F)
  pub files_processed : ℕ
  pub files_skipped : ℕ
  pub skipped_old_files : ℕ
  pub records_processed : ℕ
  pub batches_inserted : ℕ
  pub hit_file_limit : Bool
  pub hit_runtime_limit : Bool
  pub hit_zero_yield_limit : Bool
  pub failures : ℕ

-- What CollectStream does with the handler: it hands over a batch and goes on by the error that it
-- gets back, or it returns.
pub data Stream (F : Type 0) : Type 0 where
  done : CollectResult F → Option String → Stream F
  emit : FileBatch F → (Option String → Stream F) → Stream F

-- A collector reads the cloud, which is part of the world; a StreamCollector has a stream.
pub record Collector (F W : Type 0) : Type 0 where
  pub name : String
  pub collect : Time → W → CollectResult F × Option String
  pub collect_stream : Option (Time → W → Stream F)

-- The methods of storage.Repository that a run needs, and time.Now().
pub record Repository (F W : Type 0) : Type 0 where
  pub clock : W → Time
  pub last_ingestion_checkpoint : Provider → W → Result Time
  pub mark_ingestion_checkpoint : Provider → Time → W → Option String × W
  pub delete_cost_records_for_source : Provider → String → W → Option String × W
  pub store_cost_records : List (CanonicalCostRecord F) → W → Option String × W
  pub mark_report_processed : ProcessedReportFile → W → Option String × W
  pub store_ingested_batch :
      ProcessedReportFile → List (CanonicalCostRecord F) → W → Option String × W
  pub refresh_aggregates : Time → Time → W → Option String × W
  pub refresh_dashboard_analytics : Time → Time → ℤ → W → Option String × W
  pub run_data_lifecycle_maintenance : ℤ → ℤ → W → Option String × W

pub record ProviderResult : Type 0 where
  pub provider : String
  pub files_processed : ℕ
  pub files_skipped : ℕ
  pub skipped_old_files : ℕ
  pub records_parsed : ℕ
  pub records_within_lookback : ℕ
  pub records_skipped_old : ℕ
  pub records_inserted : ℕ
  pub duration : ℕ
  pub earliest_record : Time
  pub error : String

-- The state of one collector's goroutine: its result so far, the counter recordsInserted, the world.
pub record Progress (W : Type 0) : Type 0 where
  pub result : ProviderResult
  pub inserted : ℕ
  pub world : W

-- The last loop of storeNormalizedBatch.
unfoldable pub earliest_of : {F : Type 0} → Time → List (CanonicalCostRecord F) → Time
earliest_of t [] = t
earliest_of t (r ∷ rs) =
    earliest_of (if is_zero t || before r.timestamp t then r.timestamp else t) rs

-- `if err := f(); err != nil { return err }`, before `g`.
abbrev pub and_then : {W : Type 0} → Option String × W → (W → Option String × W) → Option String × W
and_then (some e, w) g = (some e, w)
and_then (none, w) g = g w

module _ {F W : Type 0} (repo : Repository F W) (policy : Policy) where
  open repo use {
    clock, delete_cost_records_for_source, store_cost_records, mark_report_processed,
    store_ingested_batch,
  }

  -- The metadata of a batch, marked as processed now.
  abbrev processed : ProcessedReportFile → W → ProcessedReportFile
  processed file w = record file { processed_at = clock w; status = "processed" }

  abbrev delete_first : FileBatch F → W → Option String × W
  delete_first batch w =
      if batch.first
      then delete_cost_records_for_source batch.metadata.provider batch.metadata.object_name w
      else (none, w)

  abbrev store_some : List (CanonicalCostRecord F) → W → Option String × W
  store_some [] w = (none, w)
  store_some (r ∷ rs) w = store_cost_records (r ∷ rs) w

  -- How storeNormalizedBatch writes the records that it retains.
  pub write_batch : FileBatch F → Bool → List (CanonicalCostRecord F) → W → Option String × W
  write_batch batch true retained w = and_then (delete_first batch w) (store_some retained)
  write_batch batch false retained w =
      store_ingested_batch
        (record (processed batch.metadata w) { record_count = length batch.records }) retained w

  -- The state after the counts of the lookback, and after a write.
  abbrev pub counted : ℕ → ℕ → Progress W → Progress W
  counted retained skipped p = record p {
    result = record p.result {
      records_within_lookback = p.result.records_within_lookback + retained;
      records_skipped_old = p.result.records_skipped_old + skipped;
    };
  }

  abbrev pub written :
      List (CanonicalCostRecord F) → Progress W → Option String × W → Option String × Progress W
  written retained p (some e, w) = (some e, record p { world = w })
  written retained p (none, w) = (
    none,
    record {
      result = record p.result { earliest_record = earliest_of p.result.earliest_record retained };
      inserted = p.inserted + length retained;
      world = w;
    },
  )

  -- What a batch keeps of its records, at the clock of the world.
  unfoldable pub retained_of : FileBatch F → W → List (CanonicalCostRecord F) × ℕ
  unfolding filter_records_within_lookback normalize lookback_since
  retained_of batch w =
      filter_records_within_lookback (normalize batch.records) (lookback_since policy (clock w))

  -- storeNormalizedBatch
  unfoldable pub store_normalized_batch :
      FileBatch F → Bool → Progress W → Option String × Progress W
  unfolding write_batch retained_of
  store_normalized_batch batch streaming p =
      let (retained, skipped) = retained_of batch p.world in
      written retained (counted (length retained) skipped p)
        (write_batch batch streaming retained p.world)

  -- The handler that collectProvider gives to CollectStream.
  unfoldable pub handle_batch : FileBatch F → Progress W → Option String × Progress W
  unfolding store_normalized_batch
  handle_batch batch p =
      if batch.final
      then (let (failed, w) =
            and_then (delete_first batch p.world)
              (λ w. mark_report_processed (processed batch.metadata w) w) in
          (failed, record p { world = w }))
      else store_normalized_batch batch true p

  unfoldable pub run_stream : Stream F → Progress W → (CollectResult F × Option String) × Progress W
  unfolding handle_batch
  run_stream (done result err) p = ((result, err), p)
  run_stream (emit batch go_on) p =
      let (failed, p') = handle_batch batch p in run_stream (go_on failed) p'

  -- errors.Join(err, storeErr), and err alone where there is one alone
  abbrev join_error : Option String → String → Option String
  join_error none e = some e
  join_error (some e') e = some (e' ++ "\n" ++ e)

  abbrev fail : CollectResult F × Option String → Option String → CollectResult F × Option String
  fail (result, err) none = (result, err)
  fail (result, err) (some e) = (record result { failures = result.failures + 1 }, join_error err e)

  -- The loop over the batches of Collect.
  unfoldable pub store_batches :
      List (FileBatch F)
      → CollectResult F × Option String
      → Progress W
      → (CollectResult F × Option String) × Progress W
  unfolding store_normalized_batch
  store_batches [] out p = (out, p)
  store_batches (b ∷ bs) out p =
      let (failed, p') = store_normalized_batch b false p in store_batches bs (fail out failed) p'

  abbrev collect_by :
      Option (Time → W → Stream F)
      → CollectResult F × Option String
      → Time
      → Progress W
      → (CollectResult F × Option String) × Progress W
  collect_by (some stream) out since p = run_stream (stream since p.world) p
  collect_by none out since p = store_batches out.0.batches out p

  -- collectProvider
  unfoldable pub collect_provider :
      Collector F W → Time → Progress W → (CollectResult F × Option String) × Progress W
  unfolding run_stream store_batches
  collect_provider c since p = collect_by c.collect_stream (c.collect since p.world) since p
