-- ===== src/Collect/Run.antt =====
-- Run: the collectors, then the refresh of the aggregates and the maintenance of the database. The
-- source runs the collectors in goroutines that append to the results under a mutex; here the list of
-- the collectors is the order in which they finish, and each goroutine is one step.
use torvix.Prelude.{
  ltb, if◌then◌else◌, ℕ, ◌+◌, ◌-◌, String, Bool, true, false, not, ◌&&◌, ◌||◌, Option, none, some,
  List, [], ◌∷◌,
}
use mathlib.Core.List.{◌++◌}
use torvix.Prelude.Text.{join}
use torvix.Prelude.Clock.{Time, is_zero, before, after, zero_time, day, truncate_day}
use torvix.Collect.Lookback.{Policy, effective_since}
use torvix.Collect.Batches.{
  CollectResult, Collector, Repository, ProviderResult, Progress, collect_provider,
}

abbrev run_already_active : String
run_already_active = "ingestion run already active"

abbrev pub started : String → ProviderResult
started provider = record {
  provider = provider;
  files_processed = 0;
  files_skipped = 0;
  skipped_old_files = 0;
  records_parsed = 0;
  records_within_lookback = 0;
  records_skipped_old = 0;
  records_inserted = 0;
  duration = 0;
  earliest_record = zero_time;
  error = "";
}

abbrev pub error_text : Option String → String
error_text none = ""
error_text (some e) = e

abbrev pub error_list : Option String → List String
error_list none = []
error_list (some e) = e ∷ []

-- errors.Join(allErrs...)
abbrev pub join_errors : List String → Option String
join_errors [] = none
join_errors (e ∷ es) = some (join (e ∷ es) "\n")

-- Whether a collector went through everything there was, so that its checkpoint moves.
unfoldable pub checkpoint_due : {F : Type 0} → CollectResult F → Option String → Bool
checkpoint_due r (some e) = false
checkpoint_due r none =
    ltb 0 r.files_processed
    && not r.hit_file_limit
    && not r.hit_runtime_limit
    && not r.hit_zero_yield_limit

unfoldable pub total_inserted : List ProviderResult → ℕ
total_inserted [] = 0
total_inserted (r ∷ rs) = r.records_inserted + total_inserted rs

unfoldable pub earliest_result : Time → List ProviderResult → Time
earliest_result t [] = t
earliest_result t (r ∷ rs) =
    earliest_result
      (if not (is_zero r.earliest_record) && before r.earliest_record t
        then r.earliest_record
        else t)
      rs

-- From when on the aggregates are refreshed.
unfoldable pub refresh_since : List ProviderResult → Time → Time → Time
unfolding earliest_result truncate_day
refresh_since results since now =
    let from = truncate_day (earliest_result now results) in
    if is_zero from || after from now then since else from

module _ {F W : Type 0} (repo : Repository F W) (policy : Policy) where
  open repo use {
    clock, last_ingestion_checkpoint, mark_ingestion_checkpoint, refresh_aggregates,
    refresh_dashboard_analytics, run_data_lifecycle_maintenance,
  }

  abbrev pub finished : CollectResult F → Option String → Time → Progress W → ProviderResult
  finished r err start p = record p.result {
    error = error_text err;
    files_processed = r.files_processed;
    files_skipped = r.files_skipped;
    skipped_old_files = r.skipped_old_files;
    records_parsed = r.records_processed;
    records_inserted = p.inserted;
    duration = clock p.world - start;
  }

  -- The checkpoint of a collector that has finished, and the errors so far.
  abbrev pub with_checkpoint : String → CollectResult F → Option String → W → List String × W
  with_checkpoint name r err w =
      let (failed, w') = mark_ingestion_checkpoint name (clock w) w in
      if checkpoint_due r err then (error_list failed, w') else (error_list err, w)

  -- The goroutine of one collector: its result, the errors that it appends, and the world.
  unfoldable pub run_collector : Collector F W → Time → W → (ProviderResult × List String) × W
  unfolding collect_provider effective_since checkpoint_due
  run_collector c since w =
      let from = effective_since policy (clock w) (last_ingestion_checkpoint c.name w) since in
      let ((r, err), p) =
        collect_provider repo policy c from
          (record { result = started c.name; inserted = 0; world = w }) in
      let (errs, w') = with_checkpoint c.name r err p.world in
      ((finished r err (clock w) p, errs), w')

  unfoldable pub run_collectors :
      List (Collector F W) → Time → W → (List ProviderResult × List String) × W
  unfolding run_collector
  run_collectors [] since w = (([], []), w)
  run_collectors (c ∷ cs) since w =
      let ((r, errs), w') = run_collector c since w in
      let ((rs, more), w'') = run_collectors cs since w' in ((r ∷ rs, errs ++ more), w'')

  -- The refresh after records were inserted. That of the aggregates may fail with a log line alone.
  unfoldable pub refresh : List ProviderResult → Time → W → List String × W
  unfolding refresh_since total_inserted
  refresh results since w =
      let from = refresh_since results since (clock w) in
      let to = clock w + day in
      let (unlogged, w') = refresh_aggregates from to w in
      let (failed, w'') = refresh_dashboard_analytics from to policy.retention_days w' in
      if ltb 0 (total_inserted results) then (error_list failed, w'') else ([], w)

  -- Run; `active` says whether another run holds the lock.
  unfoldable pub run :
      Bool → List (Collector F W) → Time → W → (List ProviderResult × Option String) × W
  unfolding run_collectors refresh
  run true collectors since w = (([], some run_already_active), w)
  run false collectors since w =
      let ((results, errs), w₁) = run_collectors collectors since w in
      let (refreshed, w₂) = refresh results since w₁ in
      let (unmaintained, w₃) =
        run_data_lifecycle_maintenance policy.retention_days policy.compression_after_days w₂ in
      ((results, join_errors (errs ++ refreshed ++ error_list unmaintained)), w₃)
