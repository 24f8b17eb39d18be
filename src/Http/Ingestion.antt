-- ===== src/Http/Ingestion.antt =====
-- handler.go: what the goroutine of an ingestion job does, from the run of the collectors to the stored
-- job and the notification.
pub mod Success
use torvix.Prelude.{
  ltb, leb, ◌=ℕ◌, if◌then◌else◌, ltb→lt, lt→ltb, leb→le, le→leb, tests, Bool-cases, Option-cases,
  length, take, drop, keep, any, All, length-append, length-take, length-drop, length-keep,
  length-map, All-append, All-map, ℕ, zero, suc, ◌+◌, ◌-◌, ◌*◌, ◌/◌, ◌%◌, ◌^◌, ◌≤◌, ◌<◌, min,
  String, ◌≡◌, refl, sym, ap, subst, ◌∙◌, ◌≢◌, ◌↔◌, ◌⊎◌, inl, inr, Bool, true, false, not, ◌&&◌,
  ◌||◌, Option, none, some, List, [], ◌∷◌, map, arith, ◌==◌, eq_iff, eq_refl,
}
use Prim.Native.String.{◌++◌}
use Prim.Native.Char.{Char, code}
use torvix.Prelude.Text.{itoa}
use torvix.Prelude.Clock.{Time}
use torvix.Prelude.Float64.{Float64}
use torvix.Collect.Batches.{ProviderResult}
use torvix.Alerting.Payload.{Notification, NotificationField}
use torvix.Http.Jobs.{
  IngestResponse, Job, Store, mark_running, complete, status_success, status_partial, status_failed,
}

-- How Run of the collectors ends: it returns, or it panics.
pub data RunOutcome : Type 0 where
  returned : List ProviderResult → Option String → RunOutcome
  panicked : String → RunOutcome

unfoldable pub ingestion_responses : List ProviderResult → List IngestResponse
ingestion_responses [] = []
ingestion_responses (pr ∷ rest) =
    record {
      provider = pr.provider;
      files_processed = pr.files_processed;
      files_skipped = pr.files_skipped;
      skipped_old_files = pr.skipped_old_files;
      records_parsed = pr.records_parsed;
      records_within_lookback = pr.records_within_lookback;
      records_skipped_old = pr.records_skipped_old;
      records_inserted = pr.records_inserted;
      duration = pr.duration;
      error = pr.error;
    }
    ∷ ingestion_responses rest

-- The status that runIngestionJob gives to a run that returned.
abbrev pub status_of : Option String → List IngestResponse → String
status_of none resp = status_success
status_of (some e) [] = status_failed
status_of (some e) (r ∷ rs) = status_partial

-- runIngestionJob, from the time when the job is marked as running to the time when it is complete,
-- up to the notification
unfoldable pub run_ingestion_job : Time → Time → String → RunOutcome → Store → Job × Store
unfolding mark_running complete ingestion_responses
run_ingestion_job started ended id (returned results err) s =
    let resp = ingestion_responses results in
    complete ended id (status_of err resp) resp err (mark_running started id s).1
run_ingestion_job started ended id (panicked e) s =
    complete ended id status_failed [] (some ("ingestion panic: " ++ e))
      (mark_running started id s).1

abbrev sum_of : (IngestResponse → ℕ) → List IngestResponse → ℕ
sum_of f [] = 0
sum_of f (r ∷ rs) = f r + sum_of f rs

abbrev pub severity_of : String → String
severity_of status =
    if status == status_failed
    then "error"
    else if status == status_partial
    then "warning"
    else "success"

-- strings.ReplaceAll(s, "_", " ")
abbrev spaced : String → String
spaced String.[] = ""
spaced (String.◌∷◌ c s) =
    let rest = spaced s in if code c =ℕ b'_' then " " ++ rest else String.◌∷◌ c rest

-- titleForNotification
abbrev title_for_notification : String → String
title_for_notification status =
    if status == status_success
    then "Succeeded"
    else if status == status_partial
    then "Partially Failed"
    else if status == status_failed
    then "Failed"
    else spaced status

abbrev counted_field : String → ℕ → NotificationField
counted_field name n = record { name = name; value = itoa n }

-- ingestionNotification
unfoldable pub ingestion_notification : {F : Type 0} → Float64 F → Job → Notification
ingestion_notification fl job = record {
  title = "Torvix Ingestion " ++ title_for_notification job.status;
  severity = severity_of job.status;
  message =
      "Background ingestion finished with status "
      ++ job.status
      ++ "."
      ++ (if job.error == "" then "" else " Error: " ++ job.error);
  fields =
      record { name = "Job ID"; value = job.job_id }
      ∷ counted_field "Files processed" (sum_of (λ r. r.files_processed) job.results)
      ∷ counted_field "Files skipped" (sum_of (λ r. r.files_skipped) job.results)
      ∷ counted_field "Old files skipped" (sum_of (λ r. r.skipped_old_files) job.results)
      ∷ counted_field "Records parsed" (sum_of (λ r. r.records_parsed) job.results)
      ∷ counted_field "Records within lookback"
          (sum_of (λ r. r.records_within_lookback) job.results)
      ∷ counted_field "Old records skipped" (sum_of (λ r. r.records_skipped_old) job.results)
      ∷ counted_field "Records inserted" (sum_of (λ r. r.records_inserted) job.results)
      ∷ record { name = "Duration"; value = fl.fixed 1 (fl.decimal job.duration 9) ++ "s" }
      ∷ [];
}
