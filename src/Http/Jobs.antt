-- ===== src/Http/Jobs.antt =====
-- ingestion_jobs.go, and IngestResponse and IngestionJobResponse of swagger.go. Every method runs
-- whole under the store's mutex, so a method is a function of the store; `now` is its time.Now().
-- A duration is a number of nanoseconds, which the source divides into seconds for printing.
pub mod Trim
pub mod Invariant
pub mod Lifecycle
mod Tests
use torvix.Prelude.{
  ℕ, ◌-◌, ◌≡◌, refl, Bool, true, false, String, Option, none, some, List, [], ◌∷◌, ◌++◌, arith, ltb,
  length, ◌==◌, if◌then◌else◌,
}
use torvix.Prelude.Text.{itoa}
use torvix.Prelude.Keys.{Map, empty, insert, delete, get_or, is_some}
use torvix.Prelude.Clock.{Time, zero_time, unix_epoch}

abbrev pub status_queued : String
status_queued = "queued"

abbrev pub status_running : String
status_running = "running"

abbrev pub status_success : String
status_success = "success"

abbrev pub status_partial : String
status_partial = "partial_failure"

abbrev pub status_failed : String
status_failed = "failed"

abbrev pub max_stored_jobs : ℕ
max_stored_jobs = 20

pub record IngestResponse : Type 0 where
  pub provider : String
  pub files_processed : ℕ
  pub files_skipped : ℕ
  pub skipped_old_files : ℕ
  pub records_parsed : ℕ
  pub records_within_lookback : ℕ
  pub records_skipped_old : ℕ
  pub records_inserted : ℕ
  pub duration : ℕ
  pub error : String

pub record Job : Type 0 where
  pub job_id : String
  pub status : String
  pub queued_at : Time
  pub started_at : Option Time
  pub completed_at : Option Time
  pub days : ℕ
  pub since : Time
  pub duration : ℕ
  pub results : List IngestResponse
  pub error : String

-- The zero value, which reading a missing key of the map gives.
abbrev pub zero_job : Job
zero_job = record {
  job_id = "";
  status = "";
  queued_at = zero_time;
  started_at = none;
  completed_at = none;
  days = 0;
  since = zero_time;
  duration = 0;
  results = [];
  error = "";
}

pub record Store : Type 0 where
  pub jobs : Map Job
  pub order : List String
  pub active : String

pub new_store : Store
new_store = record { jobs = empty; order = []; active = "" }

-- fmt.Sprintf("%d", now.UnixNano())
pub id_at : Time → String
id_at now = itoa (now - unix_epoch)

-- The loop of trimLocked, along the order.
pub trim : Map Job → String → List String → Map Job × List String
trim jobs active [] = (jobs, [])
trim jobs active (oldest ∷ rest) =
    let next = trim (delete oldest jobs) active rest in
    if ltb max_stored_jobs (length (oldest ∷ rest))
    then (if oldest == active then (jobs, oldest ∷ rest) else next)
    else (jobs, oldest ∷ rest)

pub trim_locked : Store → Store
unfolding trim
trim_locked s =
    let (jobs, order) = trim s.jobs s.active s.order in record s { jobs = jobs; order = order }

abbrev pub new_job : Time → ℕ → Time → Job
new_job now days since = record zero_job {
  job_id = id_at now;
  status = status_queued;
  queued_at = now;
  days = days;
  since = since;
}

pub enqueue : Time → ℕ → Time → Store → (Job × Bool) × Store
unfolding trim_locked
enqueue now days since s =
    if s.active == ""
    then (
      (new_job now days since, true),
      trim_locked (record {
        jobs = insert (id_at now) (new_job now days since) s.jobs;
        order = s.order ++ id_at now ∷ [];
        active = id_at now;
      }),
    )
    else ((get_or (s.jobs s.active) zero_job, false), s)

abbrev started : Time → Job → Job
started now job = record job { status = status_running; started_at = some now }

unfoldable pub mark_running : Time → String → Store → Job × Store
mark_running now id s =
    let job = started now (get_or (s.jobs id) zero_job) in
    (job, record s { jobs = insert id job s.jobs })

abbrev elapsed : Time → Option Time → ℕ → ℕ
elapsed now none d = d
elapsed now (some t) d = now - t

-- `err` is the text of the error, if there is one.
abbrev completed : Time → String → List IngestResponse → Option String → Job → Job
completed now status results err job = record job {
  status = status;
  completed_at = some now;
  results = results;
  duration = elapsed now job.started_at job.duration;
  error = get_or err job.error;
}

unfoldable pub complete :
    Time → String → String → List IngestResponse → Option String → Store → Job × Store
complete now id status results err s =
    let job = completed now status results err (get_or (s.jobs id) zero_job) in
    (
      job,
      record s { jobs = insert id job s.jobs; active = if s.active == id then "" else s.active },
    )

pub get : String → Store → Job × Bool
get id s = (get_or (s.jobs id) zero_job, is_some (s.jobs id))
