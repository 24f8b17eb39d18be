-- ===== src/Http/Ingestion/Success.antt =====
-- What a finished ingestion job tells.
use torvix.Prelude.{
  All, String, ◌≡◌, refl, Bool, true, false, Option, none, some, List, [], ◌∷◌, eq_iff,
}
use torvix.Prelude.Clock.{Time}
use torvix.Prelude.Float64.{Float64}
use torvix.Collect.Batches.{ProviderResult, Collector, Repository}
use torvix.Collect.Lookback.{Policy}
use torvix.Collect.Run.{run}
use torvix.Collect.Results.{Succeeded, run-Succeeded}
use torvix.Http.Jobs.{
  IngestResponse, Store, complete, status_success, status_partial, status_failed,
}
use torvix.Http.Ingestion.{
  RunOutcome, returned, ingestion_responses, status_of, run_ingestion_job, ingestion_notification,
}

-- The responses to results without an error carry none.
responses_without_error :
    (rs : List ProviderResult) → All Succeeded rs → All (λ r. r.error ≡ "") (ingestion_responses rs)
unfolding ingestion_responses
responses_without_error [] h = tt
responses_without_error (r ∷ rs) h = (h.0, responses_without_error rs h.1)

module _ {F W : Type 0} (repo : Repository F W) (policy : Policy) (fl : Float64 F) where
  -- The outcome of a run of the collectors that did not panic.
  abbrev pub outcome_of : Bool → List (Collector F W) → Time → W → RunOutcome
  outcome_of active cs since w =
      let ((results, err), w') = run repo policy active cs since w in returned results err

  false_ne_true : ◌≡◌ {A = Bool} false true → ⊥
  false_ne_true h = cc

  status_success_lem :
      (err : Option String) (resp : List IngestResponse)
      → status_of err resp ≡ status_success
      → err ≡ none
  status_success_lem none resp h = refl
  status_success_lem (some e) [] h =
      absurd (false_ne_true ((eq_iff status_failed status_success).1 h))
  status_success_lem (some e) (r ∷ rs) h =
      absurd (false_ne_true ((eq_iff status_partial status_success).1 h))

  -- If the job of a run of the collectors ends with status success, the run held the lock, none of
  -- the job's provider results carries an error, and the notification's severity is success.
  pub run_ingestion_job-Succeeded :
      (started ended : Time) (id : String) (s : Store) (active : Bool) (cs : List (Collector F W))
      (since : Time) (w : W)
      → (run_ingestion_job started ended id (outcome_of active cs since w) s).0.status
        ≡ status_success
      → let job = (run_ingestion_job started ended id (outcome_of active cs since w) s).0 in
        (active ≡ false)
        × All (λ r. r.error ≡ "") job.results
        × ((ingestion_notification fl job).severity ≡ "success")
  unfolding run_ingestion_job ingestion_notification complete
  run_ingestion_job-Succeeded started ended id s active cs since w h =
      let out = (run repo policy active cs since w).0 in
      let (locked, fine) =
        run-Succeeded repo policy active cs since w
          (status_success_lem out.1 (ingestion_responses out.0) h) in
      (locked, responses_without_error out.0 fine, rw h refl)
