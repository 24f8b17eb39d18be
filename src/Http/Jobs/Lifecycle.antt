-- ===== src/Http/Jobs/Lifecycle.antt =====
-- The job store over its whole life: requests, and the goroutine of the one active job.
use torvix.Prelude.{
  [], inr, ◌∷◌, eq_iff, ◌++◌, arith, ◌+◌, inl, refl, length, Option-cases, eq_refl, drop, false,
  ◌-◌, Option, true, some, ◌≢◌, ◌≡◌, List, ℕ, String,
}
use torvix.Prelude.Clock.{Time}
use torvix.Http.Jobs.{
  Job, Store, new_store, new_job, id_at, max_stored_jobs, trim_locked, enqueue, mark_running,
  complete, get, IngestResponse,
}
use torvix.Http.Jobs.Trim.{trim_newest, trim_active}
use torvix.Prelude.Keys.{insert}
use torvix.Http.Jobs.Invariant.{
  IsValid, Fresh, new_store-IsValid, enqueue-IsValid, mark_running-IsValid, complete-IsValid,
  enqueue_idle, enqueue_busy,
}

-- One call of a method, as the handler makes them: any request may be queued at any time, and only
-- the goroutine of the active job marks it running and completes it.
pub data Step : Store → Store → Type 0 where
  queue :
      (s : Store) (now : Time) (days : ℕ) (since : Time)
      → Fresh now s
      → Step s (enqueue now days since s).1
  run : (s : Store) (now : Time) → s.active ≢ "" → Step s (mark_running now s.active s).1
  finish :
      (s : Store) (now : Time) (status : String) (results : List IngestResponse)
      (err : Option String)
      → s.active ≢ ""
      → Step s (complete now s.active status results err s).1

pub data Reach (s : Store) : Store → Type 0 where
  here : Reach s s
  next : {t u : Store} → Reach s t → Step t u → Reach s u

pub Step-IsValid : {s t : Store} → Step s t → IsValid s → IsValid t
Step-IsValid (queue s now days since fresh) v = enqueue-IsValid now days since s v fresh
Step-IsValid (run s now busy) v = mark_running-IsValid now s v busy
Step-IsValid (finish s now status results err busy) v =
    complete-IsValid now s v busy status results err

-- In every state that the handler's calls reach from the empty store, in any order: the map's keys
-- are the ids of the order, each once; at most 20 jobs are stored; the active id, if any, is one of
-- them; and every other stored job has completed.
pub Reach-IsValid : {s : Store} → Reach new_store s → IsValid s
Reach-IsValid here = new_store-IsValid
Reach-IsValid (next r st) = Step-IsValid st (Reach-IsValid r)

-- In a valid store where no job is active, a request with a fresh id is started, becomes the active job with status
-- queued, is found by `get` under its id, and leaves exactly the 20 newest ids in the order.
pub enqueue_starts :
    (now : Time) (days : ℕ) (since : Time) (s : Store)
    → IsValid s
    → Fresh now s
    → s.active ≡ ""
    → ((enqueue now days since s).0 ≡ (new_job now days since, true))
      × ((enqueue now days since s).1.active ≡ id_at now)
      × ((enqueue now days since s).1.order
          ≡ drop (length s.order + 1 - max_stored_jobs) (s.order ++ id_at now ∷ []))
      × (get (id_at now) (enqueue now days since s).1 ≡ (new_job now days since, true))
unfolding trim_locked get
enqueue_starts now days since s v fresh idle =
    let jobs = insert (id_at now) (new_job now days since) s.jobs in
    rw (enqueue_idle now days since s idle) (
      refl,
      refl,
      trim_newest (id_at now) _ s.order fresh,
      rw (trim_active (id_at now) jobs (s.order ++ id_at now ∷ []), eq_refl (id_at now)) refl,
    )

-- While a job is active in a valid store, a request starts nothing: the store is unchanged and the answer is the
-- stored active job.
pub enqueue_while_active :
    (now : Time) (days : ℕ) (since : Time) (s : Store)
    → IsValid s
    → s.active ≢ ""
    → (j : Job) × (s.jobs s.active ≡ some j) × (enqueue now days since s ≡ ((j, false), s))
enqueue_while_active now days since s v busy = elim (Option-cases (s.jobs s.active)) [
  | inl e ↦ absurd (busy (ground (arith, v.tracks s.active, v.active_known, eq_iff s.active "")))
  | inr (j, e) ↦ (j, e, rw (enqueue_busy now days since s busy) (ground arith))
]

-- The run of the active job: after it is marked running and completed, `get` returns it with the
-- given status and results, completed, with the time from the start to the end as its duration, and
-- the store is free for the next request.
pub complete-mark_running :
    (t0 t1 : Time) (status : String) (results : List IngestResponse) (err : Option String)
    (s : Store)
    → s.active ≢ ""
    → let s' = (mark_running t0 s.active s).1 in
      let out = complete t1 s.active status results err s' in
      (out.1.active ≡ "")
      × (get s.active out.1 ≡ (out.0, true))
      × (out.0.status ≡ status)
      × (out.0.results ≡ results)
      × (out.0.duration ≡ t1 - t0)
      × (out.0.completed_at ≡ some t1)
unfolding mark_running complete get
complete-mark_running t0 t1 status results err s busy =
    simp eq_refl (refl, refl, refl, refl, refl, refl)
