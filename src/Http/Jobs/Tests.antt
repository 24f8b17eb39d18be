-- ===== src/Http/Jobs/Tests.antt =====
-- The job store's theorems at the first calls of a server, in January 2024.
use torvix.Prelude.{
  ◌++◌, length, drop, ◌+◌, ◌-◌, ◌*◌, ◌≡◌, refl, sym, ◌∙◌, ◌≢◌, true, false, none, some, [], ◌∷◌,
}
use torvix.Prelude.Clock.{Time, day, unix_epoch}
use torvix.Http.Jobs.{
  max_stored_jobs, Job, Store, new_store, new_job, id_at, enqueue, mark_running, complete, get,
  status_success,
}
use torvix.Http.Jobs.Invariant.{id_at-ne-empty, enqueue-IsValid, IsValid, Fresh, new_store-IsValid}
use torvix.Http.Jobs.Lifecycle.{
  queue, run, finish, Reach, here, next, Reach-IsValid, enqueue_starts, enqueue_while_active,
  complete-mark_running,
}

abbrev morning : Time
morning = unix_epoch + 19_723 * day

-- The store after the first request, after its job has started, and after it has ended.
abbrev one_active : Store
one_active = (enqueue morning 3 (morning - 3 * day) new_store).1

abbrev one_running : Store
one_running = (mark_running (morning + 1) one_active.active one_active).1

abbrev one_done : Store
one_done = (complete (morning + 5) one_running.active status_success [] none one_running).1

morning-Fresh : Fresh morning new_store
unfolding new_store
morning-Fresh = refl

idle_at_first : new_store.active ≡ ""
unfolding new_store
idle_at_first = refl

one_active_busy : one_active.active ≢ ""
one_active_busy h = id_at-ne-empty morning (
    sym
      (enqueue_starts morning 3 (morning - 3 * day) new_store new_store-IsValid morning-Fresh
        idle_at_first).1
    ∙ h)

one_running_busy : one_running.active ≢ ""
unfolding mark_running
one_running_busy = one_active_busy

after_a_run : Reach new_store one_done
after_a_run =
    next
      (next (next here (queue new_store morning 3 (morning - 3 * day) morning-Fresh))
        (run one_active (morning + 1) one_active_busy))
      (finish one_running (morning + 5) status_success [] none one_running_busy)

Reach-IsValid_example : IsValid one_done
Reach-IsValid_example = Reach-IsValid after_a_run

enqueue_starts_example :
    ((enqueue morning 3 0 new_store).0 ≡ (new_job morning 3 0, true))
    × ((enqueue morning 3 0 new_store).1.active ≡ id_at morning)
    × ((enqueue morning 3 0 new_store).1.order
        ≡ drop
            (length new_store.order + 1 - max_stored_jobs)
            (new_store.order ++ id_at morning ∷ []))
    × (get (id_at morning) (enqueue morning 3 0 new_store).1 ≡ (new_job morning 3 0, true))
enqueue_starts_example =
    enqueue_starts morning 3 0 new_store new_store-IsValid morning-Fresh idle_at_first

enqueue_while_active_example :
    (j : Job) × (one_active.jobs one_active.active ≡ some j)
    × (enqueue (morning + 7) 30 0 one_active ≡ ((j, false), one_active))
enqueue_while_active_example =
    enqueue_while_active (morning + 7) 30 0 one_active
      (enqueue-IsValid morning 3 (morning - 3 * day) new_store new_store-IsValid morning-Fresh)
      one_active_busy

complete-mark_running_example :
    (one_done.active ≡ "")
    × (get one_active.active one_done
        ≡ ((complete (morning + 5) one_running.active status_success [] none one_running).0, true))
    × ((complete (morning + 5) one_running.active status_success [] none one_running).0.status
        ≡ status_success)
    × ((complete (morning + 5) one_running.active status_success [] none one_running).0.results
        ≡ [])
    × ((complete (morning + 5) one_running.active status_success [] none one_running).0.duration
        ≡ 4)
    × ((complete (morning + 5) one_running.active status_success [] none one_running).0.completed_at
        ≡ some (morning + 5))
unfolding mark_running
complete-mark_running_example =
    complete-mark_running (morning + 1) (morning + 5) status_success [] none one_active
      one_active_busy
