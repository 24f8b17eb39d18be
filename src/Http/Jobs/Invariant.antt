-- ===== src/Http/Jobs/Invariant.antt =====
-- The job store's invariant, and that each of its methods keeps it.
use torvix.Prelude.Text.{itoa-ne-empty}
use torvix.Prelude.Clock.{unix_epoch, Time}
use torvix.Prelude.Keys.{
  contains-drop_last, not_contains-drop, Distinct-snoc, get_or, insert, contains-append, is_some,
  contains, Distinct,
}
use torvix.Prelude.{
  length-append, length-drop, eq_refl, inr, Option, inl, Bool-cases, List, refl, some, String, ◌||◌,
  ◌-◌, [], eq_iff, ◌==◌, ◌+◌, false, true, drop, ◌++◌, ◌∷◌, ◌≤◌, ◌≡◌, ◌≢◌, length, ℕ, Bool, arith,
}
use torvix.Http.Jobs.{
  Job, Store, new_store, new_job, id_at, max_stored_jobs, trim_locked, enqueue, mark_running,
  complete, zero_job, IngestResponse,
}
use torvix.Http.Jobs.Trim.{Tracks, trim-Tracks, trim-Distinct, trim_newest, trim_kept}

-- A job that has completed is settled: no method that the program calls touches it again.
abbrev pub is_settled : Job → Bool
is_settled j = is_some j.completed_at

pub record IsValid (s : Store) : Type 0 where
  pub tracks : Tracks s.jobs s.order
  pub distinct : Distinct s.order
  pub bounded : length s.order ≤ max_stored_jobs
  pub named : contains "" s.order ≡ false
  pub active_known : (s.active == "" || contains s.active s.order) ≡ true
  pub settled :
      (k : String) (j : Job) → s.jobs k ≡ some j → (k == s.active) ≡ false → is_settled j ≡ true

pub new_store-IsValid : IsValid new_store
unfolding new_store
new_store-IsValid = record {
  tracks = λ k. refl;
  distinct = tt;
  bounded = omega arith;
  named = refl;
  active_known = refl;
  settled = λ k j h. cc;
}

pub id_at-ne-empty : (now : Time) → id_at now ≢ ""
unfolding id_at
id_at-ne-empty now = itoa-ne-empty (now - unix_epoch)

-- The id that a call at `now` gives is not stored: no two jobs are queued in one nanosecond.
abbrev pub Fresh : Time → Store → Type 0
Fresh now s = contains (id_at now) s.order ≡ false

module _ (now : Time) (days : ℕ) (since : Time) (s : Store) where
  -- The store that enqueue hands to trimLocked.
  abbrev pub appended : Store
  appended = record {
    jobs = insert (id_at now) (new_job now days since) s.jobs;
    order = s.order ++ id_at now ∷ [];
    active = id_at now;
  }

  pub enqueue_idle :
      s.active ≡ ""
      → enqueue now days since s ≡ ((new_job now days since, true), trim_locked appended)
  unfolding enqueue
  enqueue_idle e = rw ((eq_iff s.active "").1 e) refl

  -- While a job is active a second one is not started, and the active job is the answer.
  pub enqueue_busy :
      s.active ≢ "" → enqueue now days since s ≡ ((get_or (s.jobs s.active) zero_job, false), s)
  unfolding enqueue
  enqueue_busy h = ground (arith, eq_iff s.active "")

  module _ (v : IsValid s) (fresh : Fresh now s) where
    appended-Tracks : Tracks appended.jobs appended.order
    appended-Tracks k =
        ground (arith, v.tracks k, contains-append k s.order (id_at now ∷ []), eq_iff (id_at now) k)

    order_enqueue :
        (trim_locked appended).order
        ≡ drop (length s.order + 1 - max_stored_jobs) (s.order ++ id_at now ∷ [])
    unfolding trim_locked
    order_enqueue = trim_newest (id_at now) _ s.order fresh

    active-trim_locked : (trim_locked appended).active ≡ id_at now
    unfolding trim_locked
    active-trim_locked = refl

    enqueue_settled :
        s.active ≡ ""
        → (k : String) (j : Job) → (trim_locked appended).jobs k ≡ some j
        → (k == id_at now) ≡ false
        → is_settled j ≡ true
    unfolding trim_locked
    enqueue_settled idle k j h other =
        let old : appended.jobs k ≡ some j = trim_kept _ (id_at now) appended.order k j h in
        let stored : s.jobs k ≡ some j =
          ground (arith, eq_iff (id_at now) k, eq_iff k (id_at now)) in
        v.settled k j stored (ground (arith, v.tracks k, v.named, eq_iff k s.active))

    enqueue_idle-IsValid : s.active ≡ "" → IsValid (trim_locked appended)
    enqueue_idle-IsValid idle = record {
      tracks =
          unfold trim_locked in
          trim-Tracks (id_at now) _ appended.order appended-Tracks all_distinct;
      distinct = unfold trim_locked in trim-Distinct (id_at now) _ appended.order all_distinct;
      bounded = rw order_enqueue (
          omega (
            arith,
            length-drop (length s.order + 1 - max_stored_jobs) appended.order,
            length-append s.order (id_at now ∷ []),
          ));
      named = rw order_enqueue (
          not_contains-drop _ appended.order "" (
            ground (
              arith,
              contains-append "" s.order (id_at now ∷ []),
              v.named,
              eq_iff (id_at now) "",
              id_at-ne-empty now,
            )));
      active_known =
          rw (order_enqueue, active-trim_locked)
            (ground (
              arith,
              contains-drop_last (length s.order + 1 - max_stored_jobs) s.order (id_at now)
                  (omega (arith, v.bounded)),
            ));
      settled = rw active-trim_locked (enqueue_settled idle);
    }
      where
        all_distinct : Distinct appended.order
        all_distinct = Distinct-snoc s.order (id_at now) v.distinct fresh

  -- An accepted or refused request keeps the invariant.
  pub enqueue-IsValid : IsValid s → Fresh now s → IsValid (enqueue now days since s).1
  enqueue-IsValid v fresh = elim (Bool-cases (s.active == "")) [
    | inl idle ↦
        rw (enqueue_idle ((eq_iff s.active "").0 idle))
          (enqueue_idle-IsValid v fresh ((eq_iff s.active "").0 idle))
    | inr busy ↦ rw (enqueue_busy (λ e. ground (arith, eq_iff s.active ""))) v
  ]

-- markRunning and complete are called with the active job's id.
module _ (now : Time) (s : Store) (v : IsValid s) (busy : s.active ≢ "") where
  active_stored : contains s.active s.order ≡ true
  active_stored = ground (arith, v.active_known, eq_iff s.active "")

  pub mark_running-IsValid : IsValid (mark_running now s.active s).1
  unfolding mark_running
  mark_running-IsValid = record {
    tracks = λ k. ground (arith, v.tracks k, active_stored, eq_iff s.active k);
    distinct = v.distinct;
    bounded = v.bounded;
    named = v.named;
    active_known = v.active_known;
    settled =
        λ k j h other. v.settled k j (ground (arith, eq_iff s.active k, eq_iff k s.active)) other;
  }

  pub complete-IsValid :
      (status : String) (results : List IngestResponse) (err : Option String)
      → IsValid (complete now s.active status results err s).1
  unfolding complete
  complete-IsValid status results err = record {
    tracks = λ k. ground (arith, v.tracks k, active_stored, eq_iff s.active k);
    distinct = v.distinct;
    bounded = v.bounded;
    named = v.named;
    active_known = rw (eq_refl s.active) refl;
    settled = λ k j h other. ground (arith, v.settled k j, eq_iff s.active k, eq_iff k s.active);
  }
