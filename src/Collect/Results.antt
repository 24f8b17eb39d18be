-- ===== src/Collect/Results.antt =====
-- What Run returns: one result for each collector, and no error that is lost.
use torvix.Prelude.{
  ◌∙◌, inl, inr, if◌then◌else◌, All, All-map, ◌+◌, ◌%◌, ◌≤◌, String, ◌≡◌, refl, ap, ◌⊎◌, Bool, true,
  false, not, ◌&&◌, Option, none, some, List, [], ◌∷◌, arith,
}
use mathlib.Core.List.{◌++◌}
use torvix.Prelude.Clock.{Time, is_zero, before, zero_time, day, truncate_day}
use torvix.Collect.Lookback.{Policy, effective_since}
use torvix.Collect.Counts.{collect_provider-Sound}
use torvix.Collect.Batches.{
  CollectResult, Collector, Repository, ProviderResult, Progress, collect_provider,
}
use torvix.Collect.Run.{
  started, error_text, error_list, join_errors, checkpoint_due, earliest_result, refresh_since,
  with_checkpoint, run_collector, run_collectors, run, refresh,
}

-- The result of a collector: its name, and no more records inserted than within the lookback.
abbrev pub IsResultOf : {F W : Type 0} → Collector F W → ProviderResult → Type 0
IsResultOf c r = (r.provider ≡ c.name) × (r.records_inserted ≤ r.records_within_lookback)

-- One result for each collector, in the order in which they finish.
pub data Results {F W : Type 0} : List (Collector F W) → List ProviderResult → Type 0 where
  nobody : Results [] []
  next :
      {c : Collector F W} {cs : List (Collector F W)} {r : ProviderResult}
      {rs : List ProviderResult}
      → IsResultOf c r
      → Results cs rs
      → Results (c ∷ cs) (r ∷ rs)

abbrev pub Succeeded : ProviderResult → Type 0
Succeeded r = r.error ≡ ""

module _ {F W : Type 0} (repo : Repository F W) (policy : Policy) where
  open repo use {clock, last_ingestion_checkpoint, run_data_lifecycle_maintenance}

  abbrev fresh : Collector F W → W → Progress W
  fresh c w = record { result = started c.name; inserted = 0; world = w }

  run_collector-IsResultOf :
      (c : Collector F W) (since : Time) (w : W)
      → IsResultOf c (run_collector repo policy c since w).0.0
  unfolding run_collector
  run_collector-IsResultOf c since w =
      collect_provider-Sound repo policy c.name c _ (fresh c w) (refl, omega arith)

  run_collectors-Results :
      (cs : List (Collector F W)) (since : Time) (w : W)
      → Results cs (run_collectors repo policy cs since w).0.0
  unfolding run_collectors
  run_collectors-Results [] since w = nobody
  run_collectors-Results (c ∷ cs) since w =
      next (run_collector-IsResultOf c since w)
        (run_collectors-Results cs since (run_collector repo policy c since w).1)

  -- A run that gets the lock returns one result for each collector, with its name, and no result
  -- has more records inserted than within the lookback.
  pub run-Results :
      (cs : List (Collector F W)) (since : Time) (w : W)
      → Results cs (run repo policy false cs since w).0.0
  unfolding run
  run-Results cs since w = run_collectors-Results cs since w

  with_checkpoint_lem :
      (name : String) (r : CollectResult F) (e : Option String) (w : W)
      → (with_checkpoint repo policy name r e w).0 ≡ []
      → e ≡ none
  unfolding checkpoint_due
  with_checkpoint_lem name r none w h = refl
  with_checkpoint_lem name r (some e) w h = cc

  run_collector-Succeeded :
      (c : Collector F W) (since : Time) (w : W)
      → (run_collector repo policy c since w).0.1 ≡ []
      → Succeeded (run_collector repo policy c since w).0.0
  unfolding run_collector
  run_collector-Succeeded c since w h =
      let from = effective_since policy (clock w) (last_ingestion_checkpoint c.name w) since in
      let out = collect_provider repo policy c from (fresh c w) in
      ap error_text (with_checkpoint_lem c.name out.0.0 out.0.1 out.1.world h)

  append_nil : (xs ys : List String) → xs ++ ys ≡ [] → (xs ≡ []) × (ys ≡ [])
  append_nil [] ys h = (refl, h)
  append_nil (x ∷ xs) ys h = cc

  run_collectors-Succeeded :
      (cs : List (Collector F W)) (since : Time) (w : W)
      → (run_collectors repo policy cs since w).0.1 ≡ []
      → All Succeeded (run_collectors repo policy cs since w).0.0
  unfolding run_collectors
  run_collectors-Succeeded [] since w h = tt
  run_collectors-Succeeded (c ∷ cs) since w h =
      let (here, later) = append_nil _ _ h in
      (
        run_collector-Succeeded c since w here,
        run_collectors-Succeeded cs since (run_collector repo policy c since w).1 later,
      )

  join_errors-none : (es : List String) → join_errors es ≡ none → es ≡ []
  join_errors-none [] h = refl
  join_errors-none (e ∷ es) h = cc

  -- If Run returns no error, no collector's result carries one.
  pub run-Succeeded :
      (active : Bool) (cs : List (Collector F W)) (since : Time) (w : W)
      → (run repo policy active cs since w).0.1 ≡ none
      → (active ≡ false) × All Succeeded (run repo policy active cs since w).0.0
  unfolding run
  run-Succeeded true cs since w h = cc
  run-Succeeded false cs since w h =
      let out = run_collectors repo policy cs since w in
      let (refreshed, w₂) = refresh repo policy out.0.0 since out.1 in
      let late =
        error_list
          (run_data_lifecycle_maintenance policy.retention_days policy.compression_after_days
            w₂).0 in
      let quiet = join_errors-none (out.0.1 ++ refreshed ++ late) h in
      let quiet_before = (append_nil (out.0.1 ++ refreshed) late quiet).0 in
      (refl, run_collectors-Succeeded cs since w (append_nil out.0.1 refreshed quiet_before).0)

-- The result's earliest record, if it has one, is on a day that begins no earlier than `from`.
abbrev pub IsCovered : Time → ProviderResult → Type 0
IsCovered from r = (r.earliest_record ≡ zero_time) ⊎ (from ≤ r.earliest_record)

-- The result's earliest record, if it has one, is after the first day of year 1 and not in the future.
abbrev pub IsPast : Time → ProviderResult → Type 0
IsPast now r =
    (r.earliest_record ≡ zero_time)
    ⊎ ((zero_time + day ≤ r.earliest_record) × (r.earliest_record ≤ now))

abbrev sooner : Time → ProviderResult → Time
sooner t r =
    if not (is_zero r.earliest_record) && before r.earliest_record t then r.earliest_record else t

earliest_result_bounds :
    (t : Time) (rs : List ProviderResult)
    → zero_time + day ≤ t
    → (now : Time) → All (IsPast now) rs
    → (zero_time + day ≤ earliest_result t rs) × (earliest_result t rs ≤ t)
unfolding earliest_result
earliest_result_bounds t [] h now p = (h, omega arith)
earliest_result_bounds t (r ∷ rs) h now p =
    let s : (zero_time + day ≤ sooner t r) × (sooner t r ≤ t) =
      (ground (arith, p.0), ground arith) in
    let (low, high) = earliest_result_bounds (sooner t r) rs s.0 now p.1 in
    (low, omega (arith, high, s.1))

earliest_result-IsCovered :
    (t : Time) (rs : List ProviderResult)
    → zero_time + day ≤ t
    → (now : Time) → All (IsPast now) rs
    → All (IsCovered (earliest_result t rs)) rs
unfolding earliest_result
earliest_result-IsCovered t [] h now p = tt
earliest_result-IsCovered t (r ∷ rs) h now p =
    let s : (zero_time + day ≤ sooner t r)
        × ((r.earliest_record ≡ zero_time) ⊎ (sooner t r ≤ r.earliest_record)) =
      (ground (arith, p.0), ground arith) in
    let (low, high) = earliest_result_bounds (sooner t r) rs s.0 now p.1 in
    (ground (arith, s.1, high), earliest_result-IsCovered (sooner t r) rs s.0 now p.1)

-- The time is the beginning of the day of the earliest record of one of the results.
abbrev pub IsDayOf : Time → List ProviderResult → Type 0
IsDayOf from [] = ⊥
IsDayOf from (r ∷ rs) = (from ≡ truncate_day r.earliest_record) ⊎ IsDayOf from rs

sooner_cases : (t : Time) (r : ProviderResult) → (sooner t r ≡ t) ⊎ (sooner t r ≡ r.earliest_record)
sooner_cases t r = ground arith

IsDayOf-step :
    (e s t : Time) (r : ProviderResult) (rs : List ProviderResult)
    → (s ≡ t) ⊎ (s ≡ r.earliest_record)
    → (e ≡ truncate_day s) ⊎ IsDayOf e rs
    → (e ≡ truncate_day t) ⊎ IsDayOf e (r ∷ rs)
IsDayOf-step e s t r rs h (inr p) = inr (inr p)
IsDayOf-step e s t r rs (inl q) (inl p) = inl (p ∙ ap truncate_day q)
IsDayOf-step e s t r rs (inr q) (inl p) = inr (inl (p ∙ ap truncate_day q))

earliest_result-IsDayOf :
    (t : Time) (rs : List ProviderResult)
    → let e = truncate_day (earliest_result t rs) in (e ≡ truncate_day t) ⊎ IsDayOf e rs
unfolding earliest_result
earliest_result-IsDayOf t [] = inl refl
earliest_result-IsDayOf t (r ∷ rs) =
    IsDayOf-step _ (sooner t r) t r rs (sooner_cases t r) (earliest_result-IsDayOf (sooner t r) rs)

-- When the earliest record of each result is not set or is past, the refresh after a run begins at the beginning of a
-- day, no later than now and the earliest record of any result where that is set; the day is today or
-- that of one of these records.
pub refresh_since-IsCovered :
    (rs : List ProviderResult) (since now : Time)
    → zero_time + day ≤ now
    → All (IsPast now) rs
    → let from = refresh_since rs since now in
      All (IsCovered from) rs
      × (from % day ≡ 0)
      × (from ≤ now)
      × ((from ≡ truncate_day now) ⊎ IsDayOf from rs)
unfolding refresh_since truncate_day
refresh_since-IsCovered rs since now h p =
    let (low, high) = earliest_result_bounds now rs h now p in
    let e : refresh_since rs since now ≡ truncate_day (earliest_result now rs) = ground arith in
    (
      rw e (All-map (λ r c. ground arith) rs (earliest_result-IsCovered now rs h now p)),
      rw e (omega arith),
      rw e (omega (arith, high)),
      rw e (earliest_result-IsDayOf now rs),
    )
