-- ===== src/Collect/Counts.antt =====
-- What a collector's run counts: storeNormalizedBatch and collectProvider keep the books.
use torvix.Prelude.{
  ◌⊎◌, if◌then◌else◌, Bool-cases, Option-cases, length, All, ℕ, suc, ◌+◌, ◌≤◌, ◌<◌, String, ◌≡◌,
  refl, ap, ◌∙◌, ◌≢◌, inl, inr, Bool, true, false, ◌||◌, Option, none, some, List, [], ◌∷◌, arith,
}
use torvix.Prelude.Clock.{Time, is_zero, before, zero_time}
use torvix.Domain.{RawBillingRecord, CanonicalCostRecord}
use torvix.Collect.Normalize.{normalize}
use torvix.Collect.Lookback.{Policy}
use torvix.Collect.Since.{filter_records_within_lookback-length}
use torvix.Collect.Batches.{
  FileBatch, CollectResult, Stream, done, emit, Collector, Repository, Progress, earliest_of,
  retained_of, write_batch, written, counted, store_normalized_batch, handle_batch, run_stream,
  store_batches, collect_provider,
}

module _ {F : Type 0} where
  -- The record has a timestamp.
  abbrev pub IsDated : CanonicalCostRecord F → Type 0
  IsDated r = zero_time < r.timestamp

  abbrev sooner : Time → CanonicalCostRecord F → Time
  sooner t r = if is_zero t || before r.timestamp t then r.timestamp else t

  sooner_lem :
      (t : Time) (r : CanonicalCostRecord F)
      → IsDated r
      → (sooner t r ≢ zero_time) × (sooner t r ≤ r.timestamp) × (t ≢ zero_time → sooner t r ≤ t)
  sooner_lem t r d = ((λ h. ground arith), ground arith, λ h. ground arith)

  earliest_of_le :
      (t : Time) (rs : List (CanonicalCostRecord F))
      → All IsDated rs
      → t ≢ zero_time
      → earliest_of t rs ≤ t
  unfolding earliest_of
  earliest_of_le t [] d h = omega arith
  earliest_of_le t (r ∷ rs) d h =
      let (dated, below, under) = sooner_lem t r d.0 in
      omega (arith, under h, earliest_of_le (sooner t r) rs d.1 dated)

  sooner-dated :
      (t : Time) (rs : List (CanonicalCostRecord F))
      → All IsDated rs
      → t ≢ zero_time
      → earliest_of t rs ≢ zero_time
  unfolding earliest_of
  sooner-dated t [] d h = h
  sooner-dated t (r ∷ rs) d h = sooner-dated (sooner t r) rs d.1 (sooner_lem t r d.0).0

  -- The time is that of one of the records.
  abbrev pub IsOf : Time → List (CanonicalCostRecord F) → Type 0
  IsOf t [] = ⊥
  IsOf t (r ∷ rs) = (t ≡ r.timestamp) ⊎ IsOf t rs

  sooner_cases :
      (t : Time) (r : CanonicalCostRecord F) → (sooner t r ≡ t) ⊎ (sooner t r ≡ r.timestamp)
  sooner_cases t r = ground arith

  IsOf-step :
      (e s t : Time) (r : CanonicalCostRecord F) (rs : List (CanonicalCostRecord F))
      → (s ≡ t) ⊎ (s ≡ r.timestamp)
      → (e ≡ s) ⊎ IsOf e rs
      → (e ≡ t) ⊎ IsOf e (r ∷ rs)
  IsOf-step e s t r rs h (inr p) = inr (inr p)
  IsOf-step e s t r rs (inl q) (inl p) = inl (p ∙ q)
  IsOf-step e s t r rs (inr q) (inl p) = inr (inl (p ∙ q))

  earliest_of-IsOf :
      (t : Time) (rs : List (CanonicalCostRecord F))
      → (earliest_of t rs ≡ t) ⊎ IsOf (earliest_of t rs) rs
  unfolding earliest_of
  earliest_of-IsOf t [] = inl refl
  earliest_of-IsOf t (r ∷ rs) =
      IsOf-step _ (sooner t r) t r rs (sooner_cases t r) (earliest_of-IsOf (sooner t r) rs)

  -- No dated record is before the earliest one.
  pub earliest_of_bound :
      (t : Time) (rs : List (CanonicalCostRecord F))
      → All IsDated rs
      → All (λ r. earliest_of t rs ≤ r.timestamp) rs
  unfolding earliest_of
  earliest_of_bound t [] d = tt
  earliest_of_bound t (r ∷ rs) d =
      let (dated, below, under) = sooner_lem t r d.0 in
      (
        omega (arith, below, earliest_of_le (sooner t r) rs d.1 dated),
        earliest_of_bound (sooner t r) rs d.1,
      )

  -- `e` is the earliest of the times of the records and of the earlier time, if it is one.
  pub record IsEarliest (t : Time) (rs : List (CanonicalCostRecord F)) (e : Time) : Type 0 where
    pub bound : All (λ r. e ≤ r.timestamp) rs
    pub no_later : t ≢ zero_time → e ≤ t
    pub chosen : (e ≡ t) ⊎ IsOf e rs
    pub never_unset : (t ≢ zero_time) ⊎ (rs ≢ []) → e ≢ zero_time

  earliest_of-dated :
      (t : Time) (rs : List (CanonicalCostRecord F))
      → All IsDated rs
      → (t ≢ zero_time) ⊎ (rs ≢ [])
      → earliest_of t rs ≢ zero_time
  unfolding earliest_of
  earliest_of-dated t rs d (inl h) = sooner-dated t rs d h
  earliest_of-dated t [] d (inr h) = absurd (h refl)
  earliest_of-dated t (r ∷ rs) d (inr h) = sooner-dated (sooner t r) rs d.1 (sooner_lem t r d.0).0

  earliest_of-IsEarliest :
      (t : Time) (rs : List (CanonicalCostRecord F))
      → All IsDated rs
      → IsEarliest t rs (earliest_of t rs)
  earliest_of-IsEarliest t rs d = record {
    bound = earliest_of_bound t rs d;
    no_later = earliest_of_le t rs d;
    chosen = earliest_of-IsOf t rs;
    never_unset = earliest_of-dated t rs d;
  }

  normalize-length : (rs : List (RawBillingRecord F)) → length (normalize rs) ≡ length rs
  unfolding normalize
  normalize-length [] = refl
  normalize-length (r ∷ rs) = ap suc (normalize-length rs)

module _ {F W : Type 0} (repo : Repository F W) (policy : Policy) where
  open repo use {clock}

  retained_of-length :
      (b : FileBatch F) (w : W)
      → length (retained_of repo policy b w).0 + (retained_of repo policy b w).1 ≡ length b.records
  unfolding retained_of
  retained_of-length b w =
      filter_records_within_lookback-length (normalize b.records) _ ∙ normalize-length b.records

  -- What storing a batch leaves behind, by its error.
  abbrev pub Stored :
      List (CanonicalCostRecord F) → Progress W → Option String × Progress W → Type 0
  Stored retained p (none, q) =
      (q.inserted ≡ p.inserted + length retained)
      × IsEarliest p.result.earliest_record retained q.result.earliest_record
  Stored retained p (some e, q) =
      (q.inserted ≡ p.inserted) × (q.result.earliest_record ≡ p.result.earliest_record)

  written-Stored :
      (retained : List (CanonicalCostRecord F)) (n : ℕ) (p : Progress W) (out : Option String × W)
      → All IsDated retained
      → Stored retained p
          (written repo policy retained (counted repo policy (length retained) n p) out)
  written-Stored retained n p (some e, w) d = (refl, refl)
  written-Stored retained n p (none, w) d =
      (refl, earliest_of-IsEarliest p.result.earliest_record retained d)

  written-counts :
      (retained : List (CanonicalCostRecord F)) (n : ℕ) (p : Progress W) (out : Option String × W)
      → ((written repo policy retained
            (counted repo policy (length retained) n p)
            out).1.result.records_within_lookback
          ≡ p.result.records_within_lookback + length retained)
        × ((written repo policy retained
              (counted repo policy (length retained) n p)
              out).1.result.records_skipped_old
            ≡ p.result.records_skipped_old + n)
  written-counts retained n p (some e, w) = (refl, refl)
  written-counts retained n p (none, w) = (refl, refl)

  -- When the records that are kept are dated, storing a batch counts each of its records once, as within the lookback or as too old. If the
  -- database takes the batch, the records within are added to those inserted, and the earliest record
  -- becomes the earliest of their times and of the one before, if it is set; if there is an error,
  -- neither changes.
  pub store_normalized_batch-Stored :
      (b : FileBatch F) (streaming : Bool) (p : Progress W)
      → All IsDated (retained_of repo policy b p.world).0
      → let q = (store_normalized_batch repo policy b streaming p).1.result in
        (q.records_within_lookback + q.records_skipped_old
          ≡ p.result.records_within_lookback + p.result.records_skipped_old + length b.records)
        × Stored
            (retained_of repo policy b p.world).0
            p
            (store_normalized_batch repo policy b streaming p)
  unfolding store_normalized_batch
  store_normalized_batch-Stored b streaming p d =
      let (retained, n) = retained_of repo policy b p.world in
      let out = write_batch repo policy b streaming retained p.world in
      let (within, skipped) = written-counts retained n p out in
      (
        omega (arith, within, skipped, retained_of-length b p.world),
        written-Stored retained n p out d,
      )

  -- A progress of the collector `name`: nothing is inserted that was not counted as within.
  abbrev pub Sound : String → Progress W → Type 0
  Sound name p = (p.result.provider ≡ name) × (p.inserted ≤ p.result.records_within_lookback)

  written-Sound :
      (name : String) (retained : List (CanonicalCostRecord F)) (n : ℕ) (p : Progress W)
      (out : Option String × W)
      → Sound name p
      → Sound name (written repo policy retained (counted repo policy (length retained) n p) out).1
  written-Sound name retained n p (some e, w) s = (s.0, omega (arith, s.1))
  written-Sound name retained n p (none, w) s = (s.0, omega (arith, s.1))

  store_normalized_batch-Sound :
      (name : String) (b : FileBatch F) (streaming : Bool) (p : Progress W)
      → Sound name p
      → Sound name (store_normalized_batch repo policy b streaming p).1
  unfolding store_normalized_batch
  store_normalized_batch-Sound name b streaming p s =
      written-Sound name (retained_of repo policy b p.world).0 _ p _ s

  handle_batch-Sound :
      (name : String) (b : FileBatch F) (p : Progress W)
      → Sound name p
      → Sound name (handle_batch repo policy b p).1
  unfolding handle_batch
  handle_batch-Sound name b p s = elim (Bool-cases b.final) [
    | inl e ↦ rw e s
    | inr e ↦ rw e (store_normalized_batch-Sound name b true p s)
  ]

  run_stream-Sound :
      (name : String) (st : Stream F) (p : Progress W)
      → Sound name p
      → Sound name (run_stream repo policy st p).1
  unfolding run_stream
  run_stream-Sound name (done result err) p s = s
  run_stream-Sound name (emit b go_on) p s =
      run_stream-Sound name (go_on (handle_batch repo policy b p).0) _
        (handle_batch-Sound name b p s)

  store_batches-Sound :
      (name : String) (bs : List (FileBatch F)) (out : CollectResult F × Option String)
      (p : Progress W)
      → Sound name p
      → Sound name (store_batches repo policy bs out p).1
  unfolding store_batches
  store_batches-Sound name [] out p s = s
  store_batches-Sound name (b ∷ bs) out p s =
      store_batches-Sound name bs _ _ (store_normalized_batch-Sound name b false p s)

  -- Whatever a collector hands over, streaming or not, and whatever fails, collectProvider keeps the
  -- collector's name and never counts more records as inserted than as within the lookback.
  pub collect_provider-Sound :
      (name : String) (c : Collector F W) (since : Time) (p : Progress W)
      → Sound name p
      → Sound name (collect_provider repo policy c since p).1
  unfolding collect_provider
  collect_provider-Sound name c since p s = elim (Option-cases c.collect_stream) [
    | inl e ↦
        rw e (
          store_batches-Sound name (c.collect since p.world).0.batches (c.collect since p.world) p
            s)
    | inr (st, e) ↦ rw e (run_stream-Sound name (st since p.world) p s)
  ]
