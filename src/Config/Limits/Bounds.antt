-- ===== src/Config/Limits/Bounds.antt =====
-- The bounds of the limits of an ingestion.
use torvix.Prelude.{
  if◌then◌else◌, Bool-cases, String, ◌≡◌, refl, inl, inr, Bool, true, false, Option, none, some,
  arith, ◌==◌,
}
use torvix.Prelude.Int.{ℤ, pos, negsuc, leb_ℤ, ltb_ℤ, positive_or}
use torvix.Config.Types.{IngestionLimits, Provider}
use torvix.Config.Limits.{at_most, minutes, positive_duration, sampled, unsampled, ingestion_limits}

abbrev pub IsPositive : ℤ → Type 0
IsPositive v = ltb_ℤ (pos 0) v ≡ true

abbrev pub Below : ℤ → ℤ → Type 0
Below m v = leb_ℤ v m ≡ true

not_leb : (v : ℤ) → leb_ℤ v (pos 0) ≡ false → IsPositive v
not_leb (pos n) h = ground arith
not_leb (negsuc n) h = ground arith

not_ltb : (m v : ℤ) → ltb_ℤ m v ≡ false → Below m v
not_ltb m v h = ground arith

Below_refl : (m : ℤ) → Below m m
Below_refl m = ground arith

pub positive_or-IsPositive : (v d : ℤ) → IsPositive d → IsPositive (positive_or v d)
positive_or-IsPositive v d h = elim (Bool-cases (leb_ℤ v (pos 0))) [
  | inl e ↦ rw e h
  | inr e ↦ rw e (not_leb v e)
]

at_most-IsPositive : (m v : ℤ) → IsPositive m → IsPositive v → IsPositive (at_most m v)
at_most-IsPositive m v h k = elim (Bool-cases (ltb_ℤ m v)) [ inl e ↦ rw e h | inr e ↦ rw e k ]

at_most-Below : (m v : ℤ) → Below m (at_most m v)
at_most-Below m v = elim (Bool-cases (ltb_ℤ m v)) [
  | inl e ↦ rw e (Below_refl m)
  | inr e ↦ rw e (not_ltb m v e)
]

positive_duration-IsPositive : (d : Option ℤ) → IsPositive (positive_duration d)
positive_duration-IsPositive none = refl
positive_duration-IsPositive (some d) = positive_or-IsPositive d (minutes 10) refl

-- Every limit is positive, and the records that are held in memory fit a batch.
pub record IsBounded (l : IngestionLimits) : Type 0 where
  pub files : IsPositive l.max_files_per_run
  pub zero_yield : IsPositive l.max_zero_yield_files
  pub batch : IsPositive l.max_records_per_batch
  pub buffer : IsPositive l.max_memory_buffer_records
  pub runtime : IsPositive l.max_runtime
  pub buffer_fits : Below l.max_records_per_batch l.max_memory_buffer_records

-- The caps of the sample mode.
pub record IsSample (l : IngestionLimits) : Type 0 where
  pub files : Below (pos 3) l.max_files_per_run
  pub zero_yield : Below (pos 3) l.max_zero_yield_files
  pub batch : Below (pos 100) l.max_records_per_batch
  pub runtime : Below (minutes 2) l.max_runtime

sampled-IsBounded : (l : IngestionLimits) → IsBounded l → IsBounded (sampled l)
sampled-IsBounded l v =
    let batch = at_most-IsPositive (pos 100) l.max_records_per_batch refl v.batch in
    record {
      files = at_most-IsPositive (pos 3) _ refl v.files;
      zero_yield = at_most-IsPositive (pos 3) _ refl v.zero_yield;
      batch = batch;
      buffer = at_most-IsPositive _ _ batch v.buffer;
      runtime = at_most-IsPositive (minutes 2) _ refl v.runtime;
      buffer_fits =
          at_most-Below (at_most (pos 100) l.max_records_per_batch) l.max_memory_buffer_records;
    }

sampled-IsSample : (l : IngestionLimits) → IsSample (sampled l)
sampled-IsSample l = record {
  files = at_most-Below (pos 3) l.max_files_per_run;
  zero_yield = at_most-Below (pos 3) l.max_zero_yield_files;
  batch = at_most-Below (pos 100) l.max_records_per_batch;
  runtime = at_most-Below (minutes 2) l.max_runtime;
}

by_mode :
    (l : IngestionLimits)
    → IsBounded l
    → (sample : Bool)
    → let m = if sample then sampled l else l in
      IsBounded m × (if sample then IsSample m else Unit {0})
by_mode l v true = (sampled-IsBounded l v, sampled-IsSample l)
by_mode l v false = (v, tt)

module _ (parse_duration : String → Option ℤ) (p : Provider) where
  runtime-IsPositive : IsPositive (unsampled parse_duration p).max_runtime
  runtime-IsPositive = elim (Bool-cases (p.max_runtime == "")) [
    | inl e ↦ rw e refl
    | inr e ↦ rw e (positive_duration-IsPositive (parse_duration p.max_runtime))
  ]

  unsampled-IsBounded : IsBounded (unsampled parse_duration p)
  unsampled-IsBounded =
      let batch = positive_or-IsPositive p.max_records_per_batch (pos 1000) refl in
      record {
        files = positive_or-IsPositive p.max_files_per_run (pos 25) refl;
        zero_yield = positive_or-IsPositive p.max_zero_yield_files (pos 25) refl;
        batch = batch;
        buffer =
            at_most-IsPositive _ _ batch
              (positive_or-IsPositive p.max_memory_buffer_records _ batch);
        runtime = runtime-IsPositive;
        buffer_fits = at_most-Below (positive_or p.max_records_per_batch (pos 1000)) (
            positive_or p.max_memory_buffer_records
              (positive_or p.max_records_per_batch (pos 1000)));
      }

  -- Whatever a provider is configured with, its limits are all positive, and no more records are held
  -- in memory than fit a batch; in sample mode at most three files, three files without records, a
  -- hundred records in a batch and two minutes are allowed.
  pub ingestion_limits-IsBounded :
      let l = ingestion_limits parse_duration p in
      IsBounded l × (if p.sample_mode then IsSample l else Unit {0})
  unfolding ingestion_limits
  ingestion_limits-IsBounded =
      by_mode (unsampled parse_duration p) unsampled-IsBounded p.sample_mode
