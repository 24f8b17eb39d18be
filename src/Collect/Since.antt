-- ===== src/Collect/Since.antt =====
-- From when on a collector reads, and which records are kept.
use torvix.Prelude.{
  max, Bool-cases, length, ℕ, suc, ◌+◌, ◌-◌, ◌*◌, ◌≤◌, ◌<◌, ◌≡◌, refl, ◌≢◌, ◌⊎◌, inl, inr, not,
  ◌&&◌, List, [], ◌∷◌, arith,
}
use torvix.Prelude.Int.{pos, neg}
use torvix.Prelude.Clock.{Time, hour, day, is_zero, before, zero_time, add_days}
use torvix.Prelude.Result.{ok}
use torvix.Domain.{CanonicalCostRecord}
use torvix.Collect.Lookback.{
  Policy, lookback_since, effective_since, filter_records_within_lookback,
}

lookback_since-days :
    (p : Policy) (n : ℕ) (now : Time)
    → p.lookback_days ≡ pos n
    → lookback_since p now ≡ now - n * day
unfolding lookback_since add_days neg
lookback_since-days p n now h = rw h (ground arith)

-- With a lookback of n days that begins after year 0, and a checkpoint that can be read, a collector
-- reads from the latest of three times: the requested one, the start of the lookback,
-- and an hour before the checkpoint; so that it never leaves a gap behind the checkpoint and never
-- reaches behind the lookback.
pub effective_since-latest :
    (p : Policy) (n : ℕ) (now requested checkpoint : Time)
    → p.lookback_days ≡ pos n
    → zero_time ≤ now - n * day
    → effective_since p now (ok checkpoint) requested
      ≡ max (max requested (now - n * day)) (checkpoint - hour)
unfolding effective_since
effective_since-latest p n now requested checkpoint h z =
    rw (lookback_since-days p n now h) (ground arith)

-- Within the lookback: no timestamp, or one that is not before the cutoff.
abbrev pub IsWithin : {F : Type 0} → Time → CanonicalCostRecord F → Type 0
IsWithin cutoff r = (r.timestamp ≡ zero_time) ⊎ (cutoff ≤ r.timestamp)

-- Some records of a list, in its order, with how many of it are left out, all of them too old.
pub data Kept {F : Type 0} (cutoff : Time)
    : List (CanonicalCostRecord F) → List (CanonicalCostRecord F) → ℕ → Type 0 where
  nothing : Kept cutoff [] [] 0
  within :
      {r : CanonicalCostRecord F} {rs kept : List (CanonicalCostRecord F)} {n : ℕ}
      → IsWithin cutoff r
      → Kept cutoff rs kept n
      → Kept cutoff (r ∷ rs) (r ∷ kept) n
  too_old :
      {r : CanonicalCostRecord F} {rs kept : List (CanonicalCostRecord F)} {n : ℕ}
      → r.timestamp ≢ zero_time
      → r.timestamp < cutoff
      → Kept cutoff rs kept n
      → Kept cutoff (r ∷ rs) kept (suc n)

-- The lookback filter keeps, in order, exactly the records without a timestamp or with one that is
-- not before the cutoff, and counts the others.
pub filter_records_within_lookback-Kept :
    {F : Type 0} (rs : List (CanonicalCostRecord F)) (cutoff : Time)
    → Kept cutoff rs
        (filter_records_within_lookback rs cutoff).0
        (filter_records_within_lookback rs cutoff).1
unfolding filter_records_within_lookback
filter_records_within_lookback-Kept [] cutoff = nothing
filter_records_within_lookback-Kept (r ∷ rs) cutoff =
    elim (Bool-cases (not (is_zero r.timestamp) && before r.timestamp cutoff)) [
      | inl old ↦ rw old (
          too_old (λ q. ground arith) (ground arith)
            (filter_records_within_lookback-Kept rs cutoff))
      | inr new ↦ rw new (within (ground arith) (filter_records_within_lookback-Kept rs cutoff))
    ]

-- Each record is kept or counted.
pub filter_records_within_lookback-length :
    {F : Type 0} (rs : List (CanonicalCostRecord F)) (cutoff : Time)
    → length (filter_records_within_lookback rs cutoff).0
        + (filter_records_within_lookback rs cutoff).1
      ≡ length rs
unfolding filter_records_within_lookback
filter_records_within_lookback-length [] cutoff = refl
filter_records_within_lookback-length (r ∷ rs) cutoff =
    ground (arith, filter_records_within_lookback-length rs cutoff)
