-- ===== src/Collect/Lookback.antt =====
-- Which records a run looks at: the policy, effectiveSince and filterRecordsWithinLookback.
use torvix.Prelude.{if◌then◌else◌, ℕ, suc, ◌-◌, not, ◌&&◌, ◌||◌, List, [], ◌∷◌}
use torvix.Prelude.Int.{ℤ, pos, neg, positive_or}
use torvix.Prelude.Clock.{Time, hour, is_zero, before, after, add_days}
use torvix.Prelude.Result.{Result, ok, err}
use torvix.Domain.{CanonicalCostRecord}

pub record Policy : Type 0 where
  pub lookback_days : ℤ
  pub retention_days : ℤ
  pub compression_after_days : ℤ

-- NewWithPolicy, as far as the policy goes
unfoldable pub with_defaults : Policy → Policy
with_defaults p = record {
  lookback_days = positive_or p.lookback_days (pos 30);
  retention_days = positive_or p.retention_days (pos 90);
  compression_after_days = positive_or p.compression_after_days (pos 7);
}

-- The oldest time that a run at `now` looks at.
unfoldable pub lookback_since : Policy → Time → Time
unfolding add_days neg
lookback_since p now = add_days now (neg p.lookback_days)

-- The part of effectiveSince behind the checkpoint, whose reading may have failed.
abbrev since_checkpoint : Time → Result Time → Time
since_checkpoint effective (err e) = effective
since_checkpoint effective (ok checkpoint) =
    if after checkpoint effective
    then (if after (checkpoint - hour) effective then checkpoint - hour else effective)
    else effective

-- effectiveSince, with the time and the checkpoint that it reads
unfoldable pub effective_since : Policy → Time → Result Time → Time → Time
unfolding lookback_since
effective_since p now checkpoint requested =
    let oldest = lookback_since p now in
    since_checkpoint (if is_zero requested || before requested oldest then oldest else requested)
      checkpoint

-- filterRecordsWithinLookback: what is kept, and how many are not
unfoldable pub filter_records_within_lookback :
    {F : Type 0} → List (CanonicalCostRecord F) → Time → List (CanonicalCostRecord F) × ℕ
filter_records_within_lookback [] cutoff = ([], 0)
filter_records_within_lookback (r ∷ rs) cutoff =
    let (retained, skipped_old) = filter_records_within_lookback rs cutoff in
    if not (is_zero r.timestamp) && before r.timestamp cutoff
    then (retained, suc skipped_old)
    else (r ∷ retained, skipped_old)
