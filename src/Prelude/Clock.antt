-- ===== src/Prelude/Clock.antt =====
-- Go's time.Time as an instant: the nanoseconds since Go's absolute zero, 1 January of the year
-- -292277022399, which no representable time precedes. The zero Time is 1 January of year 1. A
-- location is not part of an instant, so `t.UTC()` is `t`; what a location changes is under Location.
pub mod Calendar
use Prim.Native.Nat.{ℕ, suc, ◌+◌, ◌-◌, ◌*◌, ◌/◌, ◌%◌}
use mathlib.Core.Bool.{Bool}
use torvix.Prelude.Tests.{ltb, ◌=ℕ◌}
use torvix.Prelude.Int.{ℤ, pos, negsuc}

abbrev pub Time : Type 0
Time = ℕ

abbrev pub second : ℕ
second = 1_000_000_000

abbrev pub hour : ℕ
hour = 3_600_000_000_000

abbrev pub day : ℕ
day = 86_400_000_000_000

-- 730692556 spans of 400 years, of 146097 days each
abbrev pub zero_time : Time
zero_time = 730_692_556 * 146_097 * day

abbrev pub is_zero : Time → Bool
is_zero t = t =ℕ zero_time

-- t.Before(u) and t.After(u)
abbrev pub before : Time → Time → Bool
before t u = ltb t u

abbrev pub after : Time → Time → Bool
after t u = ltb u t

-- t.AddDate(0, 0, n) of a time in UTC, where a day has 24 hours
unfoldable pub add_days : Time → ℤ → Time
add_days t (pos n) = t + n * day
add_days t (negsuc n) = t - suc n * day

-- t.Truncate(24 * time.Hour), which counts from the zero Time
unfoldable pub truncate_day : Time → Time
truncate_day t = t / day * day

-- A time zone, of the time package: the civil day and the time of day that its clocks show at an
-- instant, days counted from absolute zero, and the instant that time.Date gives for such a pair.
pub record Location : Type 0 where
  pub civil_day : Time → ℕ
  pub civil_clock : Time → ℕ
  pub date : ℕ → ℕ → Time

-- time.UTC
abbrev pub utc : Location
utc = record { civil_day = λ t. t / day; civil_clock = λ t. t % day; date = λ d c. d * day + c }

-- time.Weekday of a civil day, Sunday being 0: 1 January of absolute zero was a Monday
abbrev pub weekday : ℕ → ℕ
weekday d = (d + 1) % 7

-- 1 January 1970, from which UnixNano counts: 719162 days after the zero Time
abbrev pub unix_epoch : Time
unix_epoch = zero_time + 719_162 * day
