-- ===== src/Schedule/Tests.antt =====
-- The schedule theorems at "30 8 * * 1,7": Mondays and Sundays at 8:30.
use torvix.Prelude.{ℕ, ◌+◌, ◌*◌, ◌/◌, ◌≤◌, ◌<◌, ◌≡◌, refl, none, [], ◌∷◌, arith}
use torvix.Prelude.Clock.{Time, utc, day, second, unix_epoch}
use torvix.Prelude.Text.{trim_space}
use torvix.Schedule.Cron.{Cron, parsed, parse_report_cron, matches_weekday, candidate, next}
use torvix.Schedule.Range.{IsInRange, parse_report_cron-IsInRange}
use torvix.Schedule.Next.{KeepsClock, IsDue, next-IsDue}

-- noon of a Monday, 1 January 2024
abbrev noon : Time
noon = unix_epoch + 19_723 * day + 43_200_000_000_000

abbrev mondays : Cron
mondays = record { minute = 30; hour = 8; weekdays = 1 ∷ 0 ∷ []; location = utc }

mondays_parsed : parse_report_cron " 30 8 * *  1,7" none ≡ parsed mondays
unfolding parse_report_cron trim_space
mondays_parsed = refl

parse_report_cron-IsInRange_example : IsInRange mondays
parse_report_cron-IsInRange_example =
    parse_report_cron-IsInRange " 30 8 * *  1,7" none mondays mondays_parsed

mondays-IsInRange : IsInRange mondays
mondays-IsInRange = record {
  minute = omega arith;
  hour = omega arith;
  weekdays = (omega arith, (omega arith, tt));
}

mondays-KeepsClock : KeepsClock mondays
mondays-KeepsClock = record {
  day_of_date = λ d. omega arith;
  clock_of_date = λ d. omega arith;
  later = λ t d h. omega arith;
}

-- The next run after Monday noon is on Sunday, 7 January.
test_next : next mondays noon ≡ unix_epoch + 19_729 * day + 30_600 * second
unfolding next matches_weekday
test_next = refl

next-IsDue_example :
    (j : ℕ) × (j ≤ 7)
    × (next mondays noon ≡ candidate mondays (noon / day + j))
    × IsDue mondays noon (noon / day + j)
    × ((i : ℕ) → i < j → ¬ IsDue mondays noon (noon / day + i))
next-IsDue_example = next-IsDue mondays mondays-KeepsClock noon mondays-IsInRange
