-- ===== src/Reporting/Ranges.antt =====
-- The time ranges of reports: DefaultRangeWithOptions, localDayStart and previousReportRange of
-- reporting/service.go, and comparisonWindows of analytics/service.go. `t.UTC()` is `t`: instants
-- are compared, and the location is an argument where days are counted in it.
use torvix.Prelude.{◌=ℕ◌, if◌then◌else◌, ℕ, suc, ◌+◌, ◌-◌, ◌*◌, ◌/◌, ◌%◌, String, ◌==◌}
use torvix.Prelude.Clock.{Time, day, Location, utc, weekday}
use torvix.Prelude.Int.{ℤ, pos, negsuc, positive_or, neg, ◌-ℤ◌}
use torvix.Prelude.Clock.Calendar.{month_start, month_back}

-- A civil day moved by n days.
abbrev pub shift : ℕ → ℤ → ℕ
shift d (pos n) = d + n
shift d (negsuc n) = d - suc n

-- localDayStart
unfoldable pub local_day_start : Location → Time → Time
local_day_start loc t = loc.date (loc.civil_day t) 0

-- t.AddDate(0, 0, n), with t read in the location
unfoldable pub add_civil_days : Location → Time → ℤ → Time
add_civil_days loc t n = loc.date (shift (loc.civil_day t) n) (loc.civil_clock t)

-- t.AddDate(0, -1, 0), with t read in the location
unfoldable pub add_month_back : Location → Time → Time
add_month_back loc t = loc.date (month_back (loc.civil_day t)) (loc.civil_clock t)

abbrev pub days_since_monday : ℕ → ℕ
days_since_monday d = (weekday d + 6) % 7

-- DefaultRangeWithOptions, with the location that its options give; a lag of no days means one.
unfoldable pub default_range : Location → ℤ → String → Time → Time × Time
unfolding local_day_start add_civil_days add_month_back
default_range loc lag period now =
    let lag_days = positive_or lag (pos 1) in
    let today = local_day_start loc now in
    if period == "daily"
    then (
      add_civil_days loc today (neg lag_days),
      add_civil_days loc today (neg (lag_days -ℤ pos 1)),
    )
    else if period == "weekly"
    then (let this_week =
          add_civil_days loc today (neg (pos (days_since_monday (loc.civil_day today)))) in
        (add_civil_days loc this_week (negsuc 6), this_week))
    else if period == "monthly"
    then (let this_month = loc.date (month_start (loc.civil_day today)) 0 in
        (add_month_back loc this_month, this_month))
    else (add_civil_days loc today (negsuc 29), today)

-- previousReportRange; its arguments are times in UTC
unfoldable pub previous_report_range : String → Time → Time → Time × Time
unfolding add_civil_days add_month_back
previous_report_range period from to =
    if period == "daily"
    then (add_civil_days utc from (negsuc 0), from)
    else if period == "weekly"
    then (add_civil_days utc from (negsuc 6), from)
    else if period == "monthly"
    then (add_month_back utc from, from)
    else (from + from - to, from)

pub record Windows : Type 0 where
  pub current_from : Time
  pub current_to : Time
  pub previous_from : Time
  pub previous_to : Time

-- comparisonWindows; the source counts the weekday of Sunday as 7
unfoldable pub comparison_windows : String → Time → Windows
unfolding add_civil_days add_month_back
comparison_windows period now =
    let today = now / day * day in
    if period == "weekly"
    then (let w = if weekday (today / day) =ℕ 0 then 7 else weekday (today / day) in
        let to = add_civil_days utc today (neg (pos (w - 1))) in
        let from = add_civil_days utc to (negsuc 6) in
        record {
          current_from = from;
          current_to = to;
          previous_from = add_civil_days utc from (negsuc 6);
          previous_to = from;
        })
    else if period == "monthly"
    then (let to = month_start (today / day) * day in
        let from = add_month_back utc to in
        record {
          current_from = from;
          current_to = to;
          previous_from = add_month_back utc from;
          previous_to = from;
        })
    else (let from = add_civil_days utc today (negsuc 0) in
        record {
          current_from = from;
          current_to = today;
          previous_from = add_civil_days utc from (negsuc 0);
          previous_to = from;
        })
