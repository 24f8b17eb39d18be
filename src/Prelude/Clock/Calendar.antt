-- ===== src/Prelude/Clock/Calendar.antt =====
-- The proleptic Gregorian calendar of the time package. A day is counted from absolute zero, the
-- first day of a span of 400 years; years are counted from there too, so that the year y of the
-- package is 292277022399 + y here, and months and days of a month count from 1.
pub mod Civil
pub mod Months
use torvix.Prelude.{
  ℕ, ◌+◌, ◌-◌, ◌*◌, ◌/◌, ◌%◌, ◌≡◌, refl, Bool, ◌&&◌, ◌||◌, not, ltb, leb, ◌=ℕ◌, if◌then◌else◌, min,
}

-- The years of a span are numbered from 0, so the leap years are 3, 7, ..., without 99, 199 and 299.
abbrev pub is_leap : ℕ → Bool
is_leap y = y % 4 =ℕ 3 && (not (y % 100 =ℕ 99) || y % 400 =ℕ 399)

-- 1 in a leap year, else 0
abbrev pub leap_day : ℕ → ℕ
leap_day y = if is_leap y then 1 else 0

-- The days before 1 January of a year.
abbrev pub days_before_year : ℕ → ℕ
days_before_year y = 365 * y + y / 4 - y / 100 + y / 400

-- The days of a year before the first of a month, in a year with `l` leap days.
abbrev pub days_before_month : ℕ → ℕ → ℕ
days_before_month l m =
    if leb m 1
    then 0
    else if m =ℕ 2
    then 31
    else if m =ℕ 3
    then 59 + l
    else if m =ℕ 4
    then 90 + l
    else if m =ℕ 5
    then 120 + l
    else if m =ℕ 6
    then 151 + l
    else if m =ℕ 7
    then 181 + l
    else if m =ℕ 8
    then 212 + l
    else if m =ℕ 9
    then 243 + l
    else if m =ℕ 10
    then 273 + l
    else if m =ℕ 11
    then 304 + l
    else 334 + l

-- The month of a day of the year, counted from 0.
abbrev pub month_of_year_day : ℕ → ℕ → ℕ
month_of_year_day l d =
    if ltb d 31
    then 1
    else if ltb d (59 + l)
    then 2
    else if ltb d (90 + l)
    then 3
    else if ltb d (120 + l)
    then 4
    else if ltb d (151 + l)
    then 5
    else if ltb d (181 + l)
    then 6
    else if ltb d (212 + l)
    then 7
    else if ltb d (243 + l)
    then 8
    else if ltb d (273 + l)
    then 9
    else if ltb d (304 + l)
    then 10
    else if ltb d (334 + l)
    then 11
    else 12

-- Quotients by the lengths of 400, 100, 4 and 1 years; the last century of a span and the last year
-- of four are a day longer, hence the minima.
unfoldable pub year_of : ℕ → ℕ
year_of n =
    let c = n % 146097 in
    let century = min (c / 36524) 3 in
    let f = c - century * 36524 in
    let four = f / 1461 in
    let r = f - four * 1461 in 400 * (n / 146097) + 100 * century + 4 * four + min (r / 365) 3

unfoldable pub year_day : ℕ → ℕ
unfolding year_of
year_day n = n - days_before_year (year_of n)

unfoldable pub month_of : ℕ → ℕ
unfolding year_day
month_of n = month_of_year_day (leap_day (year_of n)) (year_day n)

-- t.Day()
unfoldable pub day_of_month : ℕ → ℕ
unfolding month_of
day_of_month n = year_day n - days_before_month (leap_day (year_of n)) (month_of n) + 1

-- The day of a civil date; a day past the month's end runs on, as in time.Date.
unfoldable pub day_of_civil : ℕ → ℕ → ℕ → ℕ
day_of_civil y m d = days_before_year y + days_before_month (leap_day y) m + d - 1

-- time.Date(t.Year(), t.Month(), 1, ...)
unfoldable pub month_start : ℕ → ℕ
unfolding month_of day_of_civil
month_start n = day_of_civil (year_of n) (month_of n) 1

-- t.AddDate(0, -1, 0)
unfoldable pub month_back : ℕ → ℕ
unfolding day_of_month day_of_civil
month_back n =
    if month_of n =ℕ 1
    then day_of_civil (year_of n - 1) 12 (day_of_month n)
    else day_of_civil (year_of n) (month_of n - 1) (day_of_month n)

-- 4 July 2026 is day 739800 after 1 January of year 1
abbrev base : ℕ
base = 730_692_556 * 146_097

july : year_of (base + 739_800) ≡ 292_277_024_425
unfolding year_of
july = refl

july_4 : day_of_month (base + 739_800) ≡ 4
unfolding day_of_month
july_4 = refl
