-- ===== src/Reporting/Windows.antt =====
-- What the report ranges are: whole civil days, weeks from Monday and months, all of them past.
use torvix.Prelude.{inr, inl, ◌⊎◌, String, ℕ, ◌+◌, ◌-◌, ◌≤◌, ◌<◌, ◌≡◌, refl, ap, ◌∙◌, arith}
use torvix.Prelude.Clock.{Time, Location, utc, weekday}
use torvix.Prelude.Int.{ℤ, pos, negsuc, positive_or, neg, ◌-ℤ◌}
use torvix.Prelude.Clock.Calendar.{month_start, month_back, year_of}
use torvix.Prelude.Clock.Calendar.Civil.{month_start_bounds}
use torvix.Prelude.Clock.Calendar.Months.{month_back_before}
use torvix.Reporting.Ranges.{
  previous_report_range, comparison_windows, Windows, shift, local_day_start, add_civil_days,
  add_month_back, days_since_monday, default_range,
}

-- A location whose clocks show midnight on each day, as the first moment of the day. The time
-- package gives this for a zone with no change of its clocks at midnight.
pub record IsRegular (loc : Location) : Type 0 where
  pub day_of_date : (d : ℕ) → loc.civil_day (loc.date d 0) ≡ d
  pub clock_of_date : (d : ℕ) → loc.civil_clock (loc.date d 0) ≡ 0
  pub date_mono : (d e : ℕ) → d ≤ e → loc.date d 0 ≤ loc.date e 0
  pub begins : (t : Time) → loc.date (loc.civil_day t) 0 ≤ t
  pub ends : (t : Time) → t < loc.date (loc.civil_day t + 1) 0

pub utc-IsRegular : IsRegular utc
utc-IsRegular = record {
  day_of_date = λ d. omega arith;
  clock_of_date = λ d. omega arith;
  date_mono = λ d e h. omega arith;
  begins = λ t. omega arith;
  ends = λ t. omega arith;
}

local_day_start_lem :
    (loc : Location) (t : Time) → local_day_start loc t ≡ loc.date (loc.civil_day t) 0
unfolding local_day_start
local_day_start_lem loc t = refl

module _ (loc : Location) (lag : ℤ) (now : Time) where
  daily_lem : default_range loc lag "daily" now ≡ (
    add_civil_days loc (local_day_start loc now) (neg (positive_or lag (pos 1))),
    add_civil_days loc (local_day_start loc now) (neg (positive_or lag (pos 1) -ℤ pos 1)),
  )
  unfolding default_range
  daily_lem = refl

  abbrev week_start : Time
  week_start =
      let today = local_day_start loc now in
      add_civil_days loc today (neg (pos (days_since_monday (loc.civil_day today))))

  weekly_lem :
      default_range loc lag "weekly" now ≡ (add_civil_days loc week_start (negsuc 6), week_start)
  unfolding default_range
  weekly_lem = refl

  monthly_lem : default_range loc lag "monthly" now ≡ (
    add_month_back loc (loc.date (month_start (loc.civil_day (local_day_start loc now))) 0),
    loc.date (month_start (loc.civil_day (local_day_start loc now))) 0,
  )
  unfolding default_range
  monthly_lem = refl

module _ (loc : Location) (reg : IsRegular loc) where
  pub add_civil_days-midnight :
      (d : ℕ) (n : ℤ) → add_civil_days loc (loc.date d 0) n ≡ loc.date (shift d n) 0
  unfolding add_civil_days
  add_civil_days-midnight d n =
      λ i. loc.date (shift (reg.day_of_date d i) n) (reg.clock_of_date d i)

  add_month_back-midnight : (d : ℕ) → add_month_back loc (loc.date d 0) ≡ loc.date (month_back d) 0
  unfolding add_month_back
  add_month_back-midnight d =
      λ i. loc.date (month_back (reg.day_of_date d i)) (reg.clock_of_date d i)

  shift_back : (d n : ℕ) → shift d (neg (pos n)) ≡ d - n
  unfolding neg
  shift_back d n = ground arith

  -- The first moment of the day before n days, and that of the day before n - 1 days.
  days_back :
      (now : Time) (n : ℕ)
      → add_civil_days loc (local_day_start loc now) (neg (pos n))
        ≡ loc.date (loc.civil_day now - n) 0
  days_back now n =
      rw (local_day_start_lem loc now, add_civil_days-midnight, shift_back (loc.civil_day now) n)
        refl

  neg_pred : (n : ℕ) → 1 ≤ n → neg (pos n -ℤ pos 1) ≡ neg (pos (n - 1))
  unfolding neg ◌-ℤ◌
  neg_pred n h = ground arith

  -- In a regular location, the daily report covers one civil day, as many days before today as the lag says (at least one),
  -- and that day is over.
  pub daily_range :
      (now : Time) (lag : ℤ) (n : ℕ)
      → positive_or lag (pos 1) ≡ pos n
      → 1 ≤ n
      → n ≤ loc.civil_day now
      → (default_range loc lag "daily" now
          ≡ (loc.date (loc.civil_day now - n) 0, loc.date (loc.civil_day now - n + 1) 0))
        × (loc.date (loc.civil_day now - n + 1) 0 ≤ now)
  daily_range now lag n e h k =
      let s : loc.civil_day now - (n - 1) ≡ loc.civil_day now - n + 1 = omega arith in
      (
        rw (daily_lem loc lag now, e, neg_pred n h, days_back now n, days_back now (n - 1), s) refl,
        omega
            (arith, reg.begins now, reg.date_mono (loc.civil_day now - n + 1) (loc.civil_day now)),
      )

  week_pair :
      (k m : ℕ)
      → k ≡ m + 7
      → ◌≡◌ {A = Time × Time} (loc.date (k - 7) 0, loc.date k 0) (loc.date m 0, loc.date (m + 7) 0)
  week_pair k m e = let e' : k - 7 ≡ m = omega arith in λ i. (loc.date (e' i) 0, loc.date (e i) 0)

  week_start_lem :
      (now : Time)
      → week_start loc (pos 1) now
        ≡ loc.date (loc.civil_day now - days_since_monday (loc.civil_day now)) 0
  week_start_lem now =
      rw (local_day_start_lem loc now, reg.day_of_date (loc.civil_day now))
        (add_civil_days-midnight _ _
          ∙ ap (λ (d : ℕ). loc.date d 0)
              (shift_back (loc.civil_day now) (days_since_monday (loc.civil_day now))))

  -- In a regular location, from day 13 on, the weekly report covers the last week, from Monday to Monday, that is over.
  pub weekly_range :
      (now : Time) (lag : ℤ)
      → 13 ≤ loc.civil_day now
      → (m : ℕ) × (default_range loc lag "weekly" now ≡ (loc.date m 0, loc.date (m + 7) 0))
        × (weekday m ≡ 1)
        × (m + 7 ≤ loc.civil_day now)
        × (loc.civil_day now < m + 14)
  weekly_range now lag h =
      let d = loc.civil_day now in
      let m : ℕ = d - days_since_monday d - 7 in
      let s : d - days_since_monday d ≡ m + 7 = omega arith in
      (
        m,
        weekly_lem loc lag now ∙ rw (week_start_lem now, add_civil_days-midnight) (week_pair _ m s),
        omega arith,
        omega arith,
        omega arith,
      )

  -- In a regular location, after the first year, the monthly report covers the month before the current one, from its first day up to the first
  -- day of the current month, which is no later than today.
  pub monthly_range :
      (now : Time) (lag : ℤ)
      → 1 ≤ year_of (loc.civil_day now)
      → (first : ℕ) × (default_range loc lag "monthly" now
          ≡ (loc.date first 0, loc.date (month_start (loc.civil_day now)) 0))
        × (first < month_start (loc.civil_day now))
        × (month_start (loc.civil_day now) ≤ loc.civil_day now)
        × ((d : ℕ) → first ≤ d → d < month_start (loc.civil_day now) → month_start d ≡ first)
  monthly_range now lag h =
      let d = loc.civil_day now in
      let (earlier, same) = month_back_before d h in
      (
        month_back (month_start d),
        monthly_lem loc lag now
            ∙ rw (local_day_start_lem loc now, reg.day_of_date d, add_month_back-midnight) refl,
        earlier,
        (month_start_bounds d).0,
        same,
      )

-- Written with the range and the range before it.
abbrev pub windows_of : Time × Time → Time × Time → Windows
windows_of current previous = record {
  current_from = current.0;
  current_to = current.1;
  previous_from = previous.0;
  previous_to = previous.1;
}

-- For the daily report with a lag of one day, and for the weekly and the monthly report with any lag, the
-- windows that CompareVariance takes are the report's range in UTC, and the range that a report compares
-- it with.
pub comparison_windows_of_reports :
    (period : String) (lag : ℤ) (now : Time)
    → (((period ≡ "daily") × (positive_or lag (pos 1) ≡ pos 1))
        ⊎ ((period ≡ "weekly") ⊎ (period ≡ "monthly")))
    → let current = default_range utc lag period now in
      comparison_windows period now
      ≡ windows_of current (previous_report_range period current.0 current.1)
unfolding comparison_windows default_range previous_report_range local_day_start neg ◌-ℤ◌
comparison_windows_of_reports period lag now (inl (e, l)) = rw (e, l) (ground arith)
comparison_windows_of_reports period lag now (inr (inl e)) = rw e (ground arith)
comparison_windows_of_reports period lag now (inr (inr e)) = rw e (ground arith)
