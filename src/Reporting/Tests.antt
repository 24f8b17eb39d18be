-- ===== src/Reporting/Tests.antt =====
-- The report theorems at a small database, a sender with two destinations, and days of 2024.
use torvix.Prelude.{
  ◌=ℕ◌, keep, All, ℕ, ◌+◌, ◌-◌, ◌*◌, ◌/◌, ◌≤◌, ◌<◌, String, ◌≡◌, refl, ◌↔◌, inl, inr, Bool, true,
  false, ◌&&◌, ◌||◌, none, some, List, [], ◌∷◌, map, arith, ◌==◌, eq_refl,
}
use torvix.Prelude.Int.{neg, ◌-ℤ◌, ℤ, pos}
use torvix.Prelude.Whole.{whole_floats, whole-IsOrdered}
use torvix.Prelude.Clock.{Time, utc, day, unix_epoch, weekday}
use torvix.Prelude.Clock.Calendar.{month_start, year_of}
use torvix.Prelude.Result.{ok}
use torvix.Domain.{Report, AggregatedCost, CostVariance, ReportDeliveryKey}
use torvix.Reporting.Ranges.{
  local_day_start, default_range, previous_report_range, comparison_windows,
}
use torvix.Reporting.Windows.{
  utc-IsRegular, daily_range, weekly_range, monthly_range, windows_of,
  comparison_windows_of_reports,
}
use torvix.Reporting.Movements.{top_cost_movements}
use torvix.Reporting.Top.{rises, falls, Largest, top_cost_movements-Largest}
use torvix.Reporting.Service.{
  Repository, Sender, Service, DeliveryResult, report_destinations, service_range, send_to,
}
use torvix.Reporting.Building.{incomplete_skip_reason, range_has_daily_data}
use torvix.Reporting.Completeness.{Complete, range_has_daily_data-Complete}
use torvix.Reporting.Delivery.{sort_out, deliver_to, deliver_report, deliver_scheduled_report}
use torvix.Reporting.Coverage.{destinations, deliver_scheduled_report_covers}
use torvix.Reporting.Once.{Succeeded, IsDurable, skipped, deliver_report_once}
use mathlib.Core.List.{Perm}

-- The world is the list of the deliveries that are recorded.
abbrev World : Type 0
World = List ReportDeliveryKey

abbrev same_key : ReportDeliveryKey → ReportDeliveryKey → Bool
same_key a b =
    a.provider == b.provider
    && a.report_type == b.report_type
    && a.period_start =ℕ b.period_start
    && a.period_end =ℕ b.period_end
    && a.destination == b.destination

abbrev recorded_in : ReportDeliveryKey → World → Bool
recorded_in k [] = false
recorded_in k (j ∷ js) = same_key j k || recorded_in k js

abbrev row : Time → Time → AggregatedCost ℤ
row from to = record {
  window_start = from;
  window_end = to;
  provider = "oci";
  account_id = "main";
  service = "compute";
  total_cost = pos 12;
}

-- The database has one row in each window.
abbrev database : Repository ℤ World
database = record {
  aggregate_costs = λ from to period w. ok (row from to ∷ []);
  compare_cost_variance = λ period a b c d w. ok [];
  detect_anomalies = λ from to w. ok [];
  forecast_costs = λ from to n w. ok [];
  is_report_delivered = λ k w. ok (recorded_in k w);
  record_report_delivery = λ k w. (none, k ∷ w);
}

abbrev sender : Sender ℤ World
sender = record {
  send_report = λ report w. (some "unused", w);
  by_destination = some ("slack-1" ∷ "finance" ∷ [], λ d report w. (none, w));
}

abbrev service : Service
service = record { location = utc; lag_days = pos 1; require_complete_ingestion = true }

-- noon of a Monday, 1 January 2024
abbrev noon : Time
noon = unix_epoch + 19_723 * day + 43_200_000_000_000

abbrev report : Report ℤ
report = record {
  period = "daily";
  from = unix_epoch + 19_722 * day;
  to = unix_epoch + 19_723 * day;
  generated = noon;
  summary = [];
  anomalies = [];
  forecast = [];
  cost_increases = [];
  cost_decreases = [];
}

recorded_now : (k : ReportDeliveryKey) → same_key k k ≡ true
recorded_now k = ground (arith, eq_refl k.provider, eq_refl k.report_type, eq_refl k.destination)

database-IsDurable : IsDurable database sender
unfolding send_to
database-IsDurable = record {
  recorded = λ k w h. rw (recorded_now k) refl;
  kept = λ k j w h. ground arith;
  sent = λ d report j w h. ground arith;
}

abbrev first_run : List DeliveryResult × World
first_run = deliver_report database (some sender) report false []

first_run_succeeds : All Succeeded first_run.0
unfolding deliver_report deliver_to sort_out
first_run_succeeds = (refl, (refl, tt))

deliver_report_once_example :
    deliver_report database (some sender) report false first_run.1
    ≡ (map (skipped "daily" (report.from, report.to)) ("slack-1" ∷ "finance" ∷ []), first_run.1)
unfolding report_destinations
deliver_report_once_example =
    deliver_report_once database sender database-IsDurable report [] first_run_succeeds

complete_days :
    incomplete_skip_reason database service "daily" (service_range service "daily" noon) []
    ≡ ok none
unfolding incomplete_skip_reason service_range ◌-ℤ◌ neg local_day_start default_range
complete_days = refl

deliver_scheduled_report_covers_example :
    Perm
      (destinations
        (deliver_scheduled_report database service (some sender) noon "daily" noon false []).0)
      ("slack-1" ∷ "finance" ∷ [])
unfolding report_destinations
deliver_scheduled_report_covers_example =
    deliver_scheduled_report_covers database service sender noon "daily" noon false [] complete_days

range_has_daily_data-Complete_example :
    (range_has_daily_data database utc (report.from, report.to) [] ≡ ok true)
    ↔ Complete database utc utc-IsRegular [] (report.from / day) (report.to / day)
range_has_daily_data-Complete_example =
    range_has_daily_data-Complete database utc utc-IsRegular [] report.from report.to

daily_range_example :
    (default_range utc (pos 1) "daily" noon
      ≡ ((noon / day - 1) * day + 0, (noon / day - 1 + 1) * day + 0))
    × ((noon / day - 1 + 1) * day + 0 ≤ noon)
daily_range_example = daily_range utc utc-IsRegular noon (pos 1) 1 refl (omega arith) (omega arith)

weekly_range_example :
    (m : ℕ) × (default_range utc (pos 1) "weekly" noon ≡ (m * day + 0, (m + 7) * day + 0))
    × (weekday m ≡ 1)
    × (m + 7 ≤ noon / day)
    × (noon / day < m + 14)
weekly_range_example = weekly_range utc utc-IsRegular noon (pos 1) (omega arith)

noon_year : 1 ≤ year_of (noon / day)
unfolding year_of
noon_year = omega arith

monthly_range_example :
    (first : ℕ) × (default_range utc (pos 1) "monthly" noon
      ≡ (first * day + 0, month_start (noon / day) * day + 0))
    × (first < month_start (noon / day))
    × (month_start (noon / day) ≤ noon / day)
    × ((d : ℕ) → first ≤ d → d < month_start (noon / day) → month_start d ≡ first)
monthly_range_example = monthly_range utc utc-IsRegular noon (pos 1) noon_year

comparison_windows_of_reports_example :
    comparison_windows "weekly" noon
    ≡ windows_of (default_range utc (pos 4) "weekly" noon) (
        previous_report_range "weekly"
          (default_range utc (pos 4) "weekly" noon).0
          (default_range utc (pos 4) "weekly" noon).1)
comparison_windows_of_reports_example =
    comparison_windows_of_reports "weekly" (pos 4) noon (inr (inl refl))

abbrev variance : String → ℤ → CostVariance ℤ
variance service delta = record {
  period = "daily";
  current_window_start = report.from;
  current_window_end = report.to;
  previous_window_start = report.from - day;
  previous_window_end = report.from;
  provider = "oci";
  account_id = "main";
  service = service;
  compartment_id = "";
  compartment_name = "";
  current_cost = pos 20;
  previous_cost = pos 10;
  delta = delta;
  percent_change = pos 1;
  direction = "increase";
}

abbrev variances : List (CostVariance ℤ)
variances =
    variance "compute" (pos 3) ∷ variance "storage" (pos 9) ∷ variance "network" (pos 5) ∷ []

top_cost_movements-Largest_example :
    Largest 2 (keep rises variances) (top_cost_movements variances 2).0
    × Largest 2 (keep falls variances) (top_cost_movements variances 2).1
top_cost_movements-Largest_example = top_cost_movements-Largest whole-IsOrdered variances 2
