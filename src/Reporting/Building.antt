-- ===== src/Reporting/Building.antt =====
-- Building a report and whether its data are complete: Build, BuildDefault and incompleteSkipReason
-- of reporting/service.go, with the parts of analytics and forecasting that they call. Times of the
-- clock are arguments.
use torvix.Prelude.{
  if◌then◌else◌, ℕ, zero, suc, ◌+◌, ◌-◌, String, Bool, true, false, not, Option, none, some, List,
  [], ◌∷◌, ◌==◌,
}
use torvix.Prelude.Clock.{Time, before, Location}
use torvix.Prelude.Int.{pos}
use torvix.Prelude.Float64.{Float64}
use torvix.Prelude.Result.{Result, ok, ◌>>=◌}
use torvix.Domain.{AggregatedCost, Report}
use torvix.Reporting.Ranges.{local_day_start, add_civil_days, previous_report_range}
use torvix.Reporting.Movements.{top_cost_movements}
use torvix.Reporting.Service.{
  Service, Repository, service_range, skip_daily_incomplete, skip_weekly_incomplete,
}

-- len(rows) != 0
abbrev pub has_rows : {F : Type 0} → List (AggregatedCost F) → Bool
has_rows [] = false
has_rows (r ∷ rs) = true

module _ {F W : Type 0} ⦃fl : Float64 F⦄ (repo : Repository F W) where
  open repo use {
    aggregate_costs, compare_cost_variance, detect_anomalies, forecast_costs, is_report_delivered,
    record_report_delivery,
  }

  -- Build and buildWithSummary; `generated` is time.Now()
  unfoldable pub build : Time → String → Time × Time → W → Result (Report F)
  build generated period range w = do
    summary ← aggregate_costs range.0 range.1 period w
    anomalies ← detect_anomalies range.0 range.1 w
    forecast ← forecast_costs range.0 range.1 7 w
    let previous = previous_report_range period range.0 range.1
    variances ← compare_cost_variance period range.0 range.1 previous.0 previous.1 w
    let moved = top_cost_movements variances 5
    ok (record {
      period = period;
      from = range.0;
      to = range.1;
      generated = generated;
      summary = summary;
      anomalies = anomalies;
      forecast = forecast;
      cost_increases = moved.0;
      cost_decreases = moved.1;
    })

  -- BuildDefault
  unfoldable pub build_default : Service → Time → String → Time → W → Result (Report F)
  unfolding build service_range
  build_default s generated period now w = build generated period (service_range s period now) w

  -- The loop of rangeHasDailyData, with fuel for its days.
  unfoldable pub days_have_data : ℕ → Location → Time → Time → W → Result Bool
  unfolding add_civil_days
  days_have_data zero loc day_start end w = ok true
  days_have_data (suc fuel) loc day_start end w =
      let day_end = add_civil_days loc day_start (pos 1) in
      let rest = days_have_data fuel loc day_end end w in
      let checked : Result Bool = aggregate_costs day_start day_end "daily" w >>= λ rows.
      if has_rows rows then rest else ok false in
      if before day_start end then checked else ok true

  -- rangeHasDailyData: there are no more rounds than civil days from the start to the end.
  unfoldable pub range_has_daily_data : Location → Time × Time → W → Result Bool
  unfolding days_have_data local_day_start
  range_has_daily_data loc range w =
      days_have_data (loc.civil_day range.1 - loc.civil_day range.0 + 1) loc
        (local_day_start loc range.0) (local_day_start loc range.1) w

  -- incompleteSkipReason; `none` is the empty reason
  unfoldable pub incomplete_skip_reason :
      Service → String → Time × Time → W → Result (Option String)
  unfolding range_has_daily_data
  incomplete_skip_reason s period range w =
      if not s.require_complete_ingestion
      then ok none
      else if period == "daily"
      then (range_has_daily_data s.location range w >>= λ complete.
          ok (if complete then none else some skip_daily_incomplete))
      else if period == "weekly"
      then (range_has_daily_data s.location range w >>= λ complete.
          ok (if complete then none else some skip_weekly_incomplete))
      else ok none
