-- ===== src/Alerting/Summary.antt =====
-- The text of a report: summarize and the functions that it calls, in service.go.
use torvix.Prelude.Clock.{after, second, is_zero, day, Time}
use torvix.Prelude.Text.{itoa, upper_first, to_upper, join}
use torvix.Prelude.{
  take, map, ◌&&◌, not, ◌∷◌, ◌=ℕ◌, ◌||◌, [], ltb, ◌/◌, ◌%◌, ◌-◌, ◌==◌, ℕ, String, Bool, List,
  length, if◌then◌else◌,
}
use Prim.Native.String.{◌++◌}
use mathlib.Core.List.{◌++◌ as ◌⧺◌}
use torvix.Prelude.Float64.{Float64}
use torvix.Prelude.Clock.Calendar.{year_of, month_of, day_of_month}
use torvix.Config.{Webhook}
use torvix.Domain.{AggregatedCost, CostVariance, Anomaly, Report}

abbrev pub max_notified_anomalies : ℕ
max_notified_anomalies = 5

-- title
unfoldable pub title : String → String
unfolding upper_first
title s = upper_first s

abbrev pad2 : ℕ → String
pad2 n = if ltb n 10 then "0" ++ itoa n else itoa n

abbrev pad4 : ℕ → String
pad4 n =
    if ltb n 10
    then "000" ++ itoa n
    else if ltb n 100
    then "00" ++ itoa n
    else if ltb n 1000
    then "0" ++ itoa n
    else itoa n

-- t.Format("2006-01-02") in UTC
pub format_date : Time → String
format_date t =
    let d = t / day in
    pad4 (year_of d - 292_277_022_399) ++ "-" ++ pad2 (month_of d) ++ "-" ++ pad2 (day_of_month d)

-- t.Format(time.RFC3339) in UTC
pub format_rfc3339 : Time → String
unfolding format_date
format_rfc3339 t =
    let s = t % day / second in
    format_date t
    ++ "T"
    ++ pad2 (s / 3600)
    ++ ":"
    ++ pad2 (s / 60 % 60)
    ++ ":"
    ++ pad2 (s % 60)
    ++ "Z"

unfoldable pub is_midnight_utc : Time → Bool
is_midnight_utc t = t % day =ℕ 0

unfoldable pub same_utc_date : Time → Time → Bool
same_utc_date a b =
    year_of (a / day) =ℕ year_of (b / day)
    && month_of (a / day) =ℕ month_of (b / day)
    && day_of_month (a / day) =ℕ day_of_month (b / day)

pub report_period_range : String → Time → Time → String
unfolding title is_midnight_utc same_utc_date
report_period_range period from to =
    let end = to - day in
    if is_zero from || is_zero to || not (after to from)
    then title period
    else if is_midnight_utc from && is_midnight_utc to
    then (if same_utc_date from end
        then format_date from ++ " UTC"
        else format_date from ++ " to " ++ format_date end ++ " UTC")
    else format_rfc3339 from ++ " to " ++ format_rfc3339 to

pub record ReportSummary : Type 0 where
  pub title : String
  pub period_range : String
  pub total_cost : String
  pub anomaly_count : ℕ
  pub cost_increase_text : String
  pub cost_decrease_text : String
  pub anomaly_text : String

-- The text `label value` as one more part, where the value is not empty.
abbrev part : String → String → List String
part label value = if value == "" then [] else (label ++ value) ∷ []

-- The compartment's name, or else its id.
abbrev compartment : String → String → List String
compartment name id = if name == "" then part "compartment " id else part "compartment " name

-- "; " in front of details, where there are any
abbrev with_separator : String → String
with_separator d = if d == "" then d else "; " ++ d

-- Writes the texts one behind the other, as the loop over a strings.Builder does.
abbrev pub write_all : List String → String
write_all [] = ""
write_all (x ∷ xs) = x ++ write_all xs

-- "...and n more", where the list is longer than what was written of it
abbrev pub more : ℕ → String
more n =
    if ltb max_notified_anomalies n
    then "...and " ++ itoa (n - max_notified_anomalies) ++ " more\n"
    else ""

module _ {F : Type 0} ⦃fl : Float64 F⦄ where
  open fl use {decimal, add, neg, le, fixed}

  pub format_cost : String → F → String
  unfolding to_upper
  format_cost currency amount =
      if currency == "" then fixed 2 amount else to_upper currency ++ " " ++ fixed 2 amount

  pub format_signed_cost : String → F → String
  unfolding format_cost
  format_signed_cost currency value =
      if le (decimal 0 0) value
      then "+" ++ format_cost currency value
      else "-" ++ format_cost currency (neg value)

  pub variance_details : CostVariance F → String
  unfolding join
  variance_details v =
      join (compartment v.compartment_name v.compartment_id ⧺ part "account " v.account_id) "; "

  pub anomaly_details : Anomaly F → String
  unfolding join
  anomaly_details a =
      join
        (part "category " a.category
          ⧺ compartment a.compartment_name a.compartment_id
          ⧺ part "region " a.region
          ⧺ part "account " a.account_id)
        "; "

  unfoldable pub variance_line : String → CostVariance F → String
  unfolding format_cost format_signed_cost variance_details
  variance_line currency v =
      "- "
      ++ v.provider
      ++ " "
      ++ v.service
      ++ ": "
      ++ format_signed_cost currency v.delta
      ++ " ("
      ++ fixed 1 v.percent_change
      ++ "%; current "
      ++ format_cost currency v.current_cost
      ++ " vs previous "
      ++ format_cost currency v.previous_cost
      ++ with_separator (variance_details v)
      ++ ")\n"

  unfoldable pub format_cost_variances : String → List (CostVariance F) → String
  unfolding variance_line
  format_cost_variances currency [] = ""
  format_cost_variances currency (v ∷ vs) =
      write_all (map (variance_line currency) (take max_notified_anomalies (v ∷ vs)))
      ++ more (length (v ∷ vs))

  unfoldable pub anomaly_line : String → Anomaly F → String
  unfolding format_cost anomaly_details
  anomaly_line currency a =
      "- ["
      ++ a.severity
      ++ "] "
      ++ a.provider
      ++ " "
      ++ a.service
      ++ ": "
      ++ format_cost currency a.actual
      ++ " ("
      ++ fixed 1 a.percent_deviation
      ++ "% deviation"
      ++ with_separator (anomaly_details a)
      ++ ")\n"

  unfoldable pub format_anomalies : String → List (Anomaly F) → String
  unfolding anomaly_line
  format_anomalies currency [] = ""
  format_anomalies currency (a ∷ rest) =
      write_all (map (anomaly_line currency) (take max_notified_anomalies (a ∷ rest)))
      ++ more (length (a ∷ rest))

  -- for _, s := range report.Summary { total += s.TotalCost }
  pub total_cost : F → List (AggregatedCost F) → F
  total_cost total [] = total
  total_cost total (s ∷ rest) = total_cost (add total s.total_cost) rest

  unfoldable pub summarize : Webhook → Report F → ReportSummary
  unfolding title report_period_range format_cost format_cost_variances format_anomalies total_cost
  summarize target report = record {
    title = "Torvix " ++ title report.period ++ " Report";
    period_range = report_period_range report.period report.from report.to;
    total_cost = format_cost target.currency (total_cost (decimal 0 0) report.summary);
    anomaly_count = length report.anomalies;
    cost_increase_text = format_cost_variances target.currency report.cost_increases;
    cost_decrease_text = format_cost_variances target.currency report.cost_decreases;
    anomaly_text = format_anomalies target.currency report.anomalies;
  }
