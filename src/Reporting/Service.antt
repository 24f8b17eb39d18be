-- ===== src/Reporting/Service.antt =====
-- Service of reporting/service.go and what it stands on: the repository, the sender of reports, the
-- options, and the result and the key of a delivery. `W` is the state of the world: the database and
-- the network. Reads do not change it; a write and a send give the new world beside their error.
use torvix.Prelude.{if◌then◌else◌, ℕ, String, Bool, Option, none, some, List, [], ◌∷◌, ◌==◌}
use torvix.Prelude.Clock.{Time, Location, utc}
use torvix.Prelude.Int.{ℤ, pos, positive_or}
use torvix.Prelude.Result.{Result}
use torvix.Domain.{AggregatedCost, CostVariance, Anomaly, ForecastPoint, Report, ReportDeliveryKey}
use torvix.Reporting.Ranges.{default_range}

-- The methods of storage.Repository that reports need.
pub record Repository (F W : Type 0) : Type 0 where
  pub aggregate_costs : Time → Time → String → W → Result (List (AggregatedCost F))
  pub compare_cost_variance :
      String → Time → Time → Time → Time → W → Result (List (CostVariance F))
  pub detect_anomalies : Time → Time → W → Result (List (Anomaly F))
  pub forecast_costs : Time → Time → ℕ → W → Result (List (ForecastPoint F))
  pub is_report_delivered : ReportDeliveryKey → W → Result Bool
  pub record_report_delivery : ReportDeliveryKey → W → Option String × W

-- ReportSender, and what a DestinationReportSender has beside it.
pub record Sender (F W : Type 0) : Type 0 where
  pub send_report : Report F → W → Option String × W
  pub by_destination : Option (List String × (String → Report F → W → Option String × W))

-- Service, after NewWithOptions.
pub record Service : Type 0 where
  pub location : Location
  pub lag_days : ℤ
  pub require_complete_ingestion : Bool

-- NewWithOptions; LoadLocation has been applied, and no location is UTC.
unfoldable pub new_with_options : Option Location → ℤ → Bool → Service
new_with_options none lag complete = record {
  location = utc;
  lag_days = positive_or lag (pos 1);
  require_complete_ingestion = complete;
}
new_with_options (some loc) lag complete = record {
  location = loc;
  lag_days = positive_or lag (pos 1);
  require_complete_ingestion = complete;
}

pub record DeliveryResult : Type 0 where
  pub period : String
  pub from : Time
  pub to : Time
  pub destination : String
  pub skip_reason : Option String
  pub error : Option String

abbrev pub skip_daily_incomplete : String
skip_daily_incomplete = "Skipping daily report because target date data is incomplete."

abbrev pub skip_weekly_incomplete : String
skip_weekly_incomplete = "Skipping weekly report because report range data is incomplete."

abbrev pub already_delivered : String
already_delivered = "report already delivered"

abbrev pub not_configured : String
not_configured = "report sender is not configured"

-- reportDeliveryKey, of the range of times and the destination
unfoldable pub report_delivery_key : String → Time × Time → String → ReportDeliveryKey
report_delivery_key period range destination = record {
  provider = "all";
  report_type = period;
  period_start = range.0;
  period_end = range.1;
  destination = destination;
}

abbrev pub result_base : String → Time × Time → DeliveryResult
result_base period range = record {
  period = period;
  from = range.0;
  to = range.1;
  destination = "";
  skip_reason = none;
  error = none;
}

unfoldable pub service_range : Service → String → Time → Time × Time
service_range s period now = default_range s.location s.lag_days period now

module _ {F W : Type 0} (sender : Sender F W) where
  abbrev listed : Option (List String × (String → Report F → W → Option String × W)) → List String
  listed none = "default" ∷ []
  listed (some ([], send)) = "default" ∷ []
  listed (some (d ∷ ds, send)) = d ∷ ds

  -- reportDestinations
  unfoldable pub report_destinations : List String
  report_destinations = listed sender.by_destination

  abbrev by_name :
      Option (List String × (String → Report F → W → Option String × W))
      → String
      → Report F
      → W
      → Option String × W
  by_name none d report w = sender.send_report report w
  by_name (some (ds, send)) d report w =
      if d == "default" then sender.send_report report w else send d report w

  -- sendReportToDestination
  unfoldable pub send_to : String → Report F → W → Option String × W
  send_to = by_name sender.by_destination
