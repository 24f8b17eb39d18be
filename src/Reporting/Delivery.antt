-- ===== src/Reporting/Delivery.antt =====
-- Delivering reports: DeliverScheduledReport, DeliverDefaultReportsWithOptions and DeliverReport of
-- reporting/service.go.
use mathlib.Core.List.{◌++◌}
use torvix.Prelude.{
  if◌then◌else◌, String, Bool, true, false, not, Option, none, some, List, [], ◌∷◌, ◌++◌, map,
}
use torvix.Prelude.Clock.{Time}
use torvix.Prelude.Float64.{Float64}
use torvix.Prelude.Result.{Result, ok, err, ◌>>=◌}
use torvix.Domain.{Report, ReportDeliveryKey}
use torvix.Reporting.Service.{
  not_configured, already_delivered, result_base, service_range, DeliveryResult,
  report_delivery_key, send_to, report_destinations, Service, Repository, Sender,
}
use torvix.Reporting.Building.{build_default, incomplete_skip_reason}

-- What the loop over the destinations does with one: a result now, or a pending destination.
abbrev pub decide :
    DeliveryResult
    → String
    → Result Bool
    → List DeliveryResult × List String
    → List DeliveryResult × List String
decide base d (err e) (results, pending) =
    (record base { destination = d; error = some e } ∷ results, pending)
decide base d (ok false) (results, pending) =
    (record base { destination = d; skip_reason = some already_delivered } ∷ results, pending)
decide base d (ok true) (results, pending) = (results, d ∷ pending)

-- Every pending destination gets the error of a report that could not be built.
abbrev pub all_failed : DeliveryResult → String → List String → List DeliveryResult
all_failed base e pending = map (λ d. record base { destination = d; error = some e }) pending

module _ {F W : Type 0} ⦃fl : Float64 F⦄ (repo : Repository F W) where
  open repo use {is_report_delivered, record_report_delivery}

  -- shouldDeliverReport
  unfoldable pub should_deliver : ReportDeliveryKey → Bool → W → Result Bool
  should_deliver key force w =
      if force then ok true else (is_report_delivered key w >>= λ delivered. ok (not delivered))

  -- The loop that sorts the destinations out; both lists keep the order of the destinations.
  unfoldable pub sort_out :
      String → Time × Time → Bool → List String → W → List DeliveryResult × List String
  unfolding should_deliver report_delivery_key
  sort_out period range force [] w = ([], [])
  sort_out period range force (d ∷ ds) w =
      decide (result_base period range) d
        (should_deliver (report_delivery_key period range d) force w)
        (sort_out period range force ds w)

  -- One round of deliverReportToDestinations: the record is written only after a send.
  unfoldable pub deliver_one : Sender F W → Report F → String → W → DeliveryResult × W
  unfolding send_to report_delivery_key
  deliver_one sender report d w =
      let base = record (result_base report.period (report.from, report.to)) { destination = d } in
      let (failed, w') = send_to sender d report w in
      elim failed [
        | some e ↦ (record base { error = some e }, w')
        | none ↦
            let (unrecorded, w'') =
              record_report_delivery (report_delivery_key report.period (report.from, report.to) d)
                w' in
            (record base { error = unrecorded }, w'')
      ]

  -- deliverReportToDestinations
  unfoldable pub deliver_to : Sender F W → Report F → List String → W → List DeliveryResult × W
  unfolding deliver_one
  deliver_to sender report [] w = ([], w)
  deliver_to sender report (d ∷ ds) w =
      let (result, w') = deliver_one sender report d w in
      let (results, w'') = deliver_to sender report ds w' in (result ∷ results, w'')

  abbrev pub built :
      Sender F W
      → DeliveryResult
      → List DeliveryResult
      → List String
      → Result (Report F)
      → W
      → List DeliveryResult × W
  built sender base results pending (err e) w = (results ++ all_failed base e pending, w)
  built sender base results pending (ok report) w =
      let (sent, w') = deliver_to sender report pending w in (results ++ sent, w')

  abbrev pub deliver_pending :
      Service
      → Sender F W
      → Time
      → String
      → Time
      → List DeliveryResult × List String
      → W
      → List DeliveryResult × W
  deliver_pending s sender generated period now (results, []) w = (results, w)
  deliver_pending s sender generated period now (results, d ∷ ds) w =
      built sender (result_base period (service_range s period now)) results (d ∷ ds)
        (build_default repo s generated period now w) w

  abbrev pub checked :
      Service
      → Sender F W
      → Time
      → String
      → Time
      → Bool
      → Result (Option String)
      → W
      → List DeliveryResult × W
  checked s sender generated period now force (err e) w =
      (record (result_base period (service_range s period now)) { error = some e } ∷ [], w)
  checked s sender generated period now force (ok (some reason)) w = (
    record (result_base period (service_range s period now)) { skip_reason = some reason } ∷ [],
    w,
  )
  checked s sender generated period now force (ok none) w =
      deliver_pending s sender generated period now
        (sort_out period (service_range s period now) force (report_destinations sender) w) w

  -- DeliverScheduledReport; the sender `none` is nil
  unfoldable pub deliver_scheduled_report :
      Service → Option (Sender F W) → Time → String → Time → Bool → W → List DeliveryResult × W
  unfolding incomplete_skip_reason sort_out build_default deliver_to report_destinations
      service_range
  deliver_scheduled_report s none generated period now force w = (
    record (result_base period (service_range s period now)) { error = some not_configured } ∷ [],
    w,
  )
  deliver_scheduled_report s (some sender) generated period now force w =
      checked s sender generated period now force
        (incomplete_skip_reason repo s period (service_range s period now) w) w

  -- The loop of DeliverDefaultReportsWithOptions over the periods.
  unfoldable pub deliver_periods :
      Service → Option (Sender F W) → Time → List String → Time → Bool → W → List DeliveryResult × W
  unfolding deliver_scheduled_report
  deliver_periods s sender generated [] now force w = ([], w)
  deliver_periods s sender generated (p ∷ ps) now force w =
      let (results, w') = deliver_scheduled_report s sender generated p now force w in
      let (more, w'') = deliver_periods s sender generated ps now force w' in (results ++ more, w'')

  -- DeliverDefaultReportsWithOptions
  unfoldable pub deliver_default_reports :
      Service → Option (Sender F W) → Time → Time → Bool → W → List DeliveryResult × W
  unfolding deliver_periods
  deliver_default_reports s sender generated now force w =
      deliver_periods s sender generated ("daily" ∷ "weekly" ∷ "monthly" ∷ []) now force w

  -- DeliverReport
  unfoldable pub deliver_report :
      Option (Sender F W) → Report F → Bool → W → List DeliveryResult × W
  unfolding sort_out deliver_to report_destinations
  deliver_report none report force w = (
    record (result_base report.period (report.from, report.to)) { error = some not_configured }
        ∷ [],
    w,
  )
  deliver_report (some sender) report force w =
      let (results, pending) =
        sort_out report.period (report.from, report.to) force (report_destinations sender) w in
      let (sent, w') = deliver_to sender report pending w in
      if force
      then deliver_to sender report (report_destinations sender) w
      else (results ++ sent, w')
