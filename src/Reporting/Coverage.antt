-- ===== src/Reporting/Coverage.antt =====
-- Each destination of a sender gets exactly one result.
use mathlib.Core.List.{append-nil, ◌++◌, Perm, perm_middle, map-append}
use mathlib.Core.List.Perm
use torvix.Prelude.{
  String, ◌≡◌, refl, sym, ap, subst, ◌∙◌, Bool, true, false, none, some, List, [], ◌∷◌, ◌++◌, map,
  arith,
}
use torvix.Prelude.Clock.{Time}
use torvix.Prelude.Float64.{Float64}
use torvix.Prelude.Result.{Result, ok, err}
use torvix.Domain.{Report}
use torvix.Reporting.Service.{
  service_range, Service, Repository, Sender, DeliveryResult, report_delivery_key, result_base,
  report_destinations,
}
use torvix.Reporting.Building.{build_default, incomplete_skip_reason}
use torvix.Reporting.Delivery.{
  all_failed, built, deliver_pending, deliver_scheduled_report, should_deliver, decide, sort_out,
  deliver_one, deliver_to, deliver_report,
}

abbrev pub destinations : List DeliveryResult → List String
destinations = map (λ r. r.destination)

module _ {F W : Type 0} ⦃fl : Float64 F⦄ (repo : Repository F W) where
  open repo use {is_report_delivered, record_report_delivery}

  decide-perm :
      (base : DeliveryResult) (d : String) (r : Result Bool)
      (out : List DeliveryResult × List String) (ds : List String)
      → Perm (destinations out.0 ++ out.1) ds
      → Perm (destinations (decide base d r out).0 ++ (decide base d r out).1) (d ∷ ds)
  decide-perm base d (err e) (results, pending) ds p = Perm.cons d p
  decide-perm base d (ok false) (results, pending) ds p = Perm.cons d p
  decide-perm base d (ok true) (results, pending) ds p =
      Perm.trans (perm_middle (destinations results) pending) (Perm.cons d p)

  sort_out-perm :
      (period : String) (range : Time × Time) (force : Bool) (ds : List String) (w : W)
      → Perm
          (destinations (sort_out repo period range force ds w).0
            ++ (sort_out repo period range force ds w).1)
          ds
  unfolding sort_out
  sort_out-perm period range force [] w = Perm.refl []
  sort_out-perm period range force (d ∷ ds) w =
      decide-perm (result_base period range) d
        (should_deliver repo (report_delivery_key period range d) force w)
        (sort_out repo period range force ds w) ds (sort_out-perm period range force ds w)

  module _ (sender : Sender F W) (report : Report F) where
    destination-deliver_one :
        (d : String) (w : W) → (deliver_one repo sender report d w).0.destination ≡ d
    unfolding deliver_one
    destination-deliver_one d w = ground arith

    destinations-deliver_to :
        (ds : List String) (w : W) → destinations (deliver_to repo sender report ds w).0 ≡ ds
    unfolding deliver_to
    destinations-deliver_to [] w = refl
    destinations-deliver_to (d ∷ ds) w = λ i.
        destination-deliver_one d w i
        ∷ destinations-deliver_to ds (deliver_one repo sender report d w).1 i

    -- With any options, DeliverReport returns exactly one result for each of the sender's
    -- destinations.
    pub deliver_report_covers :
        (force : Bool) (w : W)
        → Perm
            (destinations (deliver_report repo (some sender) report force w).0)
            (report_destinations sender)
    unfolding deliver_report
    deliver_report_covers true w =
        subst (λ l. Perm l (report_destinations sender))
          (sym (destinations-deliver_to (report_destinations sender) w)) (Perm.refl _)
    deliver_report_covers false w =
        let out =
          sort_out repo report.period (report.from, report.to) false (report_destinations sender)
            w in
        subst (λ l. Perm l (report_destinations sender))
          (sym (
            map-append _ out.0 (deliver_to repo sender report out.1 w).0
            ∙ ap (λ l. destinations out.0 ++ l) (destinations-deliver_to out.1 w)))
          (sort_out-perm report.period (report.from, report.to) false (report_destinations sender)
            w)

  module _ (s : Service) (sender : Sender F W) (generated : Time) (period : String)
      (now : Time) where
    destinations-all_failed :
        (base : DeliveryResult) (e : String) (ds : List String)
        → destinations (all_failed base e ds) ≡ ds
    destinations-all_failed base e [] = refl
    destinations-all_failed base e (d ∷ ds) = ap (λ l. d ∷ l) (destinations-all_failed base e ds)

    destinations-built :
        (base : DeliveryResult) (results : List DeliveryResult) (pending : List String)
        (r : Result (Report F)) (w : W)
        → destinations (built repo sender base results pending r w).0
          ≡ destinations results ++ pending
    destinations-built base results pending (err e) w =
        map-append _ results (all_failed base e pending)
        ∙ ap (λ l. destinations results ++ l) (destinations-all_failed base e pending)
    destinations-built base results pending (ok report) w =
        map-append _ results (deliver_to repo sender report pending w).0
        ∙ ap (λ l. destinations results ++ l) (destinations-deliver_to sender report pending w)

    deliver_pending-perm :
        (out : List DeliveryResult × List String) (ds : List String) (w : W)
        → Perm (destinations out.0 ++ out.1) ds
        → Perm (destinations (deliver_pending repo s sender generated period now out w).0) ds
    deliver_pending-perm (results, []) ds w p =
        subst (λ l. Perm l ds) (append-nil (destinations results)) p
    deliver_pending-perm (results, d ∷ rest) ds w p =
        subst (λ l. Perm l ds)
          (sym (
            destinations-built (result_base period (service_range s period now)) results (d ∷ rest)
              (build_default repo s generated period now w) w))
          p

    -- When the report's data are complete, a scheduled delivery returns exactly one result for each
    -- of the sender's destinations, whatever fails on the way and whether or not it is forced.
    pub deliver_scheduled_report_covers :
        (force : Bool) (w : W)
        → incomplete_skip_reason repo s period (service_range s period now) w ≡ ok none
        → Perm
            (destinations
              (deliver_scheduled_report repo s (some sender) generated period now force w).0)
            (report_destinations sender)
    unfolding deliver_scheduled_report
    deliver_scheduled_report_covers force w e = rw e (
        deliver_pending-perm
          (sort_out repo period (service_range s period now) force (report_destinations sender) w)
          (report_destinations sender) w
          (sort_out-perm period (service_range s period now) force (report_destinations sender) w))
