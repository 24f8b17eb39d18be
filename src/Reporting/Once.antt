-- ===== src/Reporting/Once.antt =====
-- A report that was delivered is recorded, and is not sent to the same destination again.
use mathlib.Core.List.{append-nil}
use mathlib.Core.Path.{ap₂}
use torvix.Prelude.{
  All-split, All, All-map, String, ◌≡◌, refl, ◌⊎◌, inl, inr, Bool, true, false, not, none, some,
  List, [], ◌∷◌, map, arith, eq_iff,
}
use torvix.Prelude.Clock.{Time}
use torvix.Prelude.Keys.{contains, All-contains}
use torvix.Prelude.Float64.{Float64}
use torvix.Prelude.Result.{◌>>=◌, Result, ok, err}
use torvix.Domain.{Report, ReportDeliveryKey}
use torvix.Reporting.Service.{
  Repository, Sender, DeliveryResult, report_delivery_key, result_base, already_delivered,
  report_destinations, send_to,
}
use torvix.Reporting.Delivery.{decide, sort_out, deliver_one, deliver_to, deliver_report}

abbrev pub Succeeded : DeliveryResult → Type 0
Succeeded r = r.error ≡ none

-- The result of a destination that is passed over.
abbrev pub skipped : String → Time × Time → String → DeliveryResult
skipped period range d = record (result_base period range) {
  destination = d;
  skip_reason = some already_delivered;
}

module _ {F W : Type 0} (repo : Repository F W) where
  open repo use {is_report_delivered, record_report_delivery}

  -- What the database promises: a delivery that is recorded without an error is found from then on,
  -- and neither a later record nor a message on the network takes one away.
  pub record IsDurable (sender : Sender F W) : Type 0 where
    pub recorded :
        (k : ReportDeliveryKey) (w : W)
        → (record_report_delivery k w).0 ≡ none
        → is_report_delivered k (record_report_delivery k w).1 ≡ ok true
    pub kept :
        (k j : ReportDeliveryKey) (w : W)
        → is_report_delivered j w ≡ ok true
        → is_report_delivered j (record_report_delivery k w).1 ≡ ok true
    pub sent :
        (d : String) (report : Report F) (j : ReportDeliveryKey) (w : W)
        → is_report_delivered j w ≡ ok true
        → is_report_delivered j (send_to sender d report w).1 ≡ ok true

-- A destination that is not in error was found delivered or is pending, and pending ones stay so.
decide_cases :
    (base : DeliveryResult) (d : String) (q : Result Bool) (out : List DeliveryResult × List String)
    → All Succeeded (decide base d (q >>= λ delivered. ok (not delivered)) out).0
    → ((q ≡ ok true)
        ⊎ (contains d (decide base d (q >>= λ delivered. ok (not delivered)) out).1 ≡ true))
      × All Succeeded out.0
      × ((e : String)
          → contains e out.1 ≡ true
          → contains e (decide base d (q >>= λ delivered. ok (not delivered)) out).1 ≡ true)
decide_cases base d (err e) (results, pending) h = cc
decide_cases base d (ok true) (results, pending) h = (inl refl, h.1, λ e c. c)
decide_cases base d (ok false) (results, pending) h =
    (inr (ground (arith, eq_iff d d)), h, λ e c. ground arith)

module _ {F W : Type 0} ⦃fl : Float64 F⦄ (repo : Repository F W) (sender : Sender F W)
    (durable : IsDurable repo sender) (report : Report F) where
  open repo use {is_report_delivered, record_report_delivery}

  abbrev range : Time × Time
  range = (report.from, report.to)

  abbrev key : String → ReportDeliveryKey
  key d = report_delivery_key report.period range d

  abbrev pub Delivered : W → String → Type 0
  Delivered w d = is_report_delivered (key d) w ≡ ok true

  deliver_one_kept :
      (d : String) (j : ReportDeliveryKey) (w : W)
      → is_report_delivered j w ≡ ok true
      → is_report_delivered j (deliver_one repo sender report d w).1 ≡ ok true
  unfolding deliver_one
  deliver_one_kept d j w h =
      ground
        (arith, durable.sent d report j w, durable.kept (key d) j (send_to sender d report w).1)

  deliver_to_kept :
      (ds : List String) (j : ReportDeliveryKey) (w : W)
      → is_report_delivered j w ≡ ok true
      → is_report_delivered j (deliver_to repo sender report ds w).1 ≡ ok true
  unfolding deliver_to
  deliver_to_kept [] j w h = h
  deliver_to_kept (d ∷ ds) j w h =
      deliver_to_kept ds j (deliver_one repo sender report d w).1 (deliver_one_kept d j w h)

  deliver_one_recorded :
      (d : String) (w : W)
      → Succeeded (deliver_one repo sender report d w).0
      → Delivered (deliver_one repo sender report d w).1 d
  unfolding deliver_one
  deliver_one_recorded d w h =
      ground (arith, durable.recorded (key d) (send_to sender d report w).1)

  deliver_to_recorded :
      (ds : List String) (w : W)
      → All Succeeded (deliver_to repo sender report ds w).0
      → All (Delivered (deliver_to repo sender report ds w).1) ds
  unfolding deliver_to
  deliver_to_recorded [] w h = tt
  deliver_to_recorded (d ∷ ds) w h = (
    deliver_to_kept ds (key d) (deliver_one repo sender report d w).1
        (deliver_one_recorded d w h.0),
    deliver_to_recorded ds (deliver_one repo sender report d w).1 h.1,
  )

  -- Without force, a destination is found delivered, pending, or in error.
  sort_out_cases :
      (ds : List String) (w : W)
      → All Succeeded (sort_out repo report.period range false ds w).0
      → All
          (λ d.
            Delivered w d ⊎ (contains d (sort_out repo report.period range false ds w).1 ≡ true))
          ds
  unfolding sort_out
  sort_out_cases [] w h = tt
  sort_out_cases (d ∷ ds) w h =
      let c =
        decide_cases (result_base report.period range) d (is_report_delivered (key d) w)
          (sort_out repo report.period range false ds w) h in
      (
        c.0,
        All-map (λ e. elim [ inl q ↦ inl q | inr q ↦ inr (c.2 e q) ]) ds (sort_out_cases ds w c.1),
      )

  sort_out-Delivered :
      (ds : List String) (w : W)
      → All (Delivered w) ds
      → sort_out repo report.period range false ds w ≡ (map (skipped report.period range) ds, [])
  unfolding sort_out
  sort_out-Delivered [] w h = refl
  sort_out-Delivered (d ∷ ds) w h = ground (arith, h.0, sort_out-Delivered ds w h.1)

  -- After a delivery without an error, every destination of the sender has a record.
  deliver_report_records :
      (w : W)
      → All Succeeded (deliver_report repo (some sender) report false w).0
      → All
          (Delivered (deliver_report repo (some sender) report false w).1)
          (report_destinations sender)
  unfolding deliver_report
  deliver_report_records w h =
      let ds = report_destinations sender in
      let out = sort_out repo report.period range false ds w in
      let (found, sent) = All-split Succeeded out.0 (deliver_to repo sender report out.1 w).0 h in
      let recorded = deliver_to_recorded out.1 w sent in
      All-map
        (λ d. elim [
          | inl q ↦ deliver_to_kept out.1 (key d) w q
          | inr c ↦
              All-contains (Delivered (deliver_to repo sender report out.1 w).1) out.1 d recorded c
        ])
        ds (sort_out_cases ds w found)

  -- Where every destination has a record, DeliverReport only reports that.
  deliver_report-Delivered :
      (w : W)
      → All (Delivered w) (report_destinations sender)
      → deliver_report repo (some sender) report false w
        ≡ (map (skipped report.period range) (report_destinations sender), w)
  unfolding deliver_report
  deliver_report-Delivered w h =
      rw (sort_out-Delivered (report_destinations sender) w h)
        (unfold deliver_to in ap₂ (λ l (v : W). (l, v)) (append-nil _) refl)

  -- On a durable database: if DeliverReport returns no error, delivering the same report again,
  -- without force, sends nothing and writes nothing: the world is unchanged, and each destination is skipped as
  -- delivered, in the sender's order.
  pub deliver_report_once :
      (w : W)
      → All Succeeded (deliver_report repo (some sender) report false w).0
      → deliver_report repo
          (some sender)
          report
          false
          (deliver_report repo (some sender) report false w).1
        ≡ (
          map (skipped report.period range) (report_destinations sender),
          (deliver_report repo (some sender) report false w).1,
        )
  deliver_report_once w h = deliver_report-Delivered _ (deliver_report_records w h)
