-- ===== src/Alerting/Destinations.antt =====
-- ReportDestinations and SendReportToDestination agree: what is listed can be sent to.
use mathlib.Core.List.{◌++◌ as ◌⧺◌}
use torvix.Prelude.{
  get_elem?, if◌then◌else◌, Bool-cases, Option-cases, ℕ, suc, ◌+◌, String, ◌≡◌, refl, ◌∙◌, inl, inr,
  true, false, not, ◌&&◌, ◌||◌, Option, none, some, List, [], ◌∷◌, arith, ◌==◌, eq_iff,
}
use torvix.Prelude.Keys.{contains, Distinct, contains-append, Distinct-snoc, is_some}
use torvix.Prelude.Float64.{Float64}
use torvix.Config.{Webhook}
use torvix.Domain.{Report}
use torvix.Alerting.Delivery.{
  Transport, report_destination, report_destinations, destinations_from, send_from, send_one,
  send_report_to_destination, not_configured,
}

-- The first enabled webhook with the given destination, from the one at `index`.
abbrev target_from : ℕ → List Webhook → String → Option Webhook
target_from index [] d = none
target_from index (t ∷ rest) d =
    let later = target_from (index + 1) rest d in
    if t.enabled && report_destination t index == d then some t else later

destinations_from-Distinct :
    (index : ℕ) (ws : List Webhook) (seen : List String)
    → Distinct seen
    → Distinct (destinations_from index ws seen)
unfolding destinations_from
destinations_from-Distinct index [] seen d = d
destinations_from-Distinct index (t ∷ rest) seen d =
    destinations_from-Distinct (index + 1) rest _
      (ground (arith, Distinct-snoc seen (report_destination t index)))

-- ReportDestinations lists no destination twice.
pub report_destinations-Distinct : (ws : List Webhook) → Distinct (report_destinations ws)
unfolding report_destinations
report_destinations-Distinct ws = destinations_from-Distinct 0 ws [] tt

contains-destinations_from :
    (index : ℕ) (ws : List Webhook) (seen : List String) (d : String)
    → contains d (destinations_from index ws seen)
      ≡ (contains d seen || is_some (target_from index ws d))
unfolding destinations_from
contains-destinations_from index [] seen d = ground arith
contains-destinations_from index (t ∷ rest) seen d = ground (
  arith,
  contains-destinations_from (index + 1) rest
      (if not t.enabled || contains (report_destination t index) seen
        then seen
        else seen ⧺ (report_destination t index ∷ []))
      d,
  contains-append d seen (report_destination t index ∷ []),
  eq_iff (report_destination t index) d,
)

-- The webhook that is found is enabled, stands in the list, and has the destination.
target_from_sound :
    (index : ℕ) (ws : List Webhook) (d : String) (t : Webhook)
    → target_from index ws d ≡ some t
    → (i : ℕ) × (get_elem? ws i ≡ some t)
      × (t.enabled ≡ true)
      × (report_destination t (index + i) ≡ d)
target_from_sound index [] d t h = cc
target_from_sound index (u ∷ rest) d t h =
    elim (Bool-cases (u.enabled && report_destination u index == d)) [
      | inl hit ↦ (
        0,
        ground arith,
        ground arith,
        let e : index + 0 ≡ index = omega arith in
            rw e (ground (arith, eq_iff (report_destination u index) d)),
      )
      | inr miss ↦
          let (i, at, on, named) = target_from_sound (index + 1) rest d t (ground arith) in
          let e : index + suc i ≡ index + 1 + i = omega arith in (suc i, at, on, rw e named)
    ]

module _ {W : Type 0} (net : Transport W) {F : Type 0} ⦃fl : Float64 F⦄ (report : Report F)
    (w : W) where
  -- Where SendReportToDestination goes, by the webhook that is found.
  abbrev sent_to : Option Webhook → String → Option String × W
  sent_to none d = (some (not_configured net d), w)
  sent_to (some t) d = send_one net t report w

  send_from-target :
      (index : ℕ) (ws : List Webhook) (d : String)
      → send_from net index ws d report w ≡ sent_to (target_from index ws d) d
  unfolding send_from
  send_from-target index [] d = refl
  send_from-target index (t ∷ rest) d = ground (arith, send_from-target (index + 1) rest d)

  -- A listed destination is sent to: some enabled webhook has it, and sending to the destination is
  -- sending to that webhook, whatever the report and the state of the network.
  pub listed_is_sent :
      (ws : List Webhook) (d : String)
      → contains d (report_destinations ws) ≡ true
      → (t : Webhook) × (i : ℕ) × (get_elem? ws i ≡ some t)
        × (t.enabled ≡ true)
        × (report_destination t i ≡ d)
        × (send_report_to_destination net ws d report w ≡ send_one net t report w)
  unfolding report_destinations send_report_to_destination
  listed_is_sent ws d h = elim (Option-cases (target_from 0 ws d)) [
    | inl e ↦ absurd (ground (arith, contains-destinations_from 0 ws [] d))
    | inr (t, e) ↦
        let (i, at, on, named) = target_from_sound 0 ws d t e in
        let z : 0 + i ≡ i = omega arith in
        (t, i, at, on, rw z at named, send_from-target 0 ws d ∙ rw e refl)
  ]

  -- A destination that is not listed is refused by name, and nothing is sent.
  pub unlisted_is_refused :
      (ws : List Webhook) (d : String)
      → contains d (report_destinations ws) ≡ false
      → send_report_to_destination net ws d report w ≡ (some (not_configured net d), w)
  unfolding report_destinations send_report_to_destination
  unlisted_is_refused ws d h = elim (Option-cases (target_from 0 ws d)) [
    | inl e ↦ send_from-target 0 ws d ∙ rw e refl
    | inr (t, e) ↦ absurd (ground (arith, contains-destinations_from 0 ws [] d))
  ]
