-- ===== src/Alerting/Delivery.antt =====
-- Delivery of reports and notifications: the methods of Service in service.go. What lies outside is
-- a transport: an HTTP client and an SMTP sender, over the state `W` of the world that they change.
-- An error is its text, and `none` is Go's nil error. Log lines are not modelled.
use Prim.Native.String.{◌++◌}
use torvix.Prelude.Int.{ℤ, pos, negsuc}
use torvix.Prelude.{
  suc, leb, ◌=ℕ◌, if◌then◌else◌, ℕ, ◌+◌, String, ◌⊎◌, inl, inr, Bool, true, false, not, ◌||◌,
  Option, none, some, List, [], ◌∷◌, ◌==◌,
}
use torvix.Prelude.Keys.{contains}
use torvix.Prelude.Text.{to_lower, itoa}
use mathlib.Core.List.{◌++◌ as ◌⧺◌}
use torvix.Prelude.Float64.{Float64}
use torvix.Config.{Webhook}
use torvix.Domain.{Report}
use torvix.Alerting.Payload.{
  Json, Notification, format_slack_notification, format_discord_notification,
  format_teams_notification, format_telegram_notification,
}
use torvix.Alerting.Reports.{
  format_slack, format_discord, format_teams, format_telegram, format_email,
  format_notification_email,
}

-- What the HTTP client makes of a POST: the request cannot be built (the endpoint is no URL), the
-- call fails, or there is a response with its status code and text.
pub data Outcome : Type 0 where
  bad_request : String → Outcome
  failed : String → Outcome
  response : ℕ → String → Outcome

pub record Mail : Type 0 where
  pub addr : String
  -- user, password and host of smtp.PlainAuth
  pub auth : Option (String × String × String)
  pub sender : String
  pub recipients : List String
  pub message : String

pub record Transport (W : Type 0) : Type 0 where
  -- http.Client.Do of a POST with a JSON body
  pub post : String → Json → W → Outcome × W
  -- smtp.SendMail; `none` is success
  pub send_mail : Mail → W → Option String × W
  -- url.PathEscape
  pub path_escape : String → String
  -- fmt's %q
  pub quote : String → String

-- An action that returns an error or nil.
abbrev pub Action : Type 0 → Type 0
Action W = W → Option String × W

-- The outcome of a post, as postJSON returns it.
unfoldable pub post_error : Webhook → Outcome → Option String
post_error target (bad_request err) = some (target.name ++ " notifier request: " ++ err)
post_error target (failed err) = some (target.name ++ " notifier post: " ++ err)
post_error target (response code status) =
    if leb 300 code then some (target.name ++ " notifier status: " ++ status) else none

unfoldable pub mail_error : Webhook → Option String → Option String
mail_error target none = none
mail_error target (some err) = some (target.name ++ " email send: " ++ err)

-- fmt's %d of the port, with 587 for 0
abbrev port_text : ℤ → String
port_text (pos n) = itoa (if n =ℕ 0 then 587 else n)
port_text (negsuc n) = "-" ++ itoa (suc n)

abbrev smtp_addr : Webhook → String
smtp_addr target = target.smtp_host ++ ":" ++ port_text target.smtp_port

abbrev pub mail_to : Webhook → String → Mail
mail_to target message = record {
  addr = smtp_addr target;
  auth =
      if not (target.username == "") || not (target.password == "")
      then some (target.username, target.password, target.smtp_host)
      else none;
  sender = target.sender;
  recipients = target.recipients;
  message = message;
}

abbrev pub no_recipient : List String → Bool
no_recipient [] = true
no_recipient (r ∷ rs) = false

-- The kinds of webhook; several spellings stand for one kind.
pub data Kind : Type 0 where
  slack discord teams telegram email unsupported : Kind

-- switch strings.ToLower(target.Type)
pub kind_of : String → Kind
unfolding to_lower
kind_of s =
    let k = to_lower s in
    if k == "slack"
    then slack
    else if k == "discord"
    then discord
    else if k == "teams" || k == "msteams" || k == "microsoft_teams"
    then teams
    else if k == "telegram"
    then telegram
    else if k == "email" || k == "smtp"
    then email
    else unsupported

-- reportDestination; `index` counts from 0
unfoldable pub report_destination : Webhook → ℕ → String
unfolding to_lower
report_destination target index =
    if not (target.name == "")
    then target.name
    else if not (target.kind == "")
    then to_lower target.kind ++ "-" ++ itoa (index + 1)
    else "destination-" ++ itoa (index + 1)

-- The loop of ReportDestinations, from the webhook at `index`, over the names so far; they are the
-- keys of the source's map `seen`.
unfoldable pub destinations_from : ℕ → List Webhook → List String → List String
destinations_from index [] seen = seen
destinations_from index (target ∷ rest) seen = destinations_from (index + 1) rest (
    if not target.enabled || contains (report_destination target index) seen
    then seen
    else seen ⧺ (report_destination target index ∷ []))

unfoldable pub report_destinations : List Webhook → List String
unfolding destinations_from report_destination
report_destinations webhooks = destinations_from 0 webhooks []

-- The loop of SendReport and SendNotification, over what sends to one target: disabled targets are
-- passed over, and the first error ends it.
unfoldable pub send_all : {W : Type 0} → (Webhook → Action W) → List Webhook → Action W
send_all send [] w = (none, w)
send_all send (target ∷ rest) w =
    if not target.enabled
    then send_all send rest w
    else (let (err, w') = send target w in
        elim err [ none ↦ send_all send rest w' | some e ↦ (some e, w') ])

module _ {W : Type 0} (net : Transport W) where
  open net use {post, send_mail, path_escape, quote}

  abbrev pub not_configured : String → String
  not_configured destination = "report destination " ++ quote destination ++ " is not configured"

  unfoldable pub post_json : Webhook → String → Json → Action W
  unfolding post_error
  post_json target endpoint payload w =
      if endpoint == ""
      then (some (target.name ++ " notifier url is required"), w)
      else (let (outcome, w') = post endpoint payload w in (post_error target outcome, w'))

  -- sendEmail and sendNotificationEmail differ in the message alone.
  unfoldable pub send_email : Webhook → String → Action W
  unfolding mail_error
  send_email target message w =
      if target.smtp_host == ""
      then (some (target.name ++ " email smtp_host is required"), w)
      else if target.sender == ""
      then (some (target.name ++ " email from is required"), w)
      else if no_recipient target.recipients
      then (some (target.name ++ " email to is required"), w)
      else (let (err, w') = send_mail (mail_to target message) w in (mail_error target err, w'))

  -- What both do with a Telegram message, or with the error that stands for it.
  abbrev post_telegram : Webhook → String ⊎ (String × Json) → Action W
  post_telegram target (inl err) w = (some err, w)
  post_telegram target (inr (endpoint, body)) w = post_json target endpoint body w

  abbrev not_supported : Webhook → Action W
  not_supported target w =
      (some (target.name ++ " notifier type " ++ quote target.kind ++ " is not supported"), w)

  pub notify_one : Webhook → Notification → Action W
  unfolding post_json send_email kind_of
  notify_one target n = elim (kind_of target.kind) [
    | slack ↦ post_json target target.url (format_slack_notification n)
    | discord ↦ post_json target target.url (format_discord_notification n)
    | teams ↦ post_json target target.url (format_teams_notification n)
    | telegram ↦ post_telegram target (format_telegram_notification path_escape target n)
    | email ↦ send_email target (format_notification_email target n)
    | unsupported ↦ not_supported target
  ]

  unfoldable pub send_notification : List Webhook → Notification → Action W
  unfolding send_all notify_one
  send_notification webhooks n = send_all (λ target. notify_one target n) webhooks

  module _ {F : Type 0} ⦃fl : Float64 F⦄ where
    unfoldable pub send_one : Webhook → Report F → Action W
    unfolding post_json send_email kind_of
    send_one target report = elim (kind_of target.kind) [
      | slack ↦ post_json target target.url (format_slack target report)
      | discord ↦ post_json target target.url (format_discord target report)
      | teams ↦ post_json target target.url (format_teams target report)
      | telegram ↦ post_telegram target (format_telegram path_escape target report)
      | email ↦ send_email target (format_email target report)
      | unsupported ↦ not_supported target
    ]

    unfoldable pub send_report : List Webhook → Report F → Action W
    unfolding send_all send_one
    send_report webhooks report = send_all (λ target. send_one target report) webhooks

    -- The loop of SendReportToDestination, from the webhook at `index`.
    unfoldable pub send_from : ℕ → List Webhook → String → Report F → Action W
    send_from index [] destination report w = (some (not_configured destination), w)
    send_from index (target ∷ rest) destination report w =
        if not target.enabled || not (report_destination target index == destination)
        then send_from (index + 1) rest destination report w
        else send_one target report w

    unfoldable pub send_report_to_destination : List Webhook → String → Report F → Action W
    unfolding send_from send_one report_destination
    send_report_to_destination webhooks destination report = send_from 0 webhooks destination report
