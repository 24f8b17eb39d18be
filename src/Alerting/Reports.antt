-- ===== src/Alerting/Reports.antt =====
-- A report as the message of each kind of webhook: formatSlack, formatDiscord, formatTeams,
-- formatTelegram and formatEmail of service.go, and formatNotificationEmail beside the last.
use Prim.Native.String.{◌++◌}
use torvix.Prelude.{ltb, if◌then◌else◌, String, ◌⊎◌, Bool, true, false, List, [], ◌∷◌, ◌==◌}
use torvix.Prelude.Text.{trim_space, join, itoa}
use mathlib.Core.List.{◌++◌ as ◌⧺◌}
use torvix.Prelude.Float64.{Float64}
use torvix.Config.{Webhook}
use torvix.Domain.{Report}
use torvix.Alerting.Summary.{ReportSummary, summarize}
use torvix.Alerting.Payload.{
  Json, text, number, flag, array, object, nil, cons, field, end, items, pair, header, section,
  teams_color, telegram_endpoint, telegram_message, Notification, notification_text,
}

-- The one element, where the text is not empty.
abbrev pub optional {ℓ} : {A : Type ℓ} → String → A → List A
optional t x = if t == "" then [] else x ∷ []

-- The text with what goes before it, where it is not empty.
abbrev labelled : String → String → String
labelled label t = if t == "" then "" else label ++ t

unfoldable pub slack_blocks : ReportSummary → List Json
slack_blocks s =
    (header s.title
      ∷ section (
          "*Period:* "
          ++ s.period_range
          ++ "\n*Total Cost:* "
          ++ s.total_cost
          ++ "\n*Anomalies Detected:* "
          ++ itoa s.anomaly_count)
      ∷ [])
    ⧺ optional s.cost_increase_text (section ("*Top Cost Increases:*\n" ++ s.cost_increase_text))
    ⧺ optional s.cost_decrease_text (section ("*Top Cost Decreases:*\n" ++ s.cost_decrease_text))
    ⧺ optional s.anomaly_text (section ("*Top Anomalies:*\n" ++ s.anomaly_text))

abbrev inline_field : String → String → Bool → Json
inline_field name value b =
    object (field "name" (text name) (field "value" (text value) (field "inline" (flag b) end)))

unfoldable pub discord_fields : ReportSummary → List Json
discord_fields s =
    (inline_field "Period" s.period_range false
      ∷ inline_field "Total Cost" s.total_cost true
      ∷ inline_field "Anomalies Detected" (itoa s.anomaly_count) true
      ∷ [])
    ⧺ optional s.cost_increase_text (pair "name" "Top Cost Increases" "value" s.cost_increase_text)
    ⧺ optional s.cost_decrease_text (pair "name" "Top Cost Decreases" "value" s.cost_decrease_text)
    ⧺ optional s.anomaly_text (pair "name" "Top Anomalies" "value" s.anomaly_text)

unfoldable pub teams_sections : ReportSummary → List String
teams_sections s =
    optional s.cost_increase_text ("Top cost increases:\n\n" ++ s.cost_increase_text)
    ⧺ optional s.cost_decrease_text ("Top cost decreases:\n\n" ++ s.cost_decrease_text)
    ⧺ optional s.anomaly_text ("Top anomalies:\n\n" ++ s.anomaly_text)

abbrev teams_section : ReportSummary → List String → Json
teams_section s [] = object (
    field "facts"
      (array (
        items (
          pair "name" "Period" "value" s.period_range
          ∷ pair "name" "Total Cost" "value" s.total_cost
          ∷ pair "name" "Anomalies Detected" "value" (itoa s.anomaly_count)
          ∷ [])))
      end)
teams_section s (x ∷ xs) = object (
    field "facts"
      (array (
        items (
          pair "name" "Period" "value" s.period_range
          ∷ pair "name" "Total Cost" "value" s.total_cost
          ∷ pair "name" "Anomalies Detected" "value" (itoa s.anomaly_count)
          ∷ [])))
      (field "text" (text (join (x ∷ xs) "\n\n")) end))

pub telegram_text : ReportSummary → String
telegram_text s =
    s.title
    ++ "\n"
    ++ "Period: "
    ++ s.period_range
    ++ "\n"
    ++ "Total Cost: "
    ++ s.total_cost
    ++ "\n"
    ++ "Anomalies Detected: "
    ++ itoa s.anomaly_count
    ++ labelled "\n\nTop Cost Increases:\n" s.cost_increase_text
    ++ labelled "\n\nTop Cost Decreases:\n" s.cost_decrease_text
    ++ labelled "\n\nTop Anomalies:\n" s.anomaly_text

pub email_body : ReportSummary → String
email_body s =
    s.title
    ++ "\n\n"
    ++ "Period: "
    ++ s.period_range
    ++ "\n"
    ++ "Total Cost: "
    ++ s.total_cost
    ++ "\n"
    ++ "Anomalies Detected: "
    ++ itoa s.anomaly_count
    ++ "\n"
    ++ labelled "\nTop Cost Increases:\n" s.cost_increase_text
    ++ labelled "\nTop Cost Decreases:\n" s.cost_decrease_text
    ++ labelled "\nTop Anomalies:\n" s.anomaly_text

-- The headers that both emails have, and the body.
abbrev email : Webhook → String → String → String
email target title body =
    let subject =
      if target.subject_prefix == ""
      then title
      else trim_space target.subject_prefix ++ " " ++ title in
    join
      (("From: " ++ target.sender)
        ∷ ("To: " ++ join target.recipients ", ")
        ∷ ("Subject: " ++ subject)
        ∷ "MIME-Version: 1.0"
        ∷ "Content-Type: text/plain; charset=UTF-8"
        ∷ [])
      "\r\n"
    ++ "\r\n\r\n"
    ++ body

pub format_notification_email : Webhook → Notification → String
unfolding join trim_space notification_text
format_notification_email target n = email target n.title (n.title ++ "\n\n" ++ notification_text n)

module _ {F : Type 0} ⦃fl : Float64 F⦄ where
  pub format_slack : Webhook → Report F → Json
  unfolding slack_blocks
  format_slack target report =
      object (field "blocks" (array (items (slack_blocks (summarize target report)))) end)

  pub format_discord : Webhook → Report F → Json
  unfolding discord_fields
  format_discord target report =
      let s = summarize target report in
      object (
        field "embeds"
          (array (
            cons
              (object (
                field "title" (text s.title) (
                  field "color" (number (if ltb 0 s.anomaly_count then 15158332 else 3447003))
                    (field "fields" (array (items (discord_fields s))) end))))
              nil))
          end)

  pub format_teams : Webhook → Report F → Json
  unfolding teams_sections teams_color join
  format_teams target report =
      let s = summarize target report in
      object (
        field "@type" (text "MessageCard") (
          field "@context" (text "https://schema.org/extensions") (
            field "summary" (text s.title) (
              field "themeColor" (text (teams_color s.anomaly_count)) (
                field "title" (text s.title) (
                  field "sections" (array (cons (teams_section s (teams_sections s)) nil)) end))))))

  unfoldable pub format_telegram : (String → String) → Webhook → Report F → String ⊎ (String × Json)
  unfolding telegram_text
  format_telegram path_escape target report =
      telegram_message path_escape target (telegram_text (summarize target report))
        (telegram_endpoint path_escape target)

  pub format_email : Webhook → Report F → String
  unfolding email_body join trim_space
  format_email target report =
      let s = summarize target report in email target s.title (email_body s)
