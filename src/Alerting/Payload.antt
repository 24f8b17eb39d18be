-- ===== src/Alerting/Payload.antt =====
-- The messages that each kind of webhook gets: the format functions of service.go. A `map[string]any`
-- is a JSON object with its keys in the order of the source's literal, and an email is its text.
use Prim.Native.String.{◌++◌}
use torvix.Prelude.{
  ltb, if◌then◌else◌, ℕ, String, ◌⊎◌, inl, inr, Bool, true, false, not, ◌||◌, List, [], ◌∷◌, map,
  ◌==◌,
}
use torvix.Prelude.Text.{to_lower}
use torvix.Config.{Webhook}

mutual
  pub data Json : Type 0 where
    text : String → Json
    number : ℕ → Json
    flag : Bool → Json
    array : Items → Json
    object : Fields → Json

  pub data Items : Type 0 where
    nil : Items
    cons : Json → Items → Items

  pub data Fields : Type 0 where
    end : Fields
    field : String → Json → Fields → Fields

-- The object with one more entry, where the condition holds.
abbrev pub field_if : Bool → String → Json → Fields → Fields
field_if true k v rest = field k v rest
field_if false k v rest = rest

abbrev pub items : List Json → Items
items [] = nil
items (x ∷ xs) = cons x (items xs)

-- An object with the two texts.
abbrev pub pair : String → String → String → String → Json
pair k v l w = object (field k (text v) (field l (text w) end))

pub record NotificationField : Type 0 where
  pub name : String
  pub value : String

pub record Notification : Type 0 where
  pub title : String
  pub severity : String
  pub message : String
  pub fields : List NotificationField

-- The loop of notificationText, over the text so far.
append_fields : String → List NotificationField → String
append_fields b [] = b
append_fields b (f ∷ rest) =
    append_fields ((if b == "" then b else b ++ "\n") ++ f.name ++ ": " ++ f.value) rest

unfoldable pub notification_text : Notification → String
unfolding append_fields
notification_text n = append_fields n.message n.fields

abbrev is_error : String → Bool
is_error s = s == "error" || s == "failed" || s == "failure"

abbrev is_warning : String → Bool
is_warning s = s == "warning" || s == "partial_failure"

pub notification_color : String → ℕ
unfolding to_lower
notification_color severity =
    let s = to_lower severity in
    if is_error s then 15158332 else if is_warning s then 16776960 else 3066993

pub notification_color_hex : String → String
unfolding to_lower
notification_color_hex severity =
    let s = to_lower severity in
    if is_error s then "E81123" else if is_warning s then "FFCC00" else "2ECC71"

unfoldable pub teams_color : ℕ → String
teams_color anomaly_count = if ltb 0 anomaly_count then "E81123" else "0076D7"

-- A Slack block of the type "section".
abbrev pub section : String → Json
section s =
    object (field "type" (text "section") (field "text" (pair "type" "mrkdwn" "text" s) end))

abbrev pub header : String → Json
header s =
    object (field "type" (text "header") (field "text" (pair "type" "plain_text" "text" s) end))

pub format_slack_notification : Notification → Json
unfolding notification_text
format_slack_notification n =
    object (
      field "blocks" (array (cons (header n.title) (cons (section (notification_text n)) nil))) end)

abbrev discord_field : NotificationField → Json
discord_field f =
    object
      (field "name" (text f.name) (field "value" (text f.value) (field "inline" (flag true) end)))

pub format_discord_notification : Notification → Json
unfolding notification_color
format_discord_notification n = object (
    field "embeds"
      (array (
        cons
          (object (
            field "title" (text n.title) (
              field "description" (text n.message) (
                field "color" (number (notification_color n.severity))
                  (field "fields" (array (items (map discord_field n.fields))) end)))))
          nil))
      end)

abbrev fact : NotificationField → Json
fact f = pair "name" f.name "value" f.value

pub format_teams_notification : Notification → Json
unfolding notification_color_hex
format_teams_notification n = object (
    field "@type" (text "MessageCard") (
      field "@context" (text "https://schema.org/extensions") (
        field "summary" (text n.title) (
          field "themeColor" (text (notification_color_hex n.severity)) (
            field "title" (text n.title) (
              field "text" (text n.message) (
                field "sections"
                  (array
                    (cons (object (field "facts" (array (items (map fact n.fields))) end)) nil))
                  end)))))))

-- url.PathEscape, of the net/url package
module _ (path_escape : String → String) where
  -- The endpoint that both Telegram formats use, or the error.
  abbrev pub telegram_endpoint : Webhook → String ⊎ String
  telegram_endpoint target =
      if target.url == ""
      then (if target.bot_token == ""
          then inl (target.name ++ " telegram bot_token or url is required")
          else inr
              ("https://api.telegram.org/bot" ++ path_escape target.bot_token ++ "/sendMessage"))
      else inr target.url

  -- The rest of both: the message to the chat, once there is an endpoint. An error is `inl`.
  abbrev pub telegram_message : Webhook → String → String ⊎ String → String ⊎ (String × Json)
  telegram_message target message (inl err) = inl err
  telegram_message target message (inr endpoint) =
      if target.chat_id == ""
      then inl (target.name ++ " telegram chat_id is required")
      else inr (
        endpoint,
        object (
            field "chat_id" (text target.chat_id) (
              field "text" (text message) (
                field_if (not (target.parse_mode == "")) "parse_mode" (text target.parse_mode)
                  end))),
      )

  pub format_telegram_notification : Webhook → Notification → String ⊎ (String × Json)
  unfolding notification_text
  format_telegram_notification target n =
      telegram_message target (n.title ++ "\n" ++ notification_text n) (telegram_endpoint target)
