-- ===== src/Alerting/Tests.antt =====
-- The alerting theorems at two webhooks, one report and a network that answers 200 to all but one
-- address.
use torvix.Prelude.{
  get_elem?, if◌then◌else◌, ℕ, ◌+◌, String, ◌≡◌, refl, ◌⊎◌, inl, inr, true, false, Option, none,
  some, List, [], ◌∷◌, ◌==◌,
}
use torvix.Prelude.Int.{pos, ℤ}
use torvix.Prelude.Whole.{whole_floats}
use torvix.Prelude.Text.{itoa}
use torvix.Prelude.Keys.{contains}
use torvix.Prelude.Clock.{zero_time, day}
use torvix.Config.{Webhook}
use torvix.Domain.{Report}
use torvix.Alerting.Payload.{Json, text, Notification}
use torvix.Alerting.Reports.{format_telegram}
use torvix.Alerting.Delivery.{
  post_error, destinations_from, Transport, response, failed, report_destinations,
  send_report_to_destination, send_one, send_all, send_report, report_destination, post_json,
  send_email, mail_error,
}
use torvix.Alerting.Destinations.{listed_is_sent}
use torvix.Alerting.Sending.{Ends, send_report-Ends}

abbrev slack_hook : Webhook
slack_hook = record {
  name = "";
  kind = "Slack";
  url = "https://hooks.example/slack";
  enabled = true;
  currency = "USD";
  bot_token = "";
  chat_id = "";
  parse_mode = "";
  smtp_host = "";
  smtp_port = pos 0;
  username = "";
  password = "";
  sender = "";
  recipients = [];
  subject_prefix = "";
}

abbrev telegram_hook : Webhook
telegram_hook = record slack_hook {
  name = "ops";
  kind = "telegram";
  url = "https://down.example";
  chat_id = "42";
}

abbrev mail_hook : Webhook
mail_hook = record slack_hook {
  name = "finance";
  kind = "email";
  url = "";
  smtp_host = "mail.example";
  sender = "torvix@example";
  recipients = "team@example" ∷ [];
}

abbrev hooks : List Webhook
hooks = slack_hook ∷ record slack_hook { enabled = false } ∷ mail_hook ∷ telegram_hook ∷ []

-- The world is the list of the addresses that were written to, the last one first.
abbrev network : Transport (List String)
network = record {
  post = λ endpoint body w. (
    if endpoint == "https://down.example" then failed "timeout" else response 200 "200 OK",
    endpoint ∷ w,
  );
  send_mail = λ m w. (none, m.addr ∷ w);
  path_escape = λ s. s;
  quote = λ s. s;
}

abbrev report : Report ℤ
report = record {
  period = "daily";
  from = zero_time;
  to = zero_time + day;
  generated = zero_time + day;
  summary = [];
  anomalies = [];
  forecast = [];
  cost_increases = [];
  cost_decreases = [];
}

abbrev notice : Notification
notice = record {
  title = "Ingestion finished";
  severity = "success";
  message = "oci";
  fields = record { name = "records"; value = "12" } ∷ [];
}

-- The report goes to the first and the third webhook, and ends at the one that is down.
test_send_report : send_report network hooks report [] ≡ (
  some "ops notifier post: timeout",
  "https://down.example" ∷ "mail.example:587" ∷ "https://hooks.example/slack" ∷ [],
)
unfolding send_report send_all send_one post_json send_email post_error mail_error format_telegram
    itoa
test_send_report = refl

test_destinations : report_destinations hooks ≡ "slack-1" ∷ "finance" ∷ "ops" ∷ []
unfolding report_destinations destinations_from report_destination itoa
test_destinations = refl

finance_is_listed : contains "finance" (report_destinations hooks) ≡ true
finance_is_listed = rw test_destinations refl

listed_is_sent_example :
    (t : Webhook) × (i : ℕ) × (get_elem? hooks i ≡ some t)
    × (t.enabled ≡ true)
    × (report_destination t i ≡ "finance")
    × (send_report_to_destination network hooks "finance" report [] ≡ send_one network t report [])
listed_is_sent_example = listed_is_sent network report [] hooks "finance" finance_is_listed

nobody_is_unlisted : contains "nobody" (report_destinations hooks) ≡ false
nobody_is_unlisted = rw test_destinations refl

send_report-Ends_example :
    Ends (λ t. send_one network t report) hooks [] (send_report network hooks report [])
send_report-Ends_example = send_report-Ends network hooks report []

abbrev posted : Option String × List String
posted = post_json network slack_hook "https://hooks.example/slack" (text "hello") []

abbrev mailed : Option String × List String
mailed = send_email network mail_hook "hello" []

abbrev body_of : String ⊎ (String × Json) → Json
body_of (inl err) = text err
body_of (inr (endpoint, body)) = body

abbrev message : String ⊎ (String × Json)
message = format_telegram (λ s. s) telegram_hook report

has_message : message ≡ inr ("https://down.example", body_of message)
unfolding format_telegram
has_message = refl
