-- ===== src/Alerting/Texts.antt =====
-- What a message says of a report: its sections are those of the lists that are not empty.
use Prim.Native.String.{◌++◌}
use text.Mathlib.TextLemmas.{cons-ne-nil, append-eq-nil_iff}
use torvix.Prelude.{
  length, ap, ◌∙◌, if◌then◌else◌, Bool-cases, length, ℕ, ◌+◌, String, ◌≡◌, refl, ap, ◌∙◌, ◌≢◌, ◌⊎◌,
  inl, inr, List, [], ◌∷◌, arith, ◌==◌, eq_iff,
}
use torvix.Prelude.Float64.{Float64}
use torvix.Config.{Webhook}
use torvix.Domain.{Report, CostVariance, Anomaly}
use torvix.Alerting.Summary.{
  ReportSummary, summarize, format_cost_variances, format_anomalies, variance_line, anomaly_line,
}
use torvix.Alerting.Payload.{Json, telegram_endpoint, telegram_message}
use torvix.Alerting.Reports.{slack_blocks, discord_fields, teams_sections, format_telegram}

-- A text that begins with a character is not empty, whatever follows it.
append-ne-empty : (s t : String) → s ≢ "" → (s ++ t) ≢ ""
append-ne-empty s t h e = h ((append-eq-nil_iff {p = s} {q = t}).0 e).0

-- 1 for a list that is not empty, else 0
abbrev pub present {ℓ} : {A : Type ℓ} → List A → ℕ
present [] = 0
present (x ∷ xs) = 1

abbrev pub shown : String → ℕ
shown t = if t == "" then 0 else 1

shown-ne-empty : (t : String) → t ≢ "" → shown t ≡ 1
shown-ne-empty t h = ground (arith, eq_iff t "")

module _ {F : Type 0} ⦃fl : Float64 F⦄ (currency : String) where
  variance_line-ne-empty : (v : CostVariance F) → variance_line currency v ≢ ""
  unfolding variance_line
  variance_line-ne-empty v = append-ne-empty _ _ (cons-ne-nil _ _)

  anomaly_line-ne-empty : (a : Anomaly F) → anomaly_line currency a ≢ ""
  unfolding anomaly_line
  anomaly_line-ne-empty a = append-ne-empty _ _ (cons-ne-nil _ _)

  -- The text of the cost movements is empty exactly when there is none.
  shown-variances :
      (vs : List (CostVariance F)) → shown (format_cost_variances currency vs) ≡ present vs
  unfolding format_cost_variances
  shown-variances [] = refl
  shown-variances (v ∷ vs) =
      shown-ne-empty _ (append-ne-empty _ _ (append-ne-empty _ _ (variance_line-ne-empty v)))

  shown-anomalies :
      (found : List (Anomaly F)) → shown (format_anomalies currency found) ≡ present found
  unfolding format_anomalies
  shown-anomalies [] = refl
  shown-anomalies (a ∷ rest) =
      shown-ne-empty _ (append-ne-empty _ _ (append-ne-empty _ _ (anomaly_line-ne-empty a)))

-- The sections beside the fixed ones are those of the texts that are not empty.
sections : ReportSummary → ℕ
sections s = shown s.cost_increase_text + shown s.cost_decrease_text + shown s.anomaly_text

length-slack_blocks : (s : ReportSummary) → length (slack_blocks s) ≡ 2 + sections s
unfolding slack_blocks sections
length-slack_blocks s = ground arith

length-discord_fields : (s : ReportSummary) → length (discord_fields s) ≡ 3 + sections s
unfolding discord_fields sections
length-discord_fields s = ground arith

length-teams_sections : (s : ReportSummary) → length (teams_sections s) ≡ sections s
unfolding teams_sections sections
length-teams_sections s = ground arith

module _ {F : Type 0} ⦃fl : Float64 F⦄ (target : Webhook) (report : Report F) where
  -- How many of the report's three lists have an entry.
  abbrev pub lists_present : ℕ
  lists_present =
      present report.cost_increases + present report.cost_decreases + present report.anomalies

  sections-summarize : sections (summarize target report) ≡ lists_present
  unfolding sections summarize
  sections-summarize = omega (
    arith,
    shown-variances target.currency report.cost_increases,
    shown-variances target.currency report.cost_decreases,
    shown-anomalies target.currency report.anomalies,
  )

  -- In Slack, Discord and Teams messages there is one section for each of the report's lists of
  -- increases, decreases and anomalies that has an entry, beside the fixed blocks or fields, of
  -- which Slack has two, Discord three and Teams none.
  pub sections_of_report :
      (length (slack_blocks (summarize target report)) ≡ 2 + lists_present)
      × (length (discord_fields (summarize target report)) ≡ 3 + lists_present)
      × (length (teams_sections (summarize target report)) ≡ lists_present)
  sections_of_report =
      let s = summarize target report in
      (
        length-slack_blocks s ∙ ap (λ (n : ℕ). 2 + n) sections-summarize,
        length-discord_fields s ∙ ap (λ (n : ℕ). 3 + n) sections-summarize,
        length-teams_sections s ∙ sections-summarize,
      )

module _ (path_escape : String → String) (target : Webhook) where
  telegram_endpoint-ne-empty :
      (endpoint : String) → telegram_endpoint path_escape target ≡ inr endpoint → endpoint ≢ ""
  telegram_endpoint-ne-empty endpoint h e = elim (Bool-cases (target.url == "")) [
    | inl no_url ↦ elim (Bool-cases (target.bot_token == "")) [
      | inl no_token ↦ ground arith
      | inr token ↦
          append-ne-empty "https://api.telegram.org/bot"
            (path_escape target.bot_token ++ "/sendMessage") (cons-ne-nil _ _) (ground arith)
    ]
    | inr url ↦ ground (arith, eq_iff target.url "")
  ]

  telegram_message-inr :
      (message endpoint : String) (body : Json) (r : String ⊎ String)
      → telegram_message path_escape target message r ≡ inr (endpoint, body)
      → (r ≡ inr endpoint) × (target.chat_id ≢ "")
  telegram_message-inr message endpoint body (inl err) h = cc
  telegram_message-inr message endpoint body (inr e) h =
      (ground arith, λ q. ground (arith, eq_iff target.chat_id ""))

  -- A Telegram message that can be formatted has a chat and a non-empty endpoint, so posting it never
  -- fails for want of a URL.
  pub format_telegram_usable :
      {F : Type 0} ⦃fl : Float64 F⦄ (report : Report F) (endpoint : String) (body : Json)
      → format_telegram path_escape target report ≡ inr (endpoint, body)
      → (endpoint ≢ "") × (target.chat_id ≢ "")
  unfolding format_telegram
  format_telegram_usable report endpoint body h =
      let (found, chat) =
        telegram_message-inr _ endpoint body (telegram_endpoint path_escape target) h in
      (telegram_endpoint-ne-empty endpoint found, chat)
