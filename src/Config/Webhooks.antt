-- ===== src/Config/Webhooks.antt =====
-- internal/config/config.go: a webhook, the destination of messages.
use torvix.Prelude.{Bool, List, String}
use torvix.Prelude.Int.{ℤ}

pub record Webhook : Type 0 where
  pub name : String
  pub kind : String
  pub url : String
  pub enabled : Bool
  pub currency : String
  pub bot_token : String
  pub chat_id : String
  pub parse_mode : String
  pub smtp_host : String
  pub smtp_port : ℤ
  pub username : String
  pub password : String
  pub sender : String
  pub recipients : List String
  pub subject_prefix : String
