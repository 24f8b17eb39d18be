-- ===== src/Config.antt =====
-- internal/config/config.go: the configuration, its file, its environment and its defaults.
pub mod Webhooks
pub mod Types
pub mod Names
pub mod Environment
pub mod Defaults
pub mod Limits
pub mod Load
mod Tests
pub use Webhooks.{Webhook}
