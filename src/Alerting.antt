-- ===== src/Alerting.antt =====
-- internal/core/alerting/service.go: reports and notifications as messages, and their delivery.
pub mod Summary
pub mod Payload
pub mod Reports
pub mod Delivery
pub mod Destinations
pub mod Sending
pub mod Texts
mod Tests
