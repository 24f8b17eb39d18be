-- ===== src/Intelligence.antt =====
-- internal/core/intelligence/service.go: AI notes on anomalies and waste findings, made one by one from
-- a bounded queue.
pub mod Queue
pub mod Process
pub mod Order
pub mod Limits
pub mod Once
mod Tests
