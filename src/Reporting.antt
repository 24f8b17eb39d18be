-- ===== src/Reporting.antt =====
-- internal/core/reporting/service.go: which reports are due, what they hold, and their delivery.
pub mod Ranges
pub mod Windows
pub mod Movements
pub mod Top
pub mod Service
pub mod Building
pub mod Completeness
pub mod Delivery
pub mod Coverage
pub mod Once
mod Tests
