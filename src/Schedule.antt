-- ===== src/Schedule.antt =====
-- internal/app/report_cron.go: when the daily and the weekly report are sent.
pub mod Cron
pub mod Range
pub mod Next
mod Tests
