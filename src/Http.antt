-- ===== src/Http.antt =====
-- internal/ports/http: the store of background ingestion jobs, and what the goroutine of a job does.
pub mod Jobs
pub mod Ingestion
mod Tests
