-- ===== src/Collect.antt =====
-- internal/core/collect/service.go and internal/core/normalize/service.go: the run of the collectors.
pub mod Normalize
pub mod Lookback
pub mod Batches
pub mod Run
pub mod Since
pub mod Counts
pub mod Results
mod Tests
