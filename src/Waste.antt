-- ===== src/Waste.antt =====
-- internal/waste: the inventory of the cloud, the rules about it, and the service that runs them.
pub mod Types
pub mod Exclusion
pub mod Signals
pub mod Catalog
pub mod Unused
pub mod Stopped
pub mod Rules
pub mod Results
pub mod Defaults
pub mod Engine
pub mod Findings
mod Tests
