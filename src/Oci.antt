-- ===== src/Oci.antt =====
-- internal/adapters/providers/oci: which objects of the bucket the collector reads.
pub mod Names
pub mod Objects
pub mod Search
pub mod Listing
pub mod Mapper
pub mod Parser
mod Tests
