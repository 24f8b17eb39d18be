-- ===== src/Postgres.antt =====
-- internal/adapters/postgres: what the adapter does besides its SQL.
pub mod Migrator
mod Tests
