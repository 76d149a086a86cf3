-- ===== src/Setup.antt =====
-- The start of the service (main.go, setup/setup.go, persistence/sql_init.go).
pub mod Config
pub mod Database
pub mod Service
pub mod Shards
pub mod Storage
pub mod Examples
