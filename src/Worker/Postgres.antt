-- ===== src/Worker/Postgres.antt =====
-- worker/src/persistence/postgres-service.ts, a module for each group of its methods.
pub mod Telemetry
pub mod Retention
pub mod Records
pub mod Rules
pub mod Commands
