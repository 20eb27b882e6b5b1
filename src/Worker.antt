-- ===== src/Worker.antt =====
-- The NestJS worker (worker/src): it consumes Kafka messages, writes to PostgreSQL, evaluates
-- deterministic rules, finalises device commands and publishes results.
pub mod Contracts
pub mod Rule
pub mod Config
pub mod Store
pub mod Postgres
pub mod Services
pub mod Consumer
pub mod Writes
pub mod History
pub mod Startup
pub mod Process
