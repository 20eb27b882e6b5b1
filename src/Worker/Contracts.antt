-- ===== src/Worker/Contracts.antt =====
-- The shapes of the messages that the worker consumes, and their validation (worker/src/contracts).
pub mod Telemetry
pub mod CommandResult
