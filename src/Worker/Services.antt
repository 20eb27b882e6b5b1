-- ===== src/Worker/Services.antt =====
-- The services between the consumer and PostgreSQL (worker/src/{telemetry,mastra,agent-result,audit,
-- dead-letter,commands}). Log lines are not modelled.
pub mod Decision
pub mod DeadLetters
pub mod Handlers
