-- ===== src/Api.antt =====
-- The routes of the web application that call a language model, and what they rest on.
pub mod RateLimit
pub mod Rules
pub mod Chat
pub mod Propose
pub mod Gemini
pub mod ExplainEvent
pub mod Gateway
