-- ===== src/Tests.antt =====
-- Concrete inputs, and the theorems at them.
mod Data
mod Worker
mod Explain
mod Api
mod Startup
mod Process
mod Client
mod Pages
mod Copilot
mod Gemini
