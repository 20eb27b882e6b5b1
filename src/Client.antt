-- ===== src/Client.antt =====
-- The code of the browser: lib/client and domain/ontology.ts
pub mod Policy
pub mod Timeline
pub mod Consent
pub mod Action
pub mod Studio
pub mod Copilot
pub mod Dashboard
pub mod Layout
pub mod GraphView
pub mod App
