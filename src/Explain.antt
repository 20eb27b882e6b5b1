-- ===== src/Explain.antt =====
-- The workflow that explains an event (lib/explain, lib/ai/llm/explain-review.ts).
pub mod Trace
pub mod Review
pub mod Workflow
pub mod Evidence
pub mod Grounded
pub mod Explanation
pub mod Total
pub mod Fallback
pub mod Stages
