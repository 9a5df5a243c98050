-- ===== src/Policies.antt =====
-- The quality gates of an organization (lib/policies/service.ts).
pub mod Rules
pub mod Storing
pub mod Evaluation
pub mod Verdicts
pub mod Passing
mod Tests
