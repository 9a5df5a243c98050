-- ===== src/Workers.antt =====
-- The registry of workers (lib/jobs/worker-registry.ts).
pub mod Registry
pub mod Fleet
mod Tests
