-- ===== src/Idempotency.antt =====
-- Idempotent requests of the public API (lib/idempotency/service.ts).
pub mod Model
pub mod Stability
mod Tests
