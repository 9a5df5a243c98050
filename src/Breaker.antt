-- ===== src/Breaker.antt =====
-- The circuit breaker of browser starts (lib/runtime/breaker.ts).
pub mod Model
pub mod Laws
mod Tests
