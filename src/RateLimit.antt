-- ===== src/RateLimit.antt =====
-- The fixed-window limiter of lib/auth/rate-limit.ts.
pub mod Model
pub mod Windows
mod Tests
