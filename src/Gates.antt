-- ===== src/Gates.antt =====
-- The gates of continuous integration (lib/ci/gates.ts).
pub mod Model
pub mod Laws
mod Tests
