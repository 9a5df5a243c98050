-- ===== src/Interactive.antt =====
-- The interactive service above its tables: lib/interactive/service.ts, lib/interactive/limits.ts and
-- lib/interactive/sweep.ts, which join sessions, jobs and quota reservations.
pub mod World
pub mod Starting
pub mod Stopping
pub mod Sweep
pub mod Created
pub mod Stops
pub mod Moves
pub mod Sweeps
pub mod Lifetimes
mod Tests
