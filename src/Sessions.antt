-- ===== src/Sessions.antt =====
-- The interactive browser sessions: lib/db/repositories/browser-sessions.ts, and the idle and
-- lifetime rules of lib/interactive/sweep.ts.
pub mod Row
pub mod Updates
pub mod Slots
pub mod Transitions
pub mod Histories
pub mod Events
pub mod EventBounds
pub mod EventAppends
mod Tests
