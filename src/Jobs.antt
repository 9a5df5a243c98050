-- ===== src/Jobs.antt =====
-- The background job queue: lib/db/repositories/jobs.ts, lib/jobs/queue.ts and lib/jobs/retry.ts.
pub mod Row
pub mod Updates
pub mod Queries
pub mod Claim
pub mod Queue
pub mod Retry
pub mod Ops
pub mod Shapes
pub mod Lifecycle
pub mod Soundness
pub mod Claiming
pub mod ClaimOrder
pub mod Fairness
pub mod Histories
pub mod Endings
pub mod Recovering
pub mod Cancelling
pub mod Queueing
pub mod Backoff
mod Tests
mod QueueTests
