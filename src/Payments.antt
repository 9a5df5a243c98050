-- ===== src/Payments.antt =====
-- Events of the payment provider, the ledger of payments and checkouts: lib/billing/webhooks.ts,
-- lib/billing/subscriptions.ts and the rest of lib/db/repositories/billing.ts.
pub mod Rows
pub mod Ledger
pub mod Applying
pub mod Handling
pub mod Recorded
pub mod EventTable
pub mod EventRows
pub mod Deliveries
pub mod Steps
pub mod Once
pub mod Books
pub mod Rollback
pub mod Grants
mod Tests
