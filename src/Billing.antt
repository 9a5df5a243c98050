-- ===== src/Billing.antt =====
-- Plans, subscriptions, entitlements and quota: lib/billing and lib/db/repositories/{billing,quota}.ts.
pub mod Plans
pub mod Catalog
pub mod Subscriptions
pub mod Effective
pub mod Entitlements
pub mod Quota
pub mod CatalogBounds
pub mod Access
pub mod Upserts
pub mod QuotaBounds
pub mod QuotaHistory
pub mod Reservations
mod Tests
