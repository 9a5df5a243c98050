-- ===== src/Webhooks.antt =====
-- Webhook deliveries (lib/webhooks/deliver.ts and the delivery rows of lib/organizations/repository.ts).
pub mod Model
pub mod Attempts
mod Tests
