-- ===== src/Payments.antt =====
-- The payments service (apps/payments/src/payments): payments, their outbox, and the relay.
pub mod Model
pub mod Topics
pub mod Repository
pub mod Service
pub mod Relay
pub mod Draining
pub mod Contract
pub mod Explained
pub mod Inserting
pub mod Saving
pub mod Written
pub mod Requests
pub mod Serving
pub mod Stale
pub mod Marking
pub mod Publishing
mod Tests
