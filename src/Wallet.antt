-- ===== src/Wallet.antt =====
-- The wallet context (apps/aria/src/aria/contexts/wallet): balances, the ledger, donations with
-- the ranking of their donors, and the consumer of the credit events that the payments service
-- sends.
pub mod Model
pub mod Repository
pub mod Ranking
pub mod Totals
pub mod Grouping
pub mod Falling
pub mod Service
pub mod Donating
pub mod Events
pub mod Granting
pub mod Consumer
pub mod Consuming
pub mod Deliveries
pub mod Delivery
pub mod Once
mod Tests
