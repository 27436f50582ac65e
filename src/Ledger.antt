-- ===== src/Ledger.antt =====
-- The ledger service (ledger/internal): money, accounts, journal, halt, orders, reconciliation.
pub mod Error
pub mod Money
pub mod Database
pub mod Accounts
pub mod Journal
pub mod Halt
pub mod Orders
mod Tests
pub mod Recon
