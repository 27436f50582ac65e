-- ===== src/Ledger/Tests.antt =====
-- Runs of the ledger at fixed inputs: a chart of two accounts, a deposit, its reversal, an order.
pub mod Data
mod Books
mod Orders
mod Reorgs
mod Codes
mod Recon
