-- ===== src/Ledger/Orders.antt =====
-- ledger/internal/orders: the order state machine. The children hold the table of transitions,
-- creating and moving orders, and the proofs.
pub mod Machine
pub mod Create
pub mod Transition
pub mod Outcomes
pub mod Invariant
pub mod Moves
pub mod History
pub mod Race
pub mod Effect
pub mod Reorg
pub mod Reorgs
pub mod Losses
pub mod Retries
pub mod Halts
pub mod Standstill
