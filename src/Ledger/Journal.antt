-- ===== src/Ledger/Journal.antt =====
-- ledger/internal/journal: the append-only, balanced journal. The children hold the requests and
-- their validation, posting, reversing and balance reads, and the proofs about them.
pub mod Entry
pub mod Posting
pub mod Reversing
pub mod Balances
pub mod Sums
pub mod Validation
pub mod Totals
pub mod Invariant
pub mod Append
pub mod Outcomes
pub mod Replay
pub mod Hash
pub mod Negation
pub mod Reversal
pub mod SelfCheck
pub mod History
pub mod Opening
