-- ===== src/Watcher.antt =====
-- The deposit watcher (depositwatcher/internal): classification of transfers, the finality tracker.
pub mod Classify
pub mod Money
pub mod Transfers
pub mod Pool
pub mod Tracker
mod Tests
