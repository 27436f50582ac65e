-- ===== src/Gateway.antt =====
-- The gateway (gateway/internal): what a payout costs.
pub mod Pricing
mod Tests
