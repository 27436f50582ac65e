-- ===== src/Gateway/Tests.antt =====
-- Quotes at fixed amounts.
use usdt_settlement_corridor.Base.{◌≡◌, refl, arith}
use usdt_settlement_corridor.Base.Int.{pos, ◌-ℤ◌, ◌+ℤ◌, sub64, wrap64}
use usdt_settlement_corridor.Gateway.Pricing.{
  direct, standard, sweep, unknown, unknown_tier, non_positive_amount, amount_too_small, Quote,
  no_quote, quote, rate_in, rate_for, mul64, quot64, fee_of, with_fee, compute_quote, fee_floor,
}
use usdt_settlement_corridor.Gateway.Pricing.Sums.{AddsUp, compute_quote-AddsUp}

abbrev five_thousand : Quote
five_thousand = record {
  tier = standard;
  amount_in = pos 5_000_000_000;
  fee_units = pos 12_500_000;
  network_fee = pos 1_800_000;
  amount_out = pos 4_985_700_000;
}

quotes :
    (compute_quote standard (pos 5_000_000_000) ≡ quote five_thousand)
    × (compute_quote direct (pos 4_340_000) ≡ no_quote amount_too_small)
    × (compute_quote unknown (pos 5) ≡ no_quote unknown_tier)
    × (compute_quote sweep (pos 0) ≡ no_quote non_positive_amount)
unfolding compute_quote rate_for rate_in fee_of quot64 mul64 wrap64 with_fee sub64 ◌-ℤ◌ ◌+ℤ◌
quotes = (refl, refl, refl, refl)

-- The product with the rate wraps beyond 2^63 / 35, and the fee falls to the floor.
wrapped_fee : fee_of (pos 400_000_000_000_000_000) 35 ≡ fee_floor
unfolding fee_of quot64 mul64 wrap64 ◌-ℤ◌ ◌+ℤ◌
wrapped_fee = refl

compute_quote-AddsUp_example : AddsUp standard (pos 5_000_000_000) five_thousand
unfolding compute_quote rate_for rate_in fee_of quot64 mul64 wrap64 with_fee sub64 ◌-ℤ◌ ◌+ℤ◌
compute_quote-AddsUp_example =
    compute_quote-AddsUp standard (pos 5_000_000_000) five_thousand (omega arith, omega arith) refl
