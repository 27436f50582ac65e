-- ===== src/Gateway/Pricing.antt =====
-- gateway/internal/pricing: the fee of an amount, by tier and bracket, in int64.
use usdt_settlement_corridor.Base.{
  ℕ, ◌/◌, ◌*◌, ◌^◌, zero, suc, Bool, true, false, ◌||◌, List, [], ◌∷◌, Option, none, some,
  if◌then◌else◌,
}
use usdt_settlement_corridor.Base.Int.{ℤ, pos, negsuc, ◌-ℤ◌, sub64, wrap64, ltb_ℤ, leb_ℤ, eqb_ℤ}
pub mod Sums

pub data Tier : Type 0 where
  direct standard sweep unknown : Tier

abbrev pub network_fee_units : Tier → Option ℤ
network_fee_units direct = some (pos 2_540_000)
network_fee_units standard = some (pos 1_800_000)
network_fee_units sweep = some (pos 1_000_000)
network_fee_units unknown = none

abbrev pub fee_floor : ℤ
fee_floor = pos 1_800_000

pub record Bracket : Type 0 where
  pub upper_bound : ℤ
  pub rate_tenths_of_bp : ℕ

abbrev pub brackets : List Bracket
brackets =
    record { upper_bound = pos 1_000_000_000; rate_tenths_of_bp = 400 }
    ∷ record { upper_bound = pos 10_000_000_000; rate_tenths_of_bp = 250 }
    ∷ record { upper_bound = pos 100_000_000_000; rate_tenths_of_bp = 120 }
    ∷ record { upper_bound = pos 1_000_000_000_000; rate_tenths_of_bp = 60 }
    ∷ record { upper_bound = pos 0; rate_tenths_of_bp = 35 }
    ∷ []

-- The loop of `rateFor`, none where it would panic.
unfoldable pub rate_in : List Bracket → ℤ → Option ℕ
rate_in [] amount = none
rate_in (b ∷ rest) amount =
    if eqb_ℤ b.upper_bound (pos 0) || ltb_ℤ amount b.upper_bound
    then some b.rate_tenths_of_bp
    else rate_in rest amount

unfoldable pub rate_for : ℤ → Option ℕ
rate_for amount = rate_in brackets amount

pub data QuoteError : Type 0 where
  unknown_tier non_positive_amount amount_too_small unreachable : QuoteError

pub record Quote : Type 0 where
  pub tier : Tier
  pub amount_in : ℤ
  pub fee_units : ℤ
  pub network_fee : ℤ
  pub amount_out : ℤ

pub data Quoted : Type 0 where
  no_quote : QuoteError → Quoted
  quote : Quote → Quoted

-- `int64 * int64` with a factor that is not negative, and `/` of int64, which rounds towards zero.
unfoldable pub mul64 : ℤ → ℕ → ℤ
mul64 (pos m) n = wrap64 (pos (m * n))
mul64 (negsuc m) zero = pos 0
mul64 (negsuc m) (suc n) = wrap64 (pos 0 -ℤ pos (suc m * suc n))

unfoldable pub quot64 : ℤ → ℕ → ℤ
quot64 (pos m) n = pos (m / n)
quot64 (negsuc m) n = pos 0 -ℤ pos (suc m / n)

unfoldable pub fee_of : ℤ → ℕ → ℤ
fee_of amount rate =
    let fee = quot64 (mul64 amount rate) 100_000 in if ltb_ℤ fee fee_floor then fee_floor else fee

unfoldable pub with_fee : Tier → ℤ → ℤ → ℤ → Quoted
with_fee tier amount net_fee fee =
    let amount_out = sub64 (sub64 amount fee) net_fee in
    if leb_ℤ amount_out (pos 0)
    then no_quote amount_too_small
    else quote (record {
      tier = tier;
      amount_in = amount;
      fee_units = fee;
      network_fee = net_fee;
      amount_out = amount_out;
    })

-- `ComputeQuote`.
unfoldable pub compute_quote : Tier → ℤ → Quoted
compute_quote tier amount = elim (network_fee_units tier) [
  | none ↦ no_quote unknown_tier
  | some net_fee ↦
      if leb_ℤ amount (pos 0) then no_quote non_positive_amount else elim (rate_for amount) [
        | none ↦ no_quote unreachable
        | some rate ↦ with_fee tier amount net_fee (fee_of amount rate)
      ]
]
