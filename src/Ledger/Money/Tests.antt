-- ===== src/Ledger/Money/Tests.antt =====
-- Runs of ledger/internal/money at fixed inputs.
use usdt_settlement_corridor.Base.{◌≡◌, refl, true, if◌then◌else◌, arith}
use usdt_settlement_corridor.Base.Int.{ℤ, pos, negsuc, neg64, wrap64, ◌-ℤ◌, min_int64, eqb_ℤ}
use usdt_settlement_corridor.Base.Text.{Text, bytes}
use usdt_settlement_corridor.Ledger.Error.{ok, err, invalid_decimal, too_many_decimals, overflow}
use usdt_settlement_corridor.Ledger.Money.{
  trx, bnb, usdt_trc20, Amount, decimals, valid, neg, validate,
}
use usdt_settlement_corridor.Ledger.Money.RoundTrip.{format-parse}
use usdt_settlement_corridor.Ledger.Money.Decimal.{
  parse_decimal, parse_unsigned, split_sign, format, format_int, format_nat, pad_to,
}

abbrev usdt : ℤ → Amount
usdt n = record { asset = usdt_trc20; units = n }

parse_negative :
    parse_decimal (bytes "-0.5") trx ≡ ok (record { asset = trx; units = negsuc 499999 })
unfolding parse_decimal parse_unsigned split_sign decimals neg validate neg64 wrap64 ◌-ℤ◌
parse_negative = refl

parse_leading_dot : parse_decimal (bytes ".5") trx ≡ ok (record { asset = trx; units = pos 500000 })
unfolding parse_decimal parse_unsigned split_sign decimals neg validate neg64 wrap64 ◌-ℤ◌
parse_leading_dot = refl

parse_double_dot : parse_decimal (bytes "1..5") trx ≡ err invalid_decimal
unfolding parse_decimal parse_unsigned split_sign decimals neg validate neg64 wrap64 ◌-ℤ◌
parse_double_dot = refl

parse_bnb_ten : parse_decimal (bytes "0.0000000001") bnb ≡ err too_many_decimals
unfolding parse_decimal parse_unsigned split_sign decimals neg validate neg64 wrap64 ◌-ℤ◌
parse_bnb_ten = refl

format_usdt :
    format (record { asset = usdt_trc20; units = pos 2990700000 }) ≡ ok (bytes "2990.700000")
unfolding format validate decimals format_int format_nat pad_to
format_usdt = refl

trx_decimals : (decimals trx ≡ ok 6) × (valid trx ≡ true)
unfolding decimals valid
trx_decimals = (refl, refl)

format-parse_example :
    (s : Text) × (format (record { asset = trx; units = min_int64 }) ≡ ok s)
    × (parse_decimal s trx ≡ (
        if eqb_ℤ min_int64 min_int64
        then err overflow
        else ok (record { asset = trx; units = min_int64 })))
format-parse_example = format-parse trx min_int64 trx_decimals.1 (omega arith, omega arith)
