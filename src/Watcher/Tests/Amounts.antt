-- ===== src/Watcher/Tests/Amounts.antt =====
-- Runs of the amounts of the watcher at fixed inputs.
use usdt_settlement_corridor.Base.{
  ◌^◌, ◌≡◌, refl, false, [], ◌∷◌, ◌++◌, none, some, inl, inr, arith, replicate, if◌then◌else◌,
}
use usdt_settlement_corridor.Base.Int.{pos, negsuc, neg64, wrap64, ◌-ℤ◌, eqb_ℤ, min_int64}
use usdt_settlement_corridor.Base.Text.{bytes, text_eq}
use usdt_settlement_corridor.Ledger.Error.{ok, err, overflow}
use usdt_settlement_corridor.Ledger.Money.{usdt_bep20}
use usdt_settlement_corridor.Ledger.Money.Decimal.{
  parse_decimal, cut, contains, is_digits, all_digits, parse_int64, digits_value, split_sign,
  format_int, format_nat, pad_to,
}
use usdt_settlement_corridor.Watcher.Money.{
  coarse_decimals, amount_overflow, from_on_chain_units, read_parts, read_decimal, show_decimal,
}
use usdt_settlement_corridor.Watcher.Money.Wire.{units_of, read_decimal-parse, show_decimal-read}
use usdt_settlement_corridor.Watcher.Transfers.{
  Log, Transfer, wrong_token, set_bytes, transfer_of, parse_topics, parse_transfer_log,
  IsTransferOf, parse_transfer_log_amount,
}

decimal_runs :
    (read_decimal (bytes "-0.5") ≡ some (negsuc 499_999))
    × (read_decimal (bytes "+3000") ≡ some (pos 3_000_000_000))
    × (read_decimal (bytes "1.0000001") ≡ none)
    × (read_decimal (bytes "1.2.3") ≡ none)
    × (read_decimal (bytes "-") ≡ none)
    × (show_decimal (negsuc 499_999) ≡ bytes "-0.500000")
    × (from_on_chain_units (pos 1_999_999_999_999) 18 ≡ inr (pos 1))
    × (from_on_chain_units (pos 5) 4 ≡ inl coarse_decimals)
    × (from_on_chain_units (pos (10 ^ 31)) 18 ≡ inl amount_overflow)
unfolding read_decimal read_parts show_decimal from_on_chain_units cut contains is_digits all_digits
    parse_int64 digits_value split_sign format_int format_nat pad_to neg64 wrap64 ◌-ℤ◌
decimal_runs = (refl, refl, refl, refl, refl, refl, refl, refl, refl)

read_decimal-parse_example :
    units_of (parse_decimal (bytes "-0.5") usdt_bep20) ≡ read_decimal (bytes "-0.5")
read_decimal-parse_example = read_decimal-parse (bytes "-0.5")

show_decimal-read_example :
    (parse_decimal (show_decimal (negsuc 499_999)) usdt_bep20 ≡ (
      if eqb_ℤ (negsuc 499_999) min_int64
      then err overflow
      else ok (record { asset = usdt_bep20; units = negsuc 499_999 })))
    × (read_decimal (show_decimal (negsuc 499_999))
        ≡ (if eqb_ℤ (negsuc 499_999) min_int64 then none else some (negsuc 499_999)))
show_decimal-read_example = show_decimal-read (negsuc 499_999) (omega arith, omega arith)

-- A transfer of 5 * 10^18 + 1 units of the contract: five dollars, rounded down.
abbrev sent : Log
sent = record {
  address = bytes "usdt";
  topics = bytes "transfer" ∷ bytes "from" ∷ bytes "to" ∷ [];
  payload = replicate 24 0 ++ (69 ∷ 99 ∷ 145 ∷ 130 ∷ 68 ∷ 244 ∷ 0 ∷ 1 ∷ []);
  block_number = 10;
  tx_hash = 7 ∷ 255 ∷ [];
  tx_index = 2;
  log_index = 3;
  block_hash = 170 ∷ [];
  removed = false;
}

abbrev received : Transfer
received = record { sender = bytes "from"; receiver = bytes "to"; amount = pos 5_000_000 }

transfer_runs :
    (parse_transfer_log (bytes "transfer") (λ a. a) sent ≡ inr received)
    × (parse_transfer_log (bytes "approval") (λ a. a) sent ≡ inl wrong_token)
unfolding parse_transfer_log parse_topics transfer_of from_on_chain_units set_bytes text_eq
transfer_runs = (refl, refl)

parse_transfer_log_amount_example :
    IsTransferOf (bytes "transfer") (λ a. a) sent.topics sent.payload received
parse_transfer_log_amount_example =
    parse_transfer_log_amount (bytes "transfer") (λ a. a) sent received transfer_runs.0
