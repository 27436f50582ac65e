-- ===== src/Dispatcher/Entering/Quoted.antt =====
-- From a quote of the gateway to the conversion entry of the dispatcher: the entry balances.
use usdt_settlement_corridor.Base.{◌≡◌, refl, ap, ◌∙◌, arith}
use usdt_settlement_corridor.Base.Int.{ℤ, pos, pos_part, neg_part, IsInt64, int_laws, parts_zero}
use usdt_settlement_corridor.Ledger.Money.{usdt_bep20, usdt_trc20}
use usdt_settlement_corridor.Gateway.Pricing.{Tier, Quote, quote, compute_quote}
use usdt_settlement_corridor.Gateway.Pricing.Sums.{compute_quote-AddsUp, known_fee, positive_in}
use usdt_settlement_corridor.Dispatcher.Entering.{LedgerOrder, build_conversion_lines}
use usdt_settlement_corridor.Dispatcher.Entering.Lines.{line_total, IsUnits, conversion_balanced}

-- An order that the ledger keeps with the amounts of a quote.
pub record IsQuoted (o : LedgerOrder) (q : Quote) : Type 0 where
  pub amount_in : o.amount_in ≡ q.amount_in
  pub amount_out : o.amount_out ≡ q.amount_out
  pub fee : o.fee_units ≡ q.fee_units
  pub network_fee : o.network_fee_units ≡ q.network_fee

-- For every tier and every int64 amount that ComputeQuote quotes: the conversion entry that the
-- dispatcher builds for an order with the quote's amounts sums to zero in both assets.
pub quoted_conversion_balanced :
    (tier : Tier) (amount : ℤ) (q : Quote) (o : LedgerOrder)
    → IsInt64 amount
    → compute_quote tier amount ≡ quote q
    → IsQuoted o q
    → (line_total usdt_bep20 (build_conversion_lines o) ≡ pos 0)
      × (line_total usdt_trc20 (build_conversion_lines o) ≡ pos 0)
quoted_conversion_balanced tier amount q o h made same =
    let u = compute_quote-AddsUp tier amount q h made in
    let z : neg_part q.amount_in ≡ 0 = ap neg_part u.amount_in ∙ positive_in tier amount q made in
    let k = known_fee tier q.network_fee u.network_fee in
    let p = ap pos_part u.sum in
    let n = ap neg_part u.sum in
    let in_units : IsUnits q.amount_in = (z, rw u.amount_in h) in
    let fee_units : IsUnits q.fee_units =
      (u.fee.0, (omega (int_laws, u.fee.0, u.fee.2), omega (int_laws, u.fee.0, u.fee.2))) in
    let net_units : IsUnits q.network_fee =
      (k.0, (omega (int_laws, k.0, k.1), omega (int_laws, k.0, k.1))) in
    let out_zero : neg_part q.amount_out ≡ 0 = omega (arith, parts_zero q.amount_out, u.out) in
    let out_units : IsUnits q.amount_out = (
      out_zero,
      (
        omega (int_laws, out_zero),
        omega (int_laws, out_zero, p, n, z, in_units.1.1, u.fee.0, k.0, parts_zero q.amount_in),
      ),
    ) in
    let (first, second) =
      conversion_balanced o (rw same.amount_in in_units) (rw same.amount_out out_units)
        (rw same.fee fee_units) (rw same.network_fee net_units) in
    (
      first,
      second.1 (same.amount_in ∙ u.sum ∙ rw (same.amount_out, same.fee, same.network_fee) refl),
    )
