-- ===== src/Dispatcher/Entering/Lines.antt =====
-- The conversion entry sums to zero in each asset exactly if the order's amounts add up.
use usdt_settlement_corridor.Base.{◌≡◌, ap, List, [], ◌∷◌, if◌then◌else◌, ◌↔◌}
use usdt_settlement_corridor.Base.Int.{
  ℤ, pos, pos_part, neg_part, ◌+ℤ◌, ◌-ℤ◌, parts_zero, neg64, wrap64_fits, IsInt64, int_laws,
}
use usdt_settlement_corridor.Ledger.Money.{Asset, usdt_bep20, usdt_trc20, asset_eq}
use usdt_settlement_corridor.Ledger.Journal.Entry.{Line}
use usdt_settlement_corridor.Dispatcher.Entering.{LedgerOrder, build_conversion_lines}

-- The exact sum of the amounts in one asset.
unfoldable pub line_total : Asset → List Line → ℤ
line_total a [] = pos 0
line_total a (l ∷ lines) =
    let rest = line_total a lines in
    if asset_eq l.amount.asset a then l.amount.units +ℤ rest else rest

-- An amount of an order: not negative, and an int64.
abbrev pub IsUnits : ℤ → Type 0
IsUnits a = (neg_part a ≡ 0) × IsInt64 a

neg64-IsUnits : (a : ℤ) → IsUnits a → (pos_part (neg64 a) ≡ 0) × (neg_part (neg64 a) ≡ pos_part a)
unfolding neg64
neg64-IsUnits a h =
    rw (wrap64_fits (pos 0 -ℤ a) (omega (int_laws, h.0, h.1.1), omega (int_laws, h.0, h.1.1))) (
      omega (int_laws, h.0, parts_zero (pos 0 -ℤ a)),
      omega (int_laws, h.0, parts_zero (pos 0 -ℤ a)),
    )

-- For amounts that are not negative: the conversion entry sums to zero in USDT_BEP20, and it sums to
-- zero in USDT_TRC20 exactly if what comes in is what goes out with the fee and the network fee.
pub conversion_balanced :
    (o : LedgerOrder)
    → IsUnits o.amount_in
    → IsUnits o.amount_out
    → IsUnits o.fee_units
    → IsUnits o.network_fee_units
    → (line_total usdt_bep20 (build_conversion_lines o) ≡ pos 0)
      × ((line_total usdt_trc20 (build_conversion_lines o) ≡ pos 0)
          ↔ (o.amount_in ≡ (o.amount_out +ℤ o.fee_units) +ℤ o.network_fee_units))
unfolding line_total build_conversion_lines
conversion_balanced o a b c d =
    let na = neg64-IsUnits o.amount_in a in
    let nb = neg64-IsUnits o.amount_out b in
    let nc = neg64-IsUnits o.fee_units c in
    let nd = neg64-IsUnits o.network_fee_units d in
    (
      omega (int_laws, a.0, na.0, na.1),
      (
        λ h. omega (
          int_laws,
          a.0,
          b.0,
          c.0,
          d.0,
          nb.0,
          nb.1,
          nc.0,
          nc.1,
          nd.0,
          nd.1,
          ap pos_part h,
          ap neg_part h,
        ),
        λ h. omega (
          int_laws,
          a.0,
          b.0,
          c.0,
          d.0,
          nb.0,
          nb.1,
          nc.0,
          nc.1,
          nd.0,
          nd.1,
          ap pos_part h,
          ap neg_part h,
        ),
      ),
    )
