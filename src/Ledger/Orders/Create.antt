-- ===== src/Ledger/Orders/Create.antt =====
-- Creating and finding orders (ledger/internal/orders/store.go).
use usdt_settlement_corridor.Base.{ℕ, suc, not, [], ◌∷◌, ◌++◌, none, leb, ◌==◌}
use usdt_settlement_corridor.Base.Text.{Text, text_eq, is_empty}
use usdt_settlement_corridor.Base.Table.{find_by, exists_by}
use usdt_settlement_corridor.Ledger.Error.{
  order_not_found, invalid_params, database, Result, ok, ◌>>◌, fail_if, or_fail,
}
use usdt_settlement_corridor.Ledger.Money.{usdt_bep20, usdt_trc20, asset_eq, Amount}
use usdt_settlement_corridor.Ledger.Database.{Tier, quoted, Order, Store}
use usdt_settlement_corridor.Ledger.Orders.Machine.{tier_valid}

pub record CreateParams : Type 0 where
  pub external_id : Text
  pub customer_id : Text
  pub tier : Tier
  pub amount_in : Amount
  pub amount_out : Amount
  pub fee_units : Amount
  pub network_fee_units : Amount
  pub recipient_address : Text
  pub quoted_at : ℕ
  pub quote_expires_at : ℕ

unfoldable pub validate_create : CreateParams → Result (Unit {0})
validate_create p = do
  fail_if (is_empty p.external_id) invalid_params
  fail_if (is_empty p.customer_id) invalid_params
  fail_if (not (tier_valid p.tier)) invalid_params
  fail_if (not (asset_eq p.amount_in.asset usdt_bep20)) invalid_params
  fail_if (not (asset_eq p.amount_out.asset usdt_trc20)) invalid_params
  fail_if (not (asset_eq p.fee_units.asset usdt_trc20)) invalid_params
  fail_if (not (asset_eq p.network_fee_units.asset usdt_trc20)) invalid_params
  fail_if (is_empty p.recipient_address) invalid_params
  fail_if (p.quoted_at == 0) invalid_params
  fail_if (leb p.quote_expires_at p.quoted_at) invalid_params
  ok tt

-- The row of a new order: quoted, version 0.
abbrev pub new_order : ℕ → CreateParams → Order
new_order i p = record {
  id = i;
  external_id = p.external_id;
  customer_id = p.customer_id;
  tier = p.tier;
  state = quoted;
  amount_in = p.amount_in.units;
  amount_out = p.amount_out.units;
  fee_units = p.fee_units.units;
  network_fee_units = p.network_fee_units.units;
  recipient_address = p.recipient_address;
  sender_address = none;
  quoted_at = p.quoted_at;
  quote_expires_at = p.quote_expires_at;
  version = 0;
}

-- `Create`; the unique external_id refuses a second order under the same one.
unfoldable pub create_order : CreateParams → Store → Result (Order × Store)
create_order p s = do
  validate_create p
  fail_if (exists_by (λ o. text_eq o.external_id p.external_id) s.orders) database
  let order = new_order s.next_order p
  ok (order, record s { orders = s.orders ++ (order ∷ []); next_order = suc s.next_order })

unfoldable pub get_order : Store → ℕ → Result Order
get_order s i = or_fail (find_by (λ o. o.id == i) s.orders) order_not_found

unfoldable pub get_order_by_external_id : Store → Text → Result Order
get_order_by_external_id s x =
    or_fail (find_by (λ o. text_eq o.external_id x) s.orders) order_not_found
