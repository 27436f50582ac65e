-- ===== src/Watcher/Classify.antt =====
-- depositwatcher/internal/chain/classify.go: a transfer classified against the amount of its order.
use usdt_settlement_corridor.Base.{Bool, true, false, if◌then◌else◌}
use usdt_settlement_corridor.Base.Int.{ℤ, pos, ltb_ℤ, eqb_ℤ}

pub data Classification : Type 0 where
  exact overpay underpay dust zero_value : Classification

abbrev pub is_zero_value : Classification → Bool
is_zero_value exact = false
is_zero_value overpay = false
is_zero_value underpay = false
is_zero_value dust = false
is_zero_value zero_value = true

-- One unit of the token, in its six decimals.
abbrev pub default_dust_floor : ℤ
default_dust_floor = pos 1_000_000

unfoldable pub classify_against_order : ℤ → ℤ → ℤ → Classification
classify_against_order amount quoted dust_floor =
    if eqb_ℤ amount (pos 0)
    then zero_value
    else if eqb_ℤ amount quoted
    then exact
    else if ltb_ℤ quoted amount
    then overpay
    else if ltb_ℤ amount dust_floor
    then dust
    else underpay
