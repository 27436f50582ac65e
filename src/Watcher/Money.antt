-- ===== src/Watcher/Money.antt =====
-- depositwatcher/internal/money: amounts of one asset, in millionths of a dollar.
use usdt_settlement_corridor.Base.{
  ℕ, ◌+◌, ◌-◌, ◌/◌, ◌^◌, Bool, true, false, ◌&&◌, not, Option, none, some, ◌⊎◌, inl, inr, [], ◌∷◌,
  ◌++◌, length, take, drop, replicate, ltb, if◌then◌else◌,
}
use usdt_settlement_corridor.Base.Text.{Text, is_empty}
use usdt_settlement_corridor.Base.Int.{ℤ, pos, negsuc, ltb_ℤ, fits_int64, neg64}
use usdt_settlement_corridor.Ledger.Money.Decimal.{
  dot, minus, digit_zero, is_digits, contains, cut, parse_int64, split_sign, format_int, pad_to,
}
pub mod Wire

-- `Decimals`.
abbrev pub amount_decimals : ℕ
amount_decimals = 6

pub data AmountError : Type 0 where
  negative_amount coarse_decimals amount_overflow : AmountError

-- `FromOnChainUnits` of a big.Int that is not nil.
unfoldable pub from_on_chain_units : ℤ → ℕ → AmountError ⊎ ℤ
from_on_chain_units (negsuc n) on_chain_decimals = inl negative_amount
from_on_chain_units (pos n) on_chain_decimals =
    let scaled = pos (n / 10 ^ (on_chain_decimals - amount_decimals)) in
    if ltb on_chain_decimals amount_decimals
    then inl coarse_decimals
    else if not (fits_int64 scaled)
    then inl amount_overflow
    else inr scaled

-- The digits of the amount, from the parts of the string.
unfoldable pub read_parts : Text × Text × Bool → Option ℤ
read_parts parts =
    let int_part = parts.0 in
    let frac_part = parts.1 in
    let int_digits = if is_empty int_part then digit_zero ∷ [] else int_part in
    if parts.2 && contains dot frac_part
    then none
    else if is_empty int_part && is_empty frac_part
    then none
    else if not (is_digits int_digits)
    then none
    else if not (is_empty frac_part) && not (is_digits frac_part)
    then none
    else if ltb amount_decimals (length frac_part)
    then none
    else parse_int64
        (int_digits ++ (frac_part ++ replicate (amount_decimals - length frac_part) digit_zero))

-- `ParseDecimal`: every error is ErrInvalidDecimal.
unfoldable pub read_decimal : Text → Option ℤ
read_decimal s =
    let signed = split_sign s in
    if is_empty s
    then none
    else if is_empty signed.1
    then none
    else elim (read_parts (cut dot signed.1)) [
      | none ↦ none
      | some units ↦ some (if signed.0 then neg64 units else units)
    ]

-- `Amount.Format`.
unfoldable pub show_decimal : ℤ → Text
show_decimal a =
    let is_neg = ltb_ℤ a (pos 0) in
    let shown = format_int a in
    let digits =
      pad_to (amount_decimals + 1) (amount_decimals + 1) (if is_neg then drop 1 shown else shown) in
    let out =
      take (length digits - amount_decimals) digits
      ++ (dot ∷ drop (length digits - amount_decimals) digits) in
    if is_neg then minus ∷ out else out
