-- ===== src/Ledger/Money.antt =====
-- ledger/internal/money: the closed set of assets, and checked arithmetic on amounts of minor units.
pub mod Bits
pub mod Arithmetic
pub mod Decimal
pub mod Digits
pub mod RoundTrip
mod Tests
use Prim.Native.Nat.{bit_xor}
use usdt_settlement_corridor.Base.{
  ℕ, ◌^◌, Bool, true, false, ◌&&◌, not, [], Option, none, some, if◌then◌else◌, leb,
}
use usdt_settlement_corridor.Base.Text.{Text, text_eq}
use usdt_settlement_corridor.Base.Int.{
  ℤ, pos, ltb_ℤ, eqb_ℤ, add64, sub64, neg64, min_int64, pattern64,
}
use usdt_settlement_corridor.Ledger.Error.{
  zero_value_amount, asset_mismatch, overflow, unknown_asset, Result, ok, err, ◌>>=◌, ◌>>◌, fail_if,
  or_fail,
}

-- `type Asset string`: the four constants, or any other string. The empty one is the zero value.
pub data Asset : Type 0 where
  usdt_bep20 usdt_trc20 trx bnb : Asset
  other : Text → Asset

abbrev pub asset_eq : Asset → Asset → Bool
asset_eq usdt_bep20 usdt_bep20 = true
asset_eq usdt_trc20 usdt_trc20 = true
asset_eq trx trx = true
asset_eq bnb bnb = true
asset_eq (other s) (other t) = text_eq s t
asset_eq _ _ = false

unfoldable pub decimals : Asset → Result ℕ
decimals usdt_bep20 = ok 6
decimals usdt_trc20 = ok 6
decimals trx = ok 6
decimals bnb = ok 9
decimals (other s) = err unknown_asset

unfoldable pub valid : Asset → Bool
unfolding decimals
valid a = elim (decimals a) [ ok _ ↦ true | err _ ↦ false ]

pub record Amount : Type 0 where
  pub asset : Asset
  pub units : ℤ

abbrev is_unset : Asset → Bool
is_unset (other []) = true
is_unset _ = false

unfoldable pub validate : Amount → Result (Unit {0})
unfolding valid
validate a = do
  fail_if (is_unset a.asset) zero_value_amount
  fail_if (not (valid a.asset)) unknown_asset
  ok tt

-- `none` is the Go pair `(0, false)`.
unfoldable pub checked_add_int64 : ℤ → ℤ → Option ℤ
checked_add_int64 a b =
    let sum = add64 a b in
    if ltb_ℤ (pos 0) b && ltb_ℤ sum a
    then none
    else if ltb_ℤ b (pos 0) && ltb_ℤ a sum
    then none
    else some sum

-- `(a ^ b) < 0`: the exclusive or of the two patterns has its top bit set.
unfoldable pub xor_negative : ℤ → ℤ → Bool
xor_negative a b = leb (2 ^ 63) (bit_xor (pattern64 a) (pattern64 b))

unfoldable pub checked_sub_int64 : ℤ → ℤ → Option ℤ
unfolding xor_negative
checked_sub_int64 a b =
    let diff = sub64 a b in if xor_negative a b && xor_negative a diff then none else some diff

unfoldable pub add : Amount → Amount → Result Amount
add a b = do
  validate a
  validate b
  fail_if (not (asset_eq a.asset b.asset)) asset_mismatch
  sum ← or_fail (checked_add_int64 a.units b.units) overflow
  ok (record { asset = a.asset; units = sum })

unfoldable pub sub : Amount → Amount → Result Amount
sub a b = do
  validate a
  validate b
  fail_if (not (asset_eq a.asset b.asset)) asset_mismatch
  diff ← or_fail (checked_sub_int64 a.units b.units) overflow
  ok (record { asset = a.asset; units = diff })

unfoldable pub neg : Amount → Result Amount
neg a = do
  validate a
  fail_if (eqb_ℤ a.units min_int64) overflow
  ok (record { asset = a.asset; units = neg64 a.units })
