-- ===== src/Ledger/Money/Arithmetic.antt =====
-- The checked arithmetic of ledger/internal/money against the integers.
use mathlib.Core.Bool.{xor}
use usdt_settlement_corridor.Base.{
  ◌≡◌, refl, ap, arith, true, Option, none, some, if◌then◌else◌, ◌&&◌,
}
use usdt_settlement_corridor.Base.Int.{
  ℤ, pos, negsuc, ◌+ℤ◌, ◌-ℤ◌, ltb_ℤ, IsInt64, fits_int64, add64, sub64, neg64, wrap64,
  wrap64-IsInt64,
}
use usdt_settlement_corridor.Base.Text.{text_eq_refl, eq_of_text_eq}
use usdt_settlement_corridor.Ledger.Error.{Result, ok, err, overflow, asset_mismatch, ◌>>◌}
use usdt_settlement_corridor.Ledger.Money.{
  Asset, usdt_bep20, usdt_trc20, trx, bnb, other, Amount, asset_eq, validate, checked_add_int64,
  checked_sub_int64, add, sub, neg,
}
use usdt_settlement_corridor.Ledger.Money.Bits.{xor_negative_signs}

-- An integer, if it fits an int64.
abbrev pub fitting : ℤ → Option ℤ
fitting a = if fits_int64 a then some a else none

pub asset_eq_refl : (a : Asset) → asset_eq a a ≡ true
asset_eq_refl usdt_bep20 = refl
asset_eq_refl usdt_trc20 = refl
asset_eq_refl trx = refl
asset_eq_refl bnb = refl
asset_eq_refl (other s) = text_eq_refl s

pub eq_of_asset_eq : (a b : Asset) → asset_eq a b ≡ true → a ≡ b
eq_of_asset_eq usdt_bep20 b h = ground arith
eq_of_asset_eq usdt_trc20 b h = ground arith
eq_of_asset_eq trx b h = ground arith
eq_of_asset_eq bnb b h = ground arith
eq_of_asset_eq (other s) usdt_bep20 h = cc
eq_of_asset_eq (other s) usdt_trc20 h = cc
eq_of_asset_eq (other s) trx h = cc
eq_of_asset_eq (other s) bnb h = cc
eq_of_asset_eq (other s) (other t) h = ap other (eq_of_text_eq s t h)

checked_add_int64_lem : (a b : ℤ) → IsInt64 a → IsInt64 b → checked_add_int64 a b ≡ fitting (a +ℤ b)
unfolding checked_add_int64 add64 wrap64 ◌+ℤ◌
checked_add_int64_lem (pos m) (pos n) p q = ground arith
checked_add_int64_lem (pos m) (negsuc n) p q = ground arith
checked_add_int64_lem (negsuc m) (pos n) p q = ground arith
checked_add_int64_lem (negsuc m) (negsuc n) p q = ground arith

sub64-IsInt64 : (a b : ℤ) → IsInt64 (sub64 a b)
unfolding sub64
sub64-IsInt64 a b = wrap64-IsInt64 (a -ℤ b)

-- The test of the subtraction, written by signs.
sub_by_signs :
    (a b : ℤ)
    → IsInt64 a
    → IsInt64 b
    → (if xor (ltb_ℤ a (pos 0)) (ltb_ℤ b (pos 0))
          && xor (ltb_ℤ a (pos 0)) (ltb_ℤ (sub64 a b) (pos 0))
        then none
        else some (sub64 a b))
      ≡ fitting (a -ℤ b)
unfolding xor sub64 wrap64 ◌-ℤ◌
sub_by_signs (pos m) (pos n) p q = ground arith
sub_by_signs (pos m) (negsuc n) p q = ground arith
sub_by_signs (negsuc m) (pos n) p q = ground arith
sub_by_signs (negsuc m) (negsuc n) p q = ground arith

checked_sub_int64_lem : (a b : ℤ) → IsInt64 a → IsInt64 b → checked_sub_int64 a b ≡ fitting (a -ℤ b)
unfolding checked_sub_int64
checked_sub_int64_lem a b p q =
    rw (xor_negative_signs a b p q, xor_negative_signs a (sub64 a b) p (sub64-IsInt64 a b))
      (sub_by_signs a b p q)

-- The amount of an asset with a given number of units, where there is such a number.
abbrev pub exact : Asset → Option ℤ → Result Amount
exact a none = err overflow
exact a (some n) = ok (record { asset = a; units = n })

-- On int64 amounts `Add` is the integer sum: it checks the first operand, then the second, then
-- that the assets agree, and gives the sum if that fits an int64 and the overflow error if not.
pub add-exact :
    (a b : Amount)
    → IsInt64 a.units
    → IsInt64 b.units
    → add a b ≡ (do
      validate a
      validate b
      if asset_eq a.asset b.asset
          then exact a.asset (fitting (a.units +ℤ b.units))
          else err asset_mismatch)
unfolding add
add-exact a b p q = ground (arith, checked_add_int64_lem a.units b.units p q)

-- `Sub` likewise is the integer difference, also where the negation of the second operand would
-- not fit.
pub sub-exact :
    (a b : Amount)
    → IsInt64 a.units
    → IsInt64 b.units
    → sub a b ≡ (do
      validate a
      validate b
      if asset_eq a.asset b.asset
          then exact a.asset (fitting (a.units -ℤ b.units))
          else err asset_mismatch)
unfolding sub
sub-exact a b p q = ground (arith, checked_sub_int64_lem a.units b.units p q)

-- `Neg` is the integer negation of an int64 amount: the overflow error for the least int64 alone.
pub neg-exact :
    (a : Amount)
    → IsInt64 a.units
    → neg a ≡ (do validate a; exact a.asset (fitting (pos 0 -ℤ a.units)))
unfolding neg neg64 wrap64 ◌-ℤ◌
neg-exact a p = ground arith
