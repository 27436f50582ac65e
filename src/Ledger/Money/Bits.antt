-- ===== src/Ledger/Money/Bits.antt =====
-- The top bit of an exclusive or, which the subtraction check in ledger/internal/money reads.
use Prim.Native.Nat.{bit_xor, bit_xor-bitwise, digits, differ}
use mathlib.Core.Bool.{xor}
use usdt_settlement_corridor.Base.{
  ℕ, zero, suc, ◌+◌, ◌-◌, ◌*◌, ◌/◌, ◌%◌, ◌<◌, ◌≤◌, ◌≡◌, refl, ◌∙◌, arith, leb,
}
use usdt_settlement_corridor.Base.Int.{ℤ, pos, negsuc, IsInt64, pattern64, ltb_ℤ}
use usdt_settlement_corridor.Ledger.Money.{xor_negative}

xor_digits : ℕ → ℕ → ℕ → ℕ
xor_digits n a b = digits (λ b. b) differ n a b

xor_digits_fuel : (n m a b : ℕ) → a ≤ n → a ≤ m → xor_digits n a b ≡ xor_digits m a b
unfolding xor_digits
xor_digits_fuel zero zero a b p q = refl
xor_digits_fuel zero (suc m) zero b p q = refl
xor_digits_fuel zero (suc m) (suc a) b p q = absurd (omega arith)
xor_digits_fuel (suc n) zero zero b p q = refl
xor_digits_fuel (suc n) zero (suc a) b p q = absurd (omega arith)
xor_digits_fuel (suc n) (suc m) zero b p q = refl
xor_digits_fuel (suc n) (suc m) (suc a) b p q =
    omega (arith, xor_digits_fuel n m (suc a / 2) (b / 2) (omega arith) (omega arith))

zero-bit_xor : (b : ℕ) → bit_xor 0 b ≡ b
zero-bit_xor b = bit_xor-bitwise 0 b

differ-eq-sub : (a b : ℕ) → differ a b ≡ (a - b) + (b - a)
differ-eq-sub zero b = omega arith
differ-eq-sub (suc a) zero = omega arith
differ-eq-sub (suc a) (suc b) = omega (arith, differ-eq-sub a b)

bit_xor_step : (a b : ℕ) → bit_xor a b ≡ bit_xor (a / 2) (b / 2) * 2 + differ (a % 2) (b % 2)
unfolding xor_digits
bit_xor_step zero b = omega (arith, zero-bit_xor b, zero-bit_xor (b / 2), differ-eq-sub 0 (b % 2))
bit_xor_step (suc a) b = omega (
  arith,
  bit_xor-bitwise (suc a) b,
  bit_xor-bitwise (suc a / 2) (b / 2),
  xor_digits_fuel a (suc a / 2) (suc a / 2) (b / 2) (omega arith) (omega arith),
)

double_to : ℕ → ℕ
double_to zero = 1
double_to (suc k) = double_to k + double_to k

-- The digit in place k of numbers with no higher digit.
bit_xor_top :
    (k a b : ℕ)
    → a < double_to (suc k)
    → b < double_to (suc k)
    → leb (double_to k) (bit_xor a b) ≡ xor (leb (double_to k) a) (leb (double_to k) b)
unfolding double_to xor
bit_xor_top zero zero zero p q = refl
bit_xor_top zero zero (suc zero) p q = refl
bit_xor_top zero zero (suc (suc b)) p q = absurd (omega arith)
bit_xor_top zero (suc zero) zero p q = refl
bit_xor_top zero (suc zero) (suc zero) p q = refl
bit_xor_top zero (suc zero) (suc (suc b)) p q = absurd (omega arith)
bit_xor_top zero (suc (suc a)) b p q = absurd (omega arith)
bit_xor_top (suc k) a b p q =
    ground (arith, bit_xor_step a b, differ-eq-sub (a % 2) (b % 2), bit_xor_top k (a / 2) (b / 2))

pattern64-lt : (a : ℤ) → pattern64 a < double_to 64
unfolding double_to
pattern64-lt (pos n) = omega arith
pattern64-lt (negsuc n) = omega arith

-- The top bit of the pattern is the sign.
pattern64_sign : (a : ℤ) → IsInt64 a → leb (double_to 63) (pattern64 a) ≡ ltb_ℤ a (pos 0)
unfolding double_to
pattern64_sign (pos n) h = ground arith
pattern64_sign (negsuc n) h = ground arith

xor_negative-double_to :
    (a b : ℤ) → xor_negative a b ≡ leb (double_to 63) (bit_xor (pattern64 a) (pattern64 b))
unfolding xor_negative double_to
xor_negative-double_to a b = refl

-- The exclusive or of two int64 values is negative exactly when one of them is.
pub xor_negative_signs :
    (a b : ℤ) → IsInt64 a → IsInt64 b → xor_negative a b ≡ xor (ltb_ℤ a (pos 0)) (ltb_ℤ b (pos 0))
xor_negative_signs a b p q =
    rw (← pattern64_sign a p, ← pattern64_sign b q)
      (xor_negative-double_to a b
        ∙ bit_xor_top 63 (pattern64 a) (pattern64 b) (pattern64-lt a) (pattern64-lt b))
