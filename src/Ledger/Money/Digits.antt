-- ===== src/Ledger/Money/Digits.antt =====
-- The digit strings of decimal.go: what they denote, and what the printer's digits are.
use usdt_settlement_corridor.Base.{
  ℕ, zero, suc, ◌+◌, ◌-◌, ◌*◌, ◌/◌, ◌%◌, ◌^◌, ◌≤◌, ◌<◌, ◌≡◌, refl, sym, ap, ◌∙◌, true, false, [],
  ◌∷◌, ◌++◌, arith, length, replicate,
}
use native.Mathlib.Nat.{pow-suc, pow-zero, add-suc, add-zero, mul_assoc, add-mul}
use usdt_settlement_corridor.Base.Text.{Text, is_empty}
use usdt_settlement_corridor.Ledger.Money.Decimal.{
  dot, digit_zero, all_digits, contains, cut, digits_value, split_sign, format_nat, pad_to,
}

pub contains-dot_digits : (s : Text) → all_digits s ≡ true → contains dot s ≡ false
unfolding contains all_digits
contains-dot_digits [] h = refl
contains-dot_digits (c ∷ s) h = ground (arith, contains-dot_digits s)

pub cut-append : (i f : Text) → all_digits i ≡ true → cut dot (i ++ (dot ∷ f)) ≡ (i, f, true)
unfolding cut all_digits
cut-append [] f h = refl
cut-append (c ∷ i) f h = ground (arith, cut-append i f)

pub split_sign-digits :
    (i t : Text) → all_digits i ≡ true → is_empty i ≡ false → split_sign (i ++ t) ≡ (false, i ++ t)
unfolding split_sign all_digits
split_sign-digits [] t h e = cc
split_sign-digits (c ∷ i) t h e = ground arith

pub all_digits-append :
    (s t : Text) → all_digits s ≡ true → all_digits t ≡ true → all_digits (s ++ t) ≡ true
unfolding all_digits
all_digits-append [] t h k = k
all_digits-append (c ∷ s) t h k = ground (arith, all_digits-append s t)

shift_digit : (a k p : ℕ) → (a * 10 + k) * p ≡ a * (p * 10) + (0 + k) * p
shift_digit a k p = grind arith

-- The value of a digit string after another: the first counts for as many tens as the second is
-- long.
pub digits_value_shift :
    (acc : ℕ) (s : Text) → digits_value acc s ≡ acc * 10 ^ length s + digits_value 0 s
unfolding digits_value
digits_value_shift acc [] = omega arith
digits_value_shift acc (c ∷ s) = rw (pow-suc 10 (length s)) (
    omega (
      arith,
      shift_digit acc (c - digit_zero) (10 ^ length s),
      digits_value_shift (acc * 10 + (c - digit_zero)) s,
      digits_value_shift (0 + (c - digit_zero)) s,
    ))

pub digits_value-append :
    (acc : ℕ) (s t : Text) → digits_value acc (s ++ t) ≡ digits_value (digits_value acc s) t
unfolding digits_value
digits_value-append acc [] t = refl
digits_value-append acc (c ∷ s) t = digits_value-append (acc * 10 + (c - digit_zero)) s t

pub digits_value-zeros : (acc k : ℕ) → digits_value acc (replicate k digit_zero) ≡ acc * 10 ^ k
unfolding digits_value
digits_value-zeros acc zero = omega arith
digits_value-zeros acc (suc k) =
    rw (pow-suc 10 k)
      (omega (arith, digits_value-zeros (acc * 10 + 0) k, shift_digit acc 0 (10 ^ k)))

ten_pow_add : (a b : ℕ) → 10 ^ a * 10 ^ b ≡ 10 ^ (a + b)
ten_pow_add a zero = grind (arith, pow-zero 10, add-zero a)
ten_pow_add a (suc b) =
    rw (pow-suc 10 b, add-suc a b, pow-suc 10 (a + b))
      (sym (mul_assoc (10 ^ a) (10 ^ b) 10) ∙ ap (λ (p : ℕ). p * 10) (ten_pow_add a b))

-- The units that the digits `i` before and `f` after the point stand for, at `d` decimals.
abbrev pub scaled : ℕ → Text → Text → ℕ
scaled d i f = digits_value 0 i * 10 ^ d + digits_value 0 f * 10 ^ (d - length f)

-- The string that ParseDecimal hands to ParseInt.
pub digits_value-scaled :
    (d : ℕ) (i f : Text)
    → length f ≤ d
    → digits_value 0 (i ++ (f ++ replicate (d - length f) digit_zero)) ≡ scaled d i f
digits_value-scaled d i f h =
    digits_value-append 0 i (f ++ zeros)
    ∙ digits_value-append vi f zeros
    ∙ digits_value-zeros (digits_value vi f) (d - length f)
    ∙ ap (λ (v : ℕ). v * 10 ^ (d - length f)) (digits_value_shift vi f)
    ∙ add-mul (vi * 10 ^ length f) (digits_value 0 f) (10 ^ (d - length f))
    ∙ ap (λ (v : ℕ). v + digits_value 0 f * 10 ^ (d - length f))
        (mul_assoc vi (10 ^ length f) (10 ^ (d - length f))
          ∙ ap (λ (p : ℕ). vi * p)
              (ten_pow_add (length f) (d - length f) ∙ ap (λ (k : ℕ). 10 ^ k) (omega arith)))
  where
    vi : ℕ
    vi = digits_value 0 i

    zeros : Text
    zeros = replicate (d - length f) digit_zero

-- `format_nat` prints its number before `acc`, given as many rounds as the number has digits.
ten_to : ℕ → ℕ
ten_to zero = 1
ten_to (suc k) = 10 * ten_to k

format_nat_value :
    (f n : ℕ) (acc : Text) → n < ten_to f → digits_value 0 (format_nat f n acc) ≡ digits_value n acc
unfolding format_nat digits_value ten_to
format_nat_value zero n acc h = ground arith
format_nat_value (suc f) n acc h =
    ground (arith, format_nat_value f (n / 10) ((digit_zero + n % 10) ∷ acc))

format_nat_digits :
    (f n : ℕ) (acc : Text) → all_digits acc ≡ true → all_digits (format_nat f n acc) ≡ true
unfolding format_nat all_digits
format_nat_digits zero n acc h = h
format_nat_digits (suc f) n acc h =
    ground (arith, format_nat_digits f (n / 10) ((digit_zero + n % 10) ∷ acc))

pad_to_digits : (f w : ℕ) (s : Text) → all_digits s ≡ true → all_digits (pad_to f w s) ≡ true
unfolding pad_to all_digits
pad_to_digits zero w s h = h
pad_to_digits (suc f) w s h = ground (arith, pad_to_digits f w (digit_zero ∷ s))

pad_to_value : (f w : ℕ) (s : Text) → digits_value 0 (pad_to f w s) ≡ digits_value 0 s
unfolding pad_to digits_value
pad_to_value zero w s = refl
pad_to_value (suc f) w s = ground (arith, pad_to_value f w (digit_zero ∷ s))

-- The loop ends with the width reached: `width` rounds are enough.
pad_to-length : (f w : ℕ) (s : Text) → w ≤ f + length s → w ≤ length (pad_to f w s)
unfolding pad_to
pad_to-length zero w s h = omega arith
pad_to-length (suc f) w s h = ground (arith, pad_to-length f w (digit_zero ∷ s))

-- What `format` prints of a magnitude: digits, more than `d` of them, that denote it.
pub record Shows (n d : ℕ) (s : Text) : Type 0 where
  pub digits : all_digits s ≡ true
  pub long : d < length s
  pub value : digits_value 0 s ≡ n

pub pad_to-Shows : (n d : ℕ) → n < 2 ^ 64 → Shows n d (pad_to (d + 1) (d + 1) (format_nat 20 n []))
unfolding all_digits digits_value ten_to
pad_to-Shows n d h = record {
  digits = pad_to_digits (d + 1) (d + 1) (format_nat 20 n []) (format_nat_digits 20 n [] refl);
  long = omega (arith, pad_to-length (d + 1) (d + 1) (format_nat 20 n []) (omega arith));
  value =
      pad_to_value (d + 1) (d + 1) (format_nat 20 n []) ∙ format_nat_value 20 n [] (omega arith);
}
