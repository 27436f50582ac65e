-- ===== src/Ledger/Money/RoundTrip.antt =====
-- What ParseDecimal accepts and gives, and that it reads back what Format prints.
use usdt_settlement_corridor.Base.{
  ℕ, zero, suc, ◌+◌, ◌-◌, ◌≤◌, ◌<◌, ◌≡◌, refl, sym, ap, ◌∙◌, Bool, true, false, [], ◌∷◌, ◌++◌,
  arith, length, take, drop, length-drop, take-append-drop, replicate, if◌then◌else◌,
}
use mathlib.Core.List.{append-nil}
use usdt_settlement_corridor.Base.Text.{Text, is_empty}
use usdt_settlement_corridor.Base.Int.{
  ℤ, pos, negsuc, IsInt64, fits_int64, eqb_ℤ, ◌-ℤ◌, neg64, wrap64, min_int64,
}
use usdt_settlement_corridor.Ledger.Error.{ok, err, overflow, or_fail}
use usdt_settlement_corridor.Ledger.Money.{
  Asset, usdt_bep20, usdt_trc20, trx, bnb, other, Amount, decimals, valid, validate, neg,
}
use usdt_settlement_corridor.Ledger.Money.Arithmetic.{fitting}
use usdt_settlement_corridor.Ledger.Money.Decimal.{
  dot, minus, digit_zero, all_digits, is_digits, digits_value, split_sign, parse_unsigned,
  parse_decimal, format, format_int, format_nat, pad_to,
}
use usdt_settlement_corridor.Ledger.Money.Digits.{
  contains-dot_digits, cut-append, split_sign-digits, scaled, digits_value-scaled, Shows,
  pad_to-Shows,
}

-- A decimal with a sign in front, if it is negative.
abbrev pub written : Bool → Text → Text → Text
written negative i f = if negative then minus ∷ (i ++ (dot ∷ f)) else i ++ (dot ∷ f)

is_digits_lem : (s : Text) → all_digits s ≡ true → is_empty s ≡ false → is_digits s ≡ true
unfolding is_digits
is_digits_lem [] h e = cc
is_digits_lem (c ∷ s) h e = h

parse_unsigned_value :
    (d : ℕ) (i f : Text)
    → all_digits i ≡ true
    → all_digits f ≡ true
    → is_empty i ≡ false
    → length f ≤ d
    → parse_unsigned d (i ++ (dot ∷ f)) ≡ or_fail (fitting (pos (scaled d i f))) overflow
unfolding parse_unsigned
parse_unsigned_value d i f di df ne le =
    rw (cut-append i f di, contains-dot_digits f df, ne)
      (ground (arith, digits_value-scaled d i f le))

-- `-` on a magnitude, as ParseDecimal does it.
negate_value :
    (asset : Asset) (m : ℕ)
    → valid asset ≡ true
    → fits_int64 (pos m) ≡ true
    → neg (record { asset = asset; units = pos m })
      ≡ ok (record { asset = asset; units = pos 0 -ℤ pos m })
unfolding neg validate valid decimals neg64 wrap64 ◌-ℤ◌
negate_value asset m v h = ground arith

abbrev pub signed : Bool → ℕ → ℤ
signed negative m = if negative then pos 0 -ℤ pos m else pos m

valid_of_decimals : (asset : Asset) (d : ℕ) → decimals asset ≡ ok d → valid asset ≡ true
unfolding valid
valid_of_decimals asset d e = ground arith

split_sign-minus : (t : Text) → split_sign (minus ∷ t) ≡ (true, t)
unfolding split_sign
split_sign-minus t = refl

nonempty_append : (i t : Text) → is_empty i ≡ false → is_empty (i ++ t) ≡ false
nonempty_append [] t h = cc
nonempty_append (c ∷ i) t h = refl

-- Digits, a point and at most as many digits as the asset has decimals, with a minus sign or none:
-- ParseDecimal gives exactly the units that they stand for, or the overflow error where the
-- magnitude does not fit an int64. It never rounds.
pub parse_decimal_value :
    (negative : Bool) (i f : Text) (asset : Asset) (d : ℕ)
    → decimals asset ≡ ok d
    → all_digits i ≡ true
    → all_digits f ≡ true
    → is_empty i ≡ false
    → length f ≤ d
    → parse_decimal (written negative i f) asset ≡ (
        if fits_int64 (pos (scaled d i f))
        then ok (record { asset = asset; units = signed negative (scaled d i f) })
        else err overflow)
unfolding parse_decimal
parse_decimal_value true i f asset d e di df ne le = ground (
  arith,
  parse_unsigned_value d i f di df ne le,
  valid_of_decimals asset d e,
  negate_value asset (scaled d i f),
  split_sign-minus (i ++ (dot ∷ f)),
  nonempty_append i (dot ∷ f) ne,
)
parse_decimal_value false i f asset d e di df ne le = ground (
  arith,
  parse_unsigned_value d i f di df ne le,
  split_sign-digits i (dot ∷ f) di ne,
  nonempty_append i (dot ∷ f) ne,
)

all_digits-take : (k : ℕ) (s : Text) → all_digits s ≡ true → all_digits (take k s) ≡ true
unfolding all_digits
all_digits-take zero s h = refl
all_digits-take (suc k) [] h = refl
all_digits-take (suc k) (c ∷ s) h = ground (arith, all_digits-take k s)

all_digits-drop : (k : ℕ) (s : Text) → all_digits s ≡ true → all_digits (drop k s) ≡ true
unfolding all_digits
all_digits-drop zero s h = h
all_digits-drop (suc k) [] h = refl
all_digits-drop (suc k) (c ∷ s) h = ground (arith, all_digits-drop k s)

take_nonempty : (k : ℕ) (s : Text) → 0 < k → 0 < length s → is_empty (take k s) ≡ false
take_nonempty zero s h e = absurd (omega arith)
take_nonempty (suc k) [] h e = absurd (omega arith)
take_nonempty (suc k) (c ∷ s) h e = refl

-- Where `format` puts the point.
abbrev before_point : ℕ → Text → Text
before_point d s = take (length s - d) s

abbrev after_point : ℕ → Text → Text
after_point d s = drop (length s - d) s

length-after_point : (d : ℕ) (s : Text) → d < length s → length (after_point d s) ≡ d
length-after_point d s h = omega (arith, length-drop (length s - d) s)

scaled_point :
    (n d : ℕ) (s : Text) → Shows n d s → scaled d (before_point d s) (after_point d s) ≡ n
scaled_point n d s h =
    sym (digits_value-scaled d (before_point d s) (after_point d s) (omega (arith, le)))
    ∙ ap (digits_value 0) (
        ap (λ k. before_point d s ++ (after_point d s ++ replicate k digit_zero)) none_missing
        ∙ ap (λ t. before_point d s ++ t) (append-nil (after_point d s))
        ∙ take-append-drop (length s - d) s)
    ∙ h.value
  where
    le : length (after_point d s) ≡ d
    le = length-after_point d s h.long

    none_missing : d - length (after_point d s) ≡ 0
    none_missing = omega (arith, le)

-- The digits of `n`, with the point put in and a sign, read back.
parse_shown :
    (negative : Bool) (asset : Asset) (n d : ℕ) (s : Text)
    → decimals asset ≡ ok d
    → Shows n d s
    → parse_decimal (written negative (before_point d s) (after_point d s)) asset ≡ (
        if fits_int64 (pos n)
        then ok (record { asset = asset; units = signed negative n })
        else err overflow)
parse_shown negative asset n d s e h = rw (← scaled_point n d s h) (
    parse_decimal_value negative (before_point d s) (after_point d s) asset d e
      (all_digits-take (length s - d) s h.digits) (all_digits-drop (length s - d) s h.digits)
      (take_nonempty (length s - d) s (omega (arith, h.long)) (omega (arith, h.long)))
      (omega (arith, length-after_point d s h.long)))

abbrev digits_of : ℕ → ℕ → Text
digits_of d n = pad_to (d + 1) (d + 1) (format_nat 20 n [])

decimals_of_valid :
    (asset : Asset) → valid asset ≡ true → (d : ℕ) × (decimals asset ≡ ok d) × (0 < d)
unfolding valid decimals
decimals_of_valid usdt_bep20 h = (6, refl, omega arith)
decimals_of_valid usdt_trc20 h = (6, refl, omega arith)
decimals_of_valid trx h = (6, refl, omega arith)
decimals_of_valid bnb h = (9, refl, omega arith)
decimals_of_valid (other s) h = cc

format_pos :
    (asset : Asset) (n d : ℕ)
    → valid asset ≡ true
    → decimals asset ≡ ok d
    → 0 < d
    → format (record { asset = asset; units = pos n })
      ≡ ok (written false (before_point d (digits_of d n)) (after_point d (digits_of d n)))
unfolding format format_int validate valid
format_pos asset n d v e p = ground arith

format_negsuc :
    (asset : Asset) (n d : ℕ)
    → valid asset ≡ true
    → decimals asset ≡ ok d
    → 0 < d
    → format (record { asset = asset; units = negsuc n })
      ≡ ok (
          written true (before_point d (digits_of d (suc n))) (after_point d (digits_of d (suc n))))
unfolding format format_int validate valid
format_negsuc asset n d v e p = ground arith

-- ParseDecimal reads back what Format prints, for every int64 amount of a known asset but one: the
-- least int64 is printed, and refused as an overflow when it is read.
pub format-parse :
    (asset : Asset) (units : ℤ)
    → valid asset ≡ true
    → IsInt64 units
    → let a : Amount = record { asset = asset; units = units } in
      (s : Text) × (format a ≡ ok s)
      × (parse_decimal s asset ≡ (if eqb_ℤ units min_int64 then err overflow else ok a))
unfolding ◌-ℤ◌
format-parse asset (pos n) v h =
    let (d, e, p) = decimals_of_valid asset v in
    let shows = pad_to-Shows n d (omega arith) in
    (
      _,
      format_pos asset n d v e p,
      parse_shown false asset n d (digits_of d n) e shows ∙ ground arith,
    )
format-parse asset (negsuc n) v h =
    let (d, e, p) = decimals_of_valid asset v in
    let shows = pad_to-Shows (suc n) d (omega arith) in
    (
      _,
      format_negsuc asset n d v e p,
      parse_shown true asset (suc n) d (digits_of d (suc n)) e shows ∙ ground arith,
    )
