-- ===== src/Ledger/Money/Decimal.antt =====
-- ledger/internal/money/decimal.go: decimal strings to amounts and back.
use usdt_settlement_corridor.Base.{
  ℕ, zero, suc, ◌+◌, ◌-◌, ◌*◌, ◌/◌, ◌%◌, Bool, true, false, ◌&&◌, not, Option, none, some, [], ◌∷◌,
  ◌++◌, length, take, drop, replicate, ltb, leb, ◌==◌, if◌then◌else◌,
}
use usdt_settlement_corridor.Base.Text.{Text, is_empty}
use usdt_settlement_corridor.Base.Int.{ℤ, pos, negsuc, ltb_ℤ, fits_int64}
use usdt_settlement_corridor.Ledger.Error.{
  invalid_decimal, too_many_decimals, overflow, Result, ok, err, ◌>>=◌, ◌>>◌, fail_if, or_fail,
}
use usdt_settlement_corridor.Ledger.Money.{Asset, Amount, decimals, validate, neg}

abbrev pub dot : ℕ
dot = b'.'

abbrev pub minus : ℕ
minus = b'-'

abbrev pub digit_zero : ℕ
digit_zero = b'0'

abbrev pub is_digit : ℕ → Bool
is_digit c = leb b'0' c && leb c b'9'

unfoldable pub all_digits : Text → Bool
all_digits [] = true
all_digits (c ∷ s) = is_digit c && all_digits s

unfoldable pub is_digits : Text → Bool
unfolding all_digits
is_digits s = if is_empty s then false else all_digits s

-- `strings.Contains` for one byte.
unfoldable pub contains : ℕ → Text → Bool
contains c [] = false
contains c (x ∷ s) = if x == c then true else contains c s

-- `strings.Cut` at one byte: what stands before, what stands after, and whether it is there.
unfoldable pub cut : ℕ → Text → Text × Text × Bool
cut c [] = ([], [], false)
cut c (x ∷ s) =
    let (before, after, found) = cut c s in
    if x == c then ([], s, true) else (x ∷ before, after, found)

unfoldable pub digits_value : ℕ → Text → ℕ
digits_value acc [] = acc
digits_value acc (c ∷ s) = digits_value (acc * 10 + (c - digit_zero)) s

-- `strconv.ParseInt(s, 10, 64)` at a string of digits: the value, if it fits.
unfoldable pub parse_int64 : Text → Option ℤ
unfolding digits_value
parse_int64 s = let n = pos (digits_value 0 s) in if fits_int64 n then some n else none

unfoldable pub split_sign : Text → Bool × Text
split_sign [] = (false, [])
split_sign (c ∷ s) =
    if c == minus then (true, s) else if c == b'+' then (false, s) else (false, c ∷ s)

abbrev negated : Amount → Result Amount
negated a = elim (neg a) [ ok n ↦ ok n | err _ ↦ err overflow ]

-- From the sign on: `d` is the number of decimals of the asset.
unfoldable pub parse_unsigned : ℕ → Text → Result ℤ
unfolding is_digits contains cut parse_int64
parse_unsigned d rest = do
  let parts = cut dot rest
  let int_part = parts.0
  let frac_part = parts.1
  fail_if (parts.2 && contains dot frac_part) invalid_decimal
  fail_if (is_empty int_part && is_empty frac_part) invalid_decimal
  let int_digits = if is_empty int_part then digit_zero ∷ [] else int_part
  fail_if (not (is_digits int_digits)) invalid_decimal
  fail_if (not (is_empty frac_part) && not (is_digits frac_part)) invalid_decimal
  fail_if (ltb d (length frac_part)) too_many_decimals
  or_fail (parse_int64 (int_digits ++ (frac_part ++ replicate (d - length frac_part) digit_zero)))
      overflow

unfoldable pub parse_decimal : Text → Asset → Result Amount
parse_decimal s asset = do
  d ← decimals asset
  fail_if (is_empty s) invalid_decimal
  let signed = split_sign s
  fail_if (is_empty signed.1) invalid_decimal
  units ← parse_unsigned d signed.1
  let a : Amount = record { asset = asset; units = units }
  if signed.0 then negated a else ok a

-- `strconv.FormatInt(n, 10)`: the digits of a natural number, before those of `acc`. Fuel 20 is
-- enough for an int64.
unfoldable pub format_nat : ℕ → ℕ → Text → Text
format_nat zero n acc = acc
format_nat (suc f) n acc =
    let rest = format_nat f (n / 10) ((digit_zero + n % 10) ∷ acc) in
    if ltb n 10 then (digit_zero + n) ∷ acc else rest

unfoldable pub format_int : ℤ → Text
format_int (pos n) = format_nat 20 n []
format_int (negsuc n) = minus ∷ format_nat 20 (suc n) []

-- `for len(digits) < width { digits = "0" + digits }`, for at most `fuel` rounds: each adds a digit.
unfoldable pub pad_to : ℕ → ℕ → Text → Text
pad_to zero width s = s
pad_to (suc f) width s =
    let rest = pad_to f width (digit_zero ∷ s) in if ltb (length s) width then rest else s

unfoldable pub format : Amount → Result Text
format a = do
  validate a
  d ← decimals a.asset
  let is_neg = ltb_ℤ a.units (pos 0)
  let shown = format_int a.units
  let digits = pad_to (d + 1) (d + 1) (if is_neg then drop 1 shown else shown)
  let int_part = take (length digits - d) digits
  let frac_part = drop (length digits - d) digits
  let out = if ltb 0 d then int_part ++ (dot ∷ frac_part) else int_part
  ok (if is_neg then minus ∷ out else out)
