-- ===== src/Base/Hex.antt =====
-- encoding/hex: two digits for each byte, lower-case when written and of either case when read.
use usdt_settlement_corridor.Base.{
  ℕ, ◌+◌, ◌-◌, ◌*◌, ◌/◌, ◌%◌, ◌<◌, ◌≡◌, refl, ap, [], ◌∷◌, Option, none, some, arith, All, ◌&&◌,
  ltb, leb, if◌then◌else◌,
}
use usdt_settlement_corridor.Base.Text.{Text}

abbrev pub hex_digit : ℕ → ℕ
hex_digit n = if ltb n 10 then 48 + n else 87 + n

unfoldable pub hex : Text → Text
hex [] = []
hex (b ∷ bs) = hex_digit (b / 16) ∷ hex_digit (b % 16) ∷ hex bs

abbrev pub hex_value : ℕ → Option ℕ
hex_value c =
    if leb 48 c && leb c 57
    then some (c - 48)
    else if leb 97 c && leb c 102
    then some (c - 87)
    else if leb 65 c && leb c 70
    then some (c - 55)
    else none

abbrev byte_of : Option ℕ → Option ℕ → Option Text → Option Text
byte_of (some high) (some low) (some rest) = some ((16 * high + low) ∷ rest)
byte_of (some high) (some low) none = none
byte_of (some high) none rest = none
byte_of none low rest = none

unfoldable pub hex_decode : Text → Option Text
hex_decode [] = some []
hex_decode (c ∷ []) = none
hex_decode (c ∷ d ∷ s) = byte_of (hex_value c) (hex_value d) (hex_decode s)

abbrev pub IsBytes : Text → Type 0
IsBytes s = All (λ b. b < 256) s

hex_value-digit : (n : ℕ) → n < 16 → hex_value (hex_digit n) ≡ some n
hex_value-digit n l = ground arith

pub hex_decode-hex : (s : Text) → IsBytes s → hex_decode (hex s) ≡ some s
unfolding hex hex_decode
hex_decode-hex [] h = refl
hex_decode-hex (b ∷ s) h =
    let high = hex_value-digit (b / 16) (omega (arith, h.0)) in
    let low = hex_value-digit (b % 16) (omega arith) in
    rw (high, low, hex_decode-hex s h.1) (whole b s)
  where
    whole : (b : ℕ) (s : Text) → some ((16 * (b / 16) + b % 16) ∷ s) ≡ some (b ∷ s)
    whole b s = ap (λ n. some (n ∷ s)) (omega arith)
