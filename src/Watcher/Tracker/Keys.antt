-- ===== src/Watcher/Tracker/Keys.antt =====
-- The idempotency key of a deposit's report tells deposits apart.
use usdt_settlement_corridor.Base.{
  ℕ, ◌/◌, ◌%◌, ◌^◌, ◌<◌, ◌≡◌, refl, sym, ap, ◌∙◌, [], ◌∷◌, ◌++◌, arith, length,
}
use usdt_settlement_corridor.Base.Text.{Text, bytes}
use usdt_settlement_corridor.Base.Hex.{hex_digit, hex, IsBytes}
use usdt_settlement_corridor.Ledger.Money.Decimal.{format_nat, pad_to, digits_value}
use usdt_settlement_corridor.Ledger.Money.Digits.{pad_to-Shows}
use usdt_settlement_corridor.Watcher.Tracker.{
  Key, deposit_final_idempotency_key, deposit_final_idempotency_key_prefix,
}

first_equal : (x y : ℕ) (xs ys : Text) → x ∷ xs ≡ y ∷ ys → x ≡ y
first_equal x y xs ys e = cc

rest_equal : (x y : ℕ) (xs ys : Text) → x ∷ xs ≡ y ∷ ys → xs ≡ ys
rest_equal x y xs ys e = cc

hex_digit_inj : (m n : ℕ) → m < 16 → n < 16 → hex_digit m ≡ hex_digit n → m ≡ n
hex_digit_inj m n l k e = ground arith

hex_byte_inj :
    (a b : ℕ)
    → a < 256
    → b < 256
    → hex_digit (a / 16) ≡ hex_digit (b / 16)
    → hex_digit (a % 16) ≡ hex_digit (b % 16)
    → a ≡ b
hex_byte_inj a b l k high low = omega (
  arith,
  hex_digit_inj (a / 16) (b / 16) (omega arith) (omega arith) high,
  hex_digit_inj (a % 16) (b % 16) (omega arith) (omega arith) low,
)

append_cancel : (s t u : Text) → s ++ t ≡ s ++ u → t ≡ u
append_cancel [] t u e = e
append_cancel (x ∷ s) t u e = append_cancel s t u (rest_equal x x (s ++ t) (s ++ u) e)

-- Two encodings of as many bytes, each before some more text.
hex_inj :
    (s t u v : Text)
    → IsBytes s
    → IsBytes t
    → length s ≡ length t
    → hex s ++ u ≡ hex t ++ v
    → (s ≡ t) × (u ≡ v)
unfolding hex
hex_inj [] [] u v p q l e = (refl, e)
hex_inj [] (b ∷ t) u v p q l e = absurd (omega (arith, l))
hex_inj (a ∷ s) [] u v p q l e = absurd (omega (arith, l))
hex_inj (a ∷ s) (b ∷ t) u v p q l e =
    let e₁ =
      rest_equal (hex_digit (a / 16)) (hex_digit (b / 16)) (hex_digit (a % 16) ∷ (hex s ++ u))
        (hex_digit (b % 16) ∷ (hex t ++ v)) e in
    let e₂ = rest_equal (hex_digit (a % 16)) (hex_digit (b % 16)) (hex s ++ u) (hex t ++ v) e₁ in
    let rest = hex_inj s t u v p.1 q.1 (omega (arith, l)) e₂ in
    let same =
      hex_byte_inj a b p.0 q.0
        (first_equal (hex_digit (a / 16)) (hex_digit (b / 16)) (hex_digit (a % 16) ∷ (hex s ++ u))
          (hex_digit (b % 16) ∷ (hex t ++ v)) e)
        (first_equal (hex_digit (a % 16)) (hex_digit (b % 16)) (hex s ++ u) (hex t ++ v) e₁) in
    (both a b s t same rest.0, rest.1)
  where
    both : (a b : ℕ) (s t : Text) → a ≡ b → s ≡ t → a ∷ s ≡ b ∷ t
    both a b s t e h = cc

format_nat_inj :
    (m n : ℕ) → m < 2 ^ 64 → n < 2 ^ 64 → format_nat 20 m [] ≡ format_nat 20 n [] → m ≡ n
format_nat_inj m n l k e =
    sym (pad_to-Shows m 0 l).value
    ∙ ap (λ s. digits_value 0 (pad_to 1 1 s)) e
    ∙ (pad_to-Shows n 0 k).value

abbrev tail : Key → Text
tail k = (hex k.tx_hash ++ bytes ":") ++ format_nat 20 k.log_index []

append_assoc : (s t u : Text) → (s ++ t) ++ u ≡ s ++ (t ++ u)
append_assoc [] t u = refl
append_assoc (x ∷ s) t u = ap (λ r. x ∷ r) (append_assoc s t u)

-- Two deposits whose transaction hashes are as many bytes and whose log indices are 64-bit have the
-- same idempotency key only if they are the same log.
pub deposit_final_idempotency_key_inj :
    (j k : Key)
    → IsBytes j.tx_hash
    → IsBytes k.tx_hash
    → length j.tx_hash ≡ length k.tx_hash
    → j.log_index < 2 ^ 64
    → k.log_index < 2 ^ 64
    → deposit_final_idempotency_key j ≡ deposit_final_idempotency_key k
    → j ≡ k
unfolding deposit_final_idempotency_key
deposit_final_idempotency_key_inj j k p q l m n e =
    let e₁ =
      append_cancel deposit_final_idempotency_key_prefix (bytes "0x" ++ tail j)
        (bytes "0x" ++ tail k) e in
    let e₂ = append_cancel (bytes "0x") (tail j) (tail k) e₁ in
    let (hashes, e₃) =
      hex_inj j.tx_hash k.tx_hash (bytes ":" ++ format_nat 20 j.log_index [])
        (bytes ":" ++ format_nat 20 k.log_index []) p q l
        (sym (append_assoc (hex j.tx_hash) (bytes ":") (format_nat 20 j.log_index []))
          ∙ e₂
          ∙ append_assoc (hex k.tx_hash) (bytes ":") (format_nat 20 k.log_index [])) in
    let e₄ =
      append_cancel (bytes ":") (format_nat 20 j.log_index []) (format_nat 20 k.log_index []) e₃ in
    same_key_of j k hashes (format_nat_inj j.log_index k.log_index m n e₄)
  where
    same_key_of : (j k : Key) → j.tx_hash ≡ k.tx_hash → j.log_index ≡ k.log_index → j ≡ k
    same_key_of j k e h = cc
