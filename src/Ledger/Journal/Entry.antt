-- ===== src/Ledger/Journal/Entry.antt =====
-- Entry requests, their validation and their hash (journal.go, validate.go and hash.go of
-- ledger/internal/journal).
use usdt_settlement_corridor.Base.{
  ℕ, suc, ◌-◌, ◌%◌, ◌^◌, Bool, true, false, not, List, [], ◌∷◌, Option, length, map, ltb,
  if◌then◌else◌,
}
use usdt_settlement_corridor.Base.Text.{Text, bytes, text_eq, text_lt, is_empty}
use usdt_settlement_corridor.Base.Sort.{sort_by}
use usdt_settlement_corridor.Base.Int.{ℤ, pos, negsuc, eqb_ℤ, ltb_ℤ}
use usdt_settlement_corridor.Ledger.Error.{
  too_few_lines, too_many_lines, zero_amount_line, line_asset_mismatch, unbalanced,
  invalid_idempotency_key, Result, ok, ◌>>=◌, ◌>>◌, fail_if,
}
use usdt_settlement_corridor.Ledger.Money.{
  Asset, usdt_bep20, usdt_trc20, trx, bnb, other, asset_eq, Amount, add,
}
use usdt_settlement_corridor.Ledger.Database.{Account}
use usdt_settlement_corridor.Ledger.Accounts.{get_by_code}

pub record Line : Type 0 where
  pub account_code : Text
  pub amount : Amount

-- `occurred_at` counts nanoseconds from Go's zero time. `metadata` is JSON text; `none` is the nil map.
pub record EntryRequest : Type 0 where
  pub idempotency_key : Text
  pub entry_type : Text
  pub actor : Text
  pub occurred_at : ℕ
  pub order_id : Option ℕ
  pub lines : List Line
  pub metadata : Option Text

pub record ResolvedLine : Type 0 where
  pub seq : ℤ
  pub account : Account
  pub amount : Amount

abbrev pub max_lines : ℕ
max_lines = 32767

abbrev pub max_idempotency_key_len : ℕ
max_idempotency_key_len = 255

unfoldable pub validate_idempotency_key : Text → Result (Unit {0})
validate_idempotency_key key = do
  fail_if (is_empty key) invalid_idempotency_key
  fail_if (ltb max_idempotency_key_len (length key)) invalid_idempotency_key
  ok tt

-- The conversion of an index to int16, which keeps the low 16 bits.
unfoldable pub int16 : ℕ → ℤ
int16 i = let w = i % 2 ^ 16 in if ltb w (2 ^ 15) then pos w else negsuc (2 ^ 16 - 1 - w)

-- `map[money.Asset]money.Amount`, in the order of first insertion.
abbrev pub Sums : Type 0
Sums = List (Asset × Amount)

unfoldable pub sum_or_zero : Asset → Sums → Amount
sum_or_zero a [] = record { asset = a; units = pos 0 }
sum_or_zero a ((b, s) ∷ sums) = if asset_eq b a then s else sum_or_zero a sums

unfoldable pub set_sum : Asset → Amount → Sums → Sums
set_sum a s [] = (a, s) ∷ []
set_sum a s ((b, t) ∷ sums) = if asset_eq b a then (a, s) ∷ sums else (b, t) ∷ set_sum a s sums

-- The loop over the lines from index `i` on.
unfoldable pub resolve_lines :
    List Account → ℕ → Sums → List Line → Result (List ResolvedLine × Sums)
resolve_lines accounts i sums [] = ok ([], sums)
resolve_lines accounts i sums (line ∷ lines) = do
  fail_if (eqb_ℤ line.amount.units (pos 0)) zero_amount_line
  account ← get_by_code accounts line.account_code
  fail_if (not (asset_eq line.amount.asset account.asset)) line_asset_mismatch
  sum ← add (sum_or_zero account.asset sums) line.amount
  rest ← resolve_lines accounts (suc i) (set_sum account.asset sum sums) lines
  ok (record { seq = int16 i; account = account; amount = line.amount } ∷ rest.0, rest.1)

unfoldable pub all_zero : Sums → Bool
all_zero [] = true
all_zero ((a, s) ∷ sums) = if eqb_ℤ s.units (pos 0) then all_zero sums else false

unfoldable pub validate : List Account → EntryRequest → Result (List ResolvedLine)
validate accounts req = do
  validate_idempotency_key req.idempotency_key
  fail_if (ltb (length req.lines) 2) too_few_lines
  fail_if (ltb max_lines (length req.lines)) too_many_lines
  resolved ← resolve_lines accounts 0 [] req.lines
  fail_if (not (all_zero resolved.1)) unbalanced
  ok resolved.0

-- What is hashed.
pub record HashLine : Type 0 where
  pub account_code : Text
  pub asset : Text
  pub amount : ℤ

pub record HashPayload : Type 0 where
  pub entry_type : Text
  pub order_id : Option ℕ
  pub lines : List HashLine
  pub occurred_at : ℕ

-- `string(asset)`.
abbrev pub asset_text : Asset → Text
asset_text usdt_bep20 = bytes "USDT_BEP20"
asset_text usdt_trc20 = bytes "USDT_TRC20"
asset_text trx = bytes "TRX"
asset_text bnb = bytes "BNB"
asset_text (other s) = s

unfoldable pub hash_line_lt : HashLine → HashLine → Bool
hash_line_lt x y =
    if not (text_eq x.account_code y.account_code)
    then text_lt x.account_code y.account_code
    else if not (text_eq x.asset y.asset)
    then text_lt x.asset y.asset
    else ltb_ℤ x.amount y.amount

abbrev pub hash_line : Line → HashLine
hash_line l = record {
  account_code = l.account_code;
  asset = asset_text l.amount.asset;
  amount = l.amount.units;
}

-- `Truncate(time.Microsecond)`.
unfoldable pub truncate_to_microsecond : ℕ → ℕ
truncate_to_microsecond t = t - t % 1000

-- The payload that canonicalHash encodes.
unfoldable pub canonical_payload : EntryRequest → HashPayload
canonical_payload req = record {
  entry_type = req.entry_type;
  order_id = req.order_id;
  lines = sort_by hash_line_lt (map hash_line req.lines);
  occurred_at = truncate_to_microsecond req.occurred_at;
}
