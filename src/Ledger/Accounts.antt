-- ===== src/Ledger/Accounts.antt =====
-- ledger/internal/accounts: the chart of accounts.
pub mod Codes
pub mod Chart
use usdt_settlement_corridor.Base.{
  ℕ, suc, ◌+◌, Bool, true, false, ◌&&◌, not, List, [], ◌∷◌, ◌++◌, Option, none, some, length,
  get_elem?, ltb, ◌==◌, if◌then◌else◌,
}
use usdt_settlement_corridor.Base.Text.{Text, text_eq, text_lt, is_empty}
use usdt_settlement_corridor.Base.Table.{find_by, exists_by, select}
use usdt_settlement_corridor.Base.Sort.{sort_by}
use usdt_settlement_corridor.Base.Int.{ℤ, pos, negsuc}
use usdt_settlement_corridor.Ledger.Error.{
  unknown_account_type, account_not_found, invalid_code, unknown_asset, Result, ok, err, ◌>>=◌,
  ◌>>◌, fail_if, or_fail,
}
use usdt_settlement_corridor.Ledger.Money.{Asset, asset_eq, valid}
use usdt_settlement_corridor.Ledger.Database.{
  AccountType, asset_type, liability, revenue, expense, equity, position, unknown_type, Account,
  Books,
}

unfoldable pub normal_side_for : AccountType → Result ℤ
normal_side_for asset_type = ok (pos 1)
normal_side_for expense = ok (pos 1)
normal_side_for liability = ok (negsuc 0)
normal_side_for revenue = ok (negsuc 0)
normal_side_for equity = ok (negsuc 0)
normal_side_for position = ok (pos 0)
normal_side_for (unknown_type s) = err unknown_account_type

unfoldable pub type_valid : AccountType → Bool
unfolding normal_side_for
type_valid t = elim (normal_side_for t) [ ok _ ↦ true | err _ ↦ false ]

-- A parsed account code.
pub record Code : Type 0 where
  pub raw : Text
  pub category : Text
  pub segments : List Text

abbrev pub colon : ℕ
colon = b':'

-- `c` put in front of the first part.
abbrev pub push_head : ℕ → List Text → List Text
push_head c [] = (c ∷ []) ∷ []
push_head c (p ∷ ps) = (c ∷ p) ∷ ps

-- `strings.Split` at a one-byte separator.
unfoldable pub split : ℕ → Text → List Text
split sep [] = [] ∷ []
split sep (c ∷ s) = let rest = split sep s in if c == sep then [] ∷ rest else push_head c rest

unfoldable pub any_empty : List Text → Bool
any_empty [] = false
any_empty (p ∷ ps) = if is_empty p then true else any_empty ps

abbrev pub of_parts : Text → List Text → Result Code
of_parts code [] = err invalid_code
of_parts code (category ∷ segments) =
    ok (record { raw = code; category = category; segments = segments })

unfoldable pub parse_code : Text → Result Code
parse_code code = do
  fail_if (is_empty code) invalid_code
  let parts = split colon code
  fail_if (ltb (length parts) 2) invalid_code
  fail_if (any_empty parts) invalid_code
  of_parts code parts

-- `Code.Segment` at an index that is not negative; the pair `("", false)` is `none`.
unfoldable pub segment : Code → ℕ → Option Text
segment c i = get_elem? c.segments i

unfoldable pub get_by_code : List Account → Text → Result Account
get_by_code accounts code = or_fail (find_by (λ a. text_eq a.code code) accounts) account_not_found

-- `Create`: INSERT … ON CONFLICT (code) DO NOTHING, and the row that is there if that did nothing.
unfoldable pub create : Text → AccountType → Asset → Books → Result (Account × Books)
create code t asset b = do
  parsed ← parse_code code
  fail_if (not (type_valid t)) unknown_account_type
  fail_if (not (valid asset)) unknown_asset
  normal_side ← normal_side_for t
  let account : Account = record {
    id = b.next_account;
    code = code;
    kind = t;
    asset = asset;
    normal_side = normal_side;
    is_active = true;
  }
  if exists_by (λ a. text_eq a.code code) b.accounts
      then (do existing ← get_by_code b.accounts code; ok (existing, b))
      else ok (
        account,
        record b { accounts = b.accounts ++ (account ∷ []); next_account = suc b.next_account },
      )
