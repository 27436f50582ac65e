-- ===== src/Ledger/Journal/Balances.antt =====
-- Reading balances (ledger/internal/journal/balance.go): from the cache, from the lines, and the
-- checks that compare them.
use usdt_settlement_corridor.Base.{ℕ, Bool, not, List, [], ◌∷◌, leb, ◌==◌, if◌then◌else◌}
use usdt_settlement_corridor.Base.Text.{Text, text_lt}
use usdt_settlement_corridor.Base.Table.{exists_by, select}
use usdt_settlement_corridor.Base.Sort.{sort_by}
use usdt_settlement_corridor.Base.Int.{ℤ, pos, ◌+ℤ◌, eqb_ℤ, fits_int64}
use usdt_settlement_corridor.Ledger.Error.{database, Result, ok, err, ◌>>=◌}
use usdt_settlement_corridor.Ledger.Money.{Asset, asset_eq, Amount}
use usdt_settlement_corridor.Ledger.Database.{Account, LineRow, BalanceRow, Books}
use usdt_settlement_corridor.Ledger.Accounts.{get_by_code}

-- SUM(amount_units) over the lines of an account, and of an asset.
unfoldable pub account_total : ℕ → List LineRow → ℤ
account_total j [] = pos 0
account_total j (r ∷ rs) =
    if r.account_id == j then r.units +ℤ account_total j rs else account_total j rs

unfoldable pub asset_total : Asset → List LineRow → ℤ
asset_total a [] = pos 0
asset_total a (r ∷ rs) =
    if asset_eq r.asset a then r.units +ℤ asset_total a rs else asset_total a rs

-- COALESCE(balance_units, 0) of an account.
unfoldable pub cached_units : ℕ → List BalanceRow → ℤ
cached_units j [] = pos 0
cached_units j (r ∷ rs) = if r.account_id == j then r.units else cached_units j rs

-- Reading a numeric column into an int64.
unfoldable pub scan_int64 : ℤ → Result ℤ
scan_int64 z = if fits_int64 z then ok z else err database

abbrev pub amount_of : Account → Result ℤ → Result Amount
amount_of account r = do units ← r; ok (record { asset = account.asset; units = units })

unfoldable pub balance : Books → Text → Result Amount
balance b code = do
  account ← get_by_code b.accounts code
  amount_of account (scan_int64 (cached_units account.id b.balances))

unfoldable pub balance_computed : Books → Text → Result Amount
balance_computed b code = do
  account ← get_by_code b.accounts code
  amount_of account (scan_int64 (account_total account.id b.lines))

unfoldable pub balance_as_of : Books → Text → ℕ → Result Amount
balance_as_of b code max_entry_id = do
  account ← get_by_code b.accounts code
  amount_of account
      (scan_int64 (account_total account.id (select (λ r. leb r.entry_id max_entry_id) b.lines)))

pub record Discrepancy : Type 0 where
  pub account_id : ℕ
  pub account_code : Text
  pub asset : Asset
  pub cached : ℤ
  pub computed : ℤ

abbrev pub differs : Books → Account → Bool
differs b a = not (eqb_ℤ (cached_units a.id b.balances) (account_total a.id b.lines))

-- The rows of the query, each read into int64 fields.
unfoldable pub scan_discrepancies : Books → List Account → Result (List Discrepancy)
scan_discrepancies b [] = ok []
scan_discrepancies b (a ∷ accounts) = do
  cached ← scan_int64 (cached_units a.id b.balances)
  computed ← scan_int64 (account_total a.id b.lines)
  rest ← scan_discrepancies b accounts
  let d : Discrepancy = record {
    account_id = a.id;
    account_code = a.code;
    asset = a.asset;
    cached = cached;
    computed = computed;
  }
  ok (d ∷ rest)

abbrev pub by_code : Account → Account → Bool
by_code x y = text_lt x.code y.code

unfoldable pub verify_balances : Books → Result (List Discrepancy)
verify_balances b = scan_discrepancies b (sort_by by_code (select (differs b) b.accounts))

-- The assets that some line carries, each once.
unfoldable pub line_assets : List LineRow → List Asset
line_assets [] = []
line_assets (r ∷ rs) =
    let rest = line_assets rs in if exists_by (asset_eq r.asset) rest then rest else r.asset ∷ rest

unfoldable pub scan_totals : List LineRow → List Asset → Result (List (Asset × ℤ))
scan_totals lines [] = ok []
scan_totals lines (a ∷ assets) = do
  total ← scan_int64 (asset_total a lines)
  rest ← scan_totals lines assets
  ok ((a, total) ∷ rest)

unfoldable pub trial_balance : Books → Result (List (Asset × ℤ))
trial_balance b = scan_totals b.lines (line_assets b.lines)
