-- ===== src/Ledger/Journal/Totals.antt =====
-- Totals over the lines, and the cache of balances under an entry's lines.
use usdt_settlement_corridor.Base.{
  ℕ, ◌≡◌, refl, ◌∙◌, List, [], ◌∷◌, ◌++◌, map, ◌==◌, arith, if◌then◌else◌,
}
use usdt_settlement_corridor.Base.Sort.{insert_by, sort_by}
use usdt_settlement_corridor.Base.Int.{ℤ, pos, ◌+ℤ◌, int_laws}
use usdt_settlement_corridor.Ledger.Money.{Asset, asset_eq}
use usdt_settlement_corridor.Ledger.Database.{LineRow, BalanceRow}
use usdt_settlement_corridor.Ledger.Journal.Entry.{ResolvedLine}
use usdt_settlement_corridor.Ledger.Journal.Sums.{resolved_total}
use usdt_settlement_corridor.Ledger.Journal.Posting.{
  LineToApply, line_row, to_apply, apply_balance, apply_balances, by_account,
}
use usdt_settlement_corridor.Ledger.Journal.Balances.{account_total, asset_total, cached_units}

-- What lines add to an account, and to an asset.
unfoldable pub applied_total : ℕ → List LineToApply → ℤ
applied_total j [] = pos 0
applied_total j (l ∷ ls) =
    if l.account_id == j then l.units +ℤ applied_total j ls else applied_total j ls

unfoldable pub applied_asset_total : Asset → List LineToApply → ℤ
applied_asset_total a [] = pos 0
applied_asset_total a (l ∷ ls) =
    if asset_eq l.asset a then l.units +ℤ applied_asset_total a ls else applied_asset_total a ls

pub account_total-append :
    (j : ℕ) (xs ys : List LineRow)
    → account_total j (xs ++ ys) ≡ account_total j xs +ℤ account_total j ys
unfolding account_total
account_total-append j [] ys = omega int_laws
account_total-append j (x ∷ xs) ys = grind (int_laws, account_total-append j xs ys)

pub asset_total-append :
    (a : Asset) (xs ys : List LineRow)
    → asset_total a (xs ++ ys) ≡ asset_total a xs +ℤ asset_total a ys
unfolding asset_total
asset_total-append a [] ys = omega int_laws
asset_total-append a (x ∷ xs) ys = grind (int_laws, asset_total-append a xs ys)

pub account_total-line_row :
    (j e : ℕ) (ls : List LineToApply) → account_total j (map (line_row e) ls) ≡ applied_total j ls
unfolding account_total applied_total
account_total-line_row j e [] = refl
account_total-line_row j e (l ∷ ls) = ground (arith, account_total-line_row j e ls)

pub asset_total-line_row :
    (a : Asset) (e : ℕ) (ls : List LineToApply)
    → asset_total a (map (line_row e) ls) ≡ applied_asset_total a ls
unfolding asset_total applied_asset_total
asset_total-line_row a e [] = refl
asset_total-line_row a e (l ∷ ls) = ground (arith, asset_total-line_row a e ls)

pub applied_asset_total-to_apply :
    (a : Asset) (rs : List ResolvedLine)
    → applied_asset_total a (map to_apply rs) ≡ resolved_total a rs
unfolding applied_asset_total resolved_total
applied_asset_total-to_apply a [] = refl
applied_asset_total-to_apply a (r ∷ rs) = ground (arith, applied_asset_total-to_apply a rs)

-- The order of the lines does not matter to a total.
applied_total-insert_by :
    (j : ℕ) (x : LineToApply) (ls : List LineToApply)
    → applied_total j (insert_by by_account x ls) ≡ applied_total j (x ∷ ls)
unfolding applied_total insert_by
applied_total-insert_by j x [] = refl
applied_total-insert_by j x (l ∷ ls) = grind (int_laws, applied_total-insert_by j x ls)

pub applied_total-sort_by :
    (j : ℕ) (ls : List LineToApply) → applied_total j (sort_by by_account ls) ≡ applied_total j ls
unfolding applied_total sort_by
applied_total-sort_by j [] = refl
applied_total-sort_by j (l ∷ ls) =
    applied_total-insert_by j l (sort_by by_account ls) ∙ ground (arith, applied_total-sort_by j ls)

-- One upsert adds the line's units to its account and to no other.
cached_units-apply_balance :
    (j e : ℕ) (l : LineToApply) (rs : List BalanceRow)
    → cached_units j (apply_balance e l rs)
      ≡ (if l.account_id == j then cached_units j rs +ℤ l.units else cached_units j rs)
unfolding cached_units apply_balance
cached_units-apply_balance j e l [] = grind int_laws
cached_units-apply_balance j e l (r ∷ rs) = ground (arith, cached_units-apply_balance j e l rs)

-- All of an entry's lines add their total to the cache.
pub cached_units-apply_balances :
    (j e : ℕ) (ls : List LineToApply) (rs : List BalanceRow)
    → cached_units j (apply_balances e ls rs) ≡ cached_units j rs +ℤ applied_total j ls
unfolding apply_balances applied_total
cached_units-apply_balances j e [] rs = omega int_laws
cached_units-apply_balances j e (l ∷ ls) rs = grind (
  int_laws,
  cached_units-apply_balances j e ls (apply_balance e l rs),
  cached_units-apply_balance j e l rs,
)
