-- ===== src/Ledger/Journal/Invariant.antt =====
-- The invariant of the books, and that a balanced entry keeps it.
use usdt_settlement_corridor.Base.{
  ℕ, suc, ◌<◌, ◌≡◌, refl, ap, ◌∙◌, true, false, List, [], ◌∷◌, ◌++◌, none, some, map, ◌==◌, ==_iff,
  arith, All, All-map,
}
use mathlib.Core.List.{append-nil}
use mathlib.Core.Path.{ap₂}
use usdt_settlement_corridor.Base.Text.{text_eq}
use usdt_settlement_corridor.Base.Sort.{sort_by}
use usdt_settlement_corridor.Base.Table.{
  find_by, select, select-append, select-All-false, select-All-true,
}
use usdt_settlement_corridor.Base.Int.{pos, IsInt64}
use usdt_settlement_corridor.Ledger.Money.{Asset}
use usdt_settlement_corridor.Ledger.Database.{Account, EntryRow, LineRow, Books}
use usdt_settlement_corridor.Ledger.Accounts.Chart.{IsChart, account_by_id}
use usdt_settlement_corridor.Ledger.Journal.Posting.{
  LineToApply, line_row, apply_balances, by_account,
}
use usdt_settlement_corridor.Ledger.Journal.Balances.{account_total, asset_total, cached_units}
use usdt_settlement_corridor.Ledger.Journal.Totals.{applied_asset_total}

-- The lines of one entry.
abbrev pub lines_of : ℕ → List LineRow → List LineRow
lines_of e = select (λ r. r.entry_id == e)

-- A line is on a known account, in that account's asset, and its units are an int64.
pub record IsLineOf (accounts : List Account) (next : ℕ) (r : LineRow) : Type 0 where
  pub below : r.entry_id < next
  pub account : Account
  pub known : account_by_id accounts r.account_id ≡ some account
  pub same_asset : account.asset ≡ r.asset
  pub fits : IsInt64 r.units

pub record IsEntryOf (entries : List EntryRow) (next : ℕ) (e : EntryRow) : Type 0 where
  pub below : e.id < next
  pub by_id : find_by (λ x. x.id == e.id) entries ≡ some e
  pub by_key : find_by (λ x. text_eq x.idempotency_key e.idempotency_key) entries ≡ some e

-- The books are well formed: the chart is, ids and keys of entries are unique, every line is in
-- order, the cache of every account is the sum of its lines, and the lines of every entry, and all
-- lines together, add up to zero in every asset.
pub record IsBooks (b : Books) : Type 0 where
  pub chart : IsChart b
  pub entries : All (IsEntryOf b.entries b.next_entry) b.entries
  pub lines : All (IsLineOf b.accounts b.next_entry) b.lines
  pub cache : (j : ℕ) → cached_units j b.balances ≡ account_total j b.lines
  pub entry_closed : (e : ℕ) (a : Asset) → asset_total a (lines_of e b.lines) ≡ pos 0
  pub closed : (a : Asset) → asset_total a b.lines ≡ pos 0

-- A line that may be written: on a known account, in its asset, an int64.
pub record IsWritable (accounts : List Account) (l : LineToApply) : Type 0 where
  pub account : Account
  pub known : account_by_id accounts l.account_id ≡ some account
  pub same_asset : account.asset ≡ l.asset
  pub fits : IsInt64 l.units

-- The books with one more entry.
abbrev pub with_entry : Books → EntryRow → List LineToApply → Books
with_entry b row ls = record b {
  entries = b.entries ++ (row ∷ []);
  next_entry = suc b.next_entry;
  lines = b.lines ++ map (line_row row.id) ls;
  balances = apply_balances row.id (sort_by by_account ls) b.balances;
}

-- What the new entry must meet.
pub record IsNew (b : Books) (row : EntryRow) (ls : List LineToApply) : Type 0 where
  pub next : row.id ≡ b.next_entry
  pub key_free : find_by (λ x. text_eq x.idempotency_key row.idempotency_key) b.entries ≡ none
  pub writable : All (IsWritable b.accounts) ls
  pub balanced : (a : Asset) → applied_asset_total a ls ≡ pos 0

lines_of_new :
    (n : ℕ) (ls : List LineToApply) → lines_of n (map (line_row n) ls) ≡ map (line_row n) ls
lines_of_new n ls = select-All-true _ (map (line_row n) ls) (all_new ls)
  where
    all_new :
        (ls : List LineToApply)
        → All (λ (r : LineRow). (r.entry_id == n) ≡ true) (map (line_row n) ls)
    all_new [] = tt
    all_new (l ∷ ls) = ((==_iff n n).1 refl, all_new ls)

lines_of_other :
    (n e : ℕ) (ls : List LineToApply) → (n == e) ≡ false → lines_of e (map (line_row n) ls) ≡ []
lines_of_other n e ls h = select-All-false _ (map (line_row n) ls) (none_other ls)
  where
    none_other :
        (ls : List LineToApply)
        → All (λ (r : LineRow). (r.entry_id == e) ≡ false) (map (line_row n) ls)
    none_other [] = tt
    none_other (l ∷ ls) = (h, none_other ls)

-- No line stands under the next id.
pub lines_of_next : (b : Books) → IsBooks b → lines_of b.next_entry b.lines ≡ []
lines_of_next b v =
    select-All-false _ b.lines (
      All-map _ _ b.lines (λ r (k : IsLineOf b.accounts b.next_entry r). earlier r k.below) v.lines)
  where
    earlier : (r : LineRow) → r.entry_id < b.next_entry → (r.entry_id == b.next_entry) ≡ false
    earlier r l = ground arith

-- The new entry's lines are those written, and the other entries keep theirs.
pub lines_of-with_entry_new :
    (b : Books) (row : EntryRow) (ls : List LineToApply)
    → IsBooks b
    → row.id ≡ b.next_entry
    → lines_of row.id (with_entry b row ls).lines ≡ map (line_row row.id) ls
lines_of-with_entry_new b row ls v e =
    let none_before : lines_of row.id b.lines ≡ [] = rw e (lines_of_next b v) in
    select-append _ b.lines (map (line_row row.id) ls)
    ∙ ap₂ ◌++◌ none_before (lines_of_new row.id ls)

pub lines_of-with_entry_other :
    (b : Books) (row : EntryRow) (ls : List LineToApply) (e : ℕ)
    → (row.id == e) ≡ false
    → lines_of e (with_entry b row ls).lines ≡ lines_of e b.lines
lines_of-with_entry_other b row ls e h =
    select-append _ b.lines (map (line_row row.id) ls)
    ∙ ap (λ t. lines_of e b.lines ++ t) (lines_of_other row.id e ls h)
    ∙ append-nil (lines_of e b.lines)
