-- ===== src/Ledger/Journal/Posting.antt =====
-- Posting an entry and reading it back (post.go and lookup.go of ledger/internal/journal). A call is
-- a function of the tables; its error result leaves no new tables, since the transaction that it runs
-- in is rolled back.
use usdt_settlement_corridor.Base.{
  ℕ, suc, Bool, true, not, List, [], ◌∷◌, ◌++◌, Option, none, some, map, ltb, ◌==◌, if◌then◌else◌,
}
use usdt_settlement_corridor.Base.Text.{Text, bytes, text_eq}
use usdt_settlement_corridor.Base.Table.{find_by, select}
use usdt_settlement_corridor.Base.Sort.{sort_by}
use usdt_settlement_corridor.Base.Int.{ℤ, ◌+ℤ◌, ltb_ℤ}
use usdt_settlement_corridor.Ledger.Error.{
  idempotency_conflict, entry_not_found, database, Result, ok, ◌>>=◌, ◌>>◌, fail_if, or_fail,
}
use usdt_settlement_corridor.Ledger.Money.{Asset, Amount}
use usdt_settlement_corridor.Ledger.Database.{Account, EntryRow, LineRow, BalanceRow, Books}
use usdt_settlement_corridor.Ledger.Journal.Entry.{
  EntryRequest, ResolvedLine, HashPayload, validate, canonical_payload,
}

pub record PostedLine : Type 0 where
  pub seq : ℤ
  pub account_id : ℕ
  pub account_code : Text
  pub amount : Amount

pub data Outcome : Type 0 where
  created replayed : Outcome

-- `journal.Entry`: the row, the lines and whether this call wrote it.
pub record Entry : Type 0 where
  pub row : EntryRow
  pub lines : List PostedLine
  pub outcome : Outcome

pub record LineToApply : Type 0 where
  pub seq : ℤ
  pub account_id : ℕ
  pub account_code : Text
  pub asset : Asset
  pub units : ℤ

abbrev pub line_row : ℕ → LineToApply → LineRow
line_row entry l = record {
  entry_id = entry;
  seq = l.seq;
  account_id = l.account_id;
  asset = l.asset;
  units = l.units;
}

abbrev pub posted_line : LineToApply → PostedLine
posted_line l = record {
  seq = l.seq;
  account_id = l.account_id;
  account_code = l.account_code;
  amount = record { asset = l.asset; units = l.units };
}

-- INSERT INTO account_balances … ON CONFLICT (account_id) DO UPDATE.
unfoldable pub apply_balance : ℕ → LineToApply → List BalanceRow → List BalanceRow
apply_balance entry l [] =
    record { account_id = l.account_id; asset = l.asset; units = l.units; last_entry_id = entry }
    ∷ []
apply_balance entry l (r ∷ rs) =
    if r.account_id == l.account_id
    then record r { units = r.units +ℤ l.units; last_entry_id = entry } ∷ rs
    else r ∷ apply_balance entry l rs

unfoldable pub apply_balances : ℕ → List LineToApply → List BalanceRow → List BalanceRow
apply_balances entry [] rs = rs
apply_balances entry (l ∷ ls) rs = apply_balances entry ls (apply_balance entry l rs)

abbrev pub by_account : LineToApply → LineToApply → Bool
by_account x y = ltb x.account_id y.account_id

-- Lines in the order given, balances in ascending order of the account.
unfoldable pub insert_lines_and_apply_balances :
    ℕ → List LineToApply → Books → List PostedLine × Books
insert_lines_and_apply_balances entry ls b = (
  map posted_line ls,
  record b {
    lines = b.lines ++ map (line_row entry) ls;
    balances = apply_balances entry (sort_by by_account ls) b.balances;
  },
)

abbrev pub to_apply : ResolvedLine → LineToApply
to_apply r = record {
  seq = r.seq;
  account_id = r.account.id;
  account_code = r.account.code;
  asset = r.amount.asset;
  units = r.amount.units;
}

unfoldable pub post_lines : EntryRow → List ResolvedLine → Books → Entry × Books
post_lines row resolved b =
    let written = insert_lines_and_apply_balances row.id (map to_apply resolved) b in
    (record { row = row; lines = written.0; outcome = created }, written.1)

-- One row of `journal_lines JOIN accounts`, where the account exists.
abbrev pub joined : List Account → LineRow → List PostedLine → List PostedLine
joined accounts r rest = elim (find_by (λ a. a.id == r.account_id) accounts) [
  | none ↦ rest
  | some a ↦
      record {
        seq = r.seq;
        account_id = r.account_id;
        account_code = a.code;
        amount = record { asset = r.asset; units = r.units };
      }
      ∷ rest
]

unfoldable pub join_accounts : List Account → List LineRow → List PostedLine
join_accounts accounts [] = []
join_accounts accounts (r ∷ rs) = joined accounts r (join_accounts accounts rs)

abbrev pub by_seq : PostedLine → PostedLine → Bool
by_seq x y = ltb_ℤ x.seq y.seq

unfoldable pub load_lines : Books → ℕ → List PostedLine
load_lines b entry =
    sort_by by_seq (join_accounts b.accounts (select (λ r. r.entry_id == entry) b.lines))

unfoldable pub get_entry_by_idempotency_key : Books → Text → Result EntryRow
get_entry_by_idempotency_key b key =
    or_fail (find_by (λ e. text_eq e.idempotency_key key) b.entries) entry_not_found

unfoldable pub get_entry_by_id : Books → ℕ → Result EntryRow
get_entry_by_id b i = or_fail (find_by (λ e. e.id == i) b.entries) entry_not_found

unfoldable pub resolve_existing : Books → EntryRow → Text → Result (Entry × Books)
resolve_existing b existing hash = do
  fail_if (not (text_eq existing.payload_hash hash)) idempotency_conflict
  ok (record { row = existing; lines = load_lines b existing.id; outcome = replayed }, b)

-- A foreign key that may be null.
abbrev pub references : (ℕ → Bool) → Option ℕ → Bool
references known none = true
references known (some i) = known i

-- `digest` is SHA-256 of the JSON encoding; `order_known` tells the ids in the orders table.
module _ (digest : HashPayload → Text) (order_known : ℕ → Bool) where
  abbrev pub new_row : Books → EntryRequest → EntryRow
  new_row b req = record {
    id = b.next_entry;
    idempotency_key = req.idempotency_key;
    payload_hash = digest (canonical_payload req);
    entry_type = req.entry_type;
    order_id = req.order_id;
    actor = req.actor;
    occurred_at = req.occurred_at;
    reversal_of = none;
    metadata = elim req.metadata [ none ↦ bytes "{}" | some m ↦ m ];
  }

  -- The INSERT that wins, with the lines.
  unfoldable pub insert_entry : Books → EntryRequest → List ResolvedLine → Result (Entry × Books)
  insert_entry b req resolved = do
    fail_if (not (references order_known req.order_id)) database
    let row = new_row b req
    ok (
        post_lines row resolved
          (record b { entries = b.entries ++ (row ∷ []); next_entry = suc b.next_entry }))

  unfoldable pub post : Books → EntryRequest → Result (Entry × Books)
  post b req = do
    resolved ← validate b.accounts req
    elim (find_by (λ e. text_eq e.idempotency_key req.idempotency_key) b.entries) [
      | none ↦ insert_entry b req resolved
      | some existing ↦ resolve_existing b existing (digest (canonical_payload req))
    ]
