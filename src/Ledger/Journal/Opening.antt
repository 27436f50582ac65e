-- ===== src/Ledger/Journal/Opening.antt =====
-- Opening an account (ledger/internal/accounts/store.go) in books that hold entries.
use usdt_settlement_corridor.Base.{ℕ, ◌≡◌, [], ◌∷◌, some, arith, ◌==◌, All-map}
use usdt_settlement_corridor.Base.Text.{Text}
use usdt_settlement_corridor.Base.Table.{find_by-append_some}
use usdt_settlement_corridor.Ledger.Error.{ok}
use usdt_settlement_corridor.Ledger.Money.{Asset}
use usdt_settlement_corridor.Ledger.Database.{AccountType, Account, Books}
use usdt_settlement_corridor.Ledger.Accounts.{create}
use usdt_settlement_corridor.Ledger.Accounts.Chart.{create-IsChart, account_by_id}
use usdt_settlement_corridor.Ledger.Journal.Invariant.{IsBooks, IsLineOf}

-- Create leaves the entries alone, and keeps every account that it found.
create_rest :
    (code : Text) (t : AccountType) (asset : Asset) (b b' : Books) (a : Account)
    → create code t asset b ≡ ok (a, b')
    → (b'.entries ≡ b.entries)
      × (b'.next_entry ≡ b.next_entry)
      × (b'.lines ≡ b.lines)
      × (b'.balances ≡ b.balances)
unfolding create
create_rest code t asset b b' a e = (ground arith, ground arith, ground arith, ground arith)

create_keeps :
    (code : Text) (t : AccountType) (asset : Asset) (b b' : Books) (a : Account) (i : ℕ)
    (x : Account)
    → create code t asset b ≡ ok (a, b')
    → account_by_id b.accounts i ≡ some x
    → account_by_id b'.accounts i ≡ some x
unfolding create
create_keeps code t asset b b' a i x e h =
    ground (arith, find_by-append_some (λ y. y.id == i) b.accounts (a ∷ []) x)

-- Opening an account keeps the books well formed.
pub create-IsBooks :
    (code : Text) (t : AccountType) (asset : Asset) (b b' : Books) (a : Account)
    → IsBooks b
    → create code t asset b ≡ ok (a, b')
    → IsBooks b'
create-IsBooks code t asset b b' a v e =
    let (entries, next, lines, balances) = create_rest code t asset b b' a e in
    record {
      chart = (create-IsChart code t asset b b' a v.chart e).0;
      entries = rw (entries, next) v.entries;
      lines =
          rw (lines, next)
            (All-map _ _ b.lines
              (λ r (k : IsLineOf b.accounts b.next_entry r). record {
                below = k.below;
                account = k.account;
                known = create_keeps code t asset b b' a r.account_id k.account e k.known;
                same_asset = k.same_asset;
                fits = k.fits;
              })
              v.lines);
      cache = rw (balances, lines) v.cache;
      entry_closed = rw lines v.entry_closed;
      closed = rw lines v.closed;
    }
