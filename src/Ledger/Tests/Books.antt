-- ===== src/Ledger/Tests/Books.antt =====
-- Runs on the books: the chart, the deposit, a retry, a conflict, the reversal, the checks.
use usdt_settlement_corridor.Base.{
  ℕ, ◌≡◌, ◌≢◌, ◌↔◌, refl, ap, true, false, [], ◌∷◌, All, arith, replicate,
}
use usdt_settlement_corridor.Base.Text.{Text, bytes, text_eq, text_eq_refl}
use usdt_settlement_corridor.Base.Int.{pos, negsuc, ◌+ℤ◌, ◌-ℤ◌, neg64, wrap64}
use usdt_settlement_corridor.Base.Sort.{sort_by, insert_by}
use usdt_settlement_corridor.Base.Table.{find_by, exists_by, select}
use usdt_settlement_corridor.Ledger.Error.{ok, err, idempotency_conflict}
use usdt_settlement_corridor.Ledger.Money.{usdt_bep20, usdt_trc20, neg, validate, valid, decimals}
use usdt_settlement_corridor.Ledger.Database.{asset_type, liability, revenue, Books, empty_books}
use usdt_settlement_corridor.Ledger.Accounts.{type_valid, normal_side_for}
use usdt_settlement_corridor.Ledger.Tests.Data.{
  empty-IsBooks, deposit_resolved, deposit_valid, reversal_applied,
}
use mathlib.Core.List.Perm
use usdt_settlement_corridor.Ledger.Journal.Entry.{EntryRequest, canonical_payload}
use usdt_settlement_corridor.Ledger.Journal.Posting.{
  replayed, post, get_entry_by_id, load_lines, join_accounts,
}
use usdt_settlement_corridor.Ledger.Journal.Reversing.{negate_lines, reverses}
use usdt_settlement_corridor.Ledger.Journal.Balances.{balance_as_of, verify_balances, account_total}
use usdt_settlement_corridor.Ledger.Journal.Sums.{LinesFit}
use usdt_settlement_corridor.Ledger.Journal.Validation.{Accepts, validate_sound}
use usdt_settlement_corridor.Ledger.Journal.Invariant.{IsBooks, lines_of}
use usdt_settlement_corridor.Ledger.Journal.Opening.{create-IsBooks}
use usdt_settlement_corridor.Ledger.Journal.Outcomes.{post-IsBooks}
use usdt_settlement_corridor.Ledger.Journal.Replay.{post_twice, post_conflict}
use usdt_settlement_corridor.Ledger.Journal.Hash.{canonical_payload_perm}
use usdt_settlement_corridor.Ledger.Journal.SelfCheck.{Agrees, verify_balances_exact}
use usdt_settlement_corridor.Ledger.Journal.Reversal.{reverse_entry_net}
use usdt_settlement_corridor.Ledger.Journal.History.{post-balance_as_of}
use usdt_settlement_corridor.Ledger.Tests.Data.{
  type_digest, no_orders, hot, owed, one_account, two_accounts, hot_created, owed_created, line,
  deposit, other_deposit, deposit_row, deposited, posted_deposit, deposit_posted, reversed_books,
  posted_reversal, deposit_reversed,
}

deposit_fits : LinesFit deposit.lines
deposit_fits = ((omega arith, omega arith), ((omega arith, omega arith), tt))

two-IsBooks : IsBooks two_accounts
two-IsBooks =
    create-IsBooks (bytes "liability:customer") liability usdt_bep20 one_account two_accounts owed
      (create-IsBooks (bytes "asset:hot") asset_type usdt_bep20 empty_books one_account hot
        empty-IsBooks hot_created)
      owed_created

pub deposited-IsBooks : IsBooks deposited
deposited-IsBooks =
    post-IsBooks type_digest no_orders two_accounts deposit posted_deposit deposited two-IsBooks
      deposit_fits deposit_posted

known : (type_valid revenue ≡ true) × (valid usdt_trc20 ≡ true)
unfolding type_valid normal_side_for valid decimals
known = (refl, refl)

validate_sound_example : Accepts two_accounts.accounts deposit deposit_resolved
validate_sound_example =
    validate_sound two_accounts.accounts deposit deposit_resolved deposit_fits deposit_valid.0

post-IsBooks_example : IsBooks deposited
post-IsBooks_example =
    post-IsBooks type_digest no_orders two_accounts deposit posted_deposit deposited two-IsBooks
      deposit_fits deposit_posted

post_twice_example :
    post type_digest no_orders deposited deposit
    ≡ ok (record posted_deposit { outcome = replayed }, deposited)
post_twice_example =
    post_twice type_digest no_orders two_accounts deposit posted_deposit deposited two-IsBooks
      deposit_fits deposit_posted

types_differ :
    type_digest (canonical_payload deposit) ≢ type_digest (canonical_payload other_deposit)
unfolding canonical_payload text_eq
types_differ h = absurd (other_text _ _ h refl)
  where
    other_text : (x y : Text) → x ≡ y → text_eq x y ≡ false → ⊥
    other_text x y e h = ground (arith, e, h, text_eq_refl x, ap (text_eq x) e)

post_conflict_example :
    post type_digest no_orders deposited other_deposit ≡ err idempotency_conflict
post_conflict_example =
    post_conflict type_digest no_orders two_accounts deposit other_deposit posted_deposit deposited
      deposit_resolved deposit_posted refl deposit_valid.1 types_differ

abbrev deposit_swapped : EntryRequest
deposit_swapped = record deposit {
  idempotency_key = bytes "deposit:2";
  occurred_at = 1_999;
  lines = line (bytes "liability:customer") (negsuc 4) ∷ line (bytes "asset:hot") (pos 5) ∷ [];
}

canonical_payload_perm_example : canonical_payload deposit ≡ canonical_payload deposit_swapped
canonical_payload_perm_example =
    canonical_payload_perm deposit deposit_swapped refl refl (Perm.swap _ _ _) refl

reverse_entry_net_example :
    IsBooks reversed_books
    × ((j : ℕ)
        → account_total j reversed_books.lines +ℤ account_total j (lines_of 1 deposited.lines)
          ≡ account_total j deposited.lines)
reverse_entry_net_example =
    reverse_entry_net type_digest deposited 1 (bytes "watcher") (bytes "reorg") 2_000
      posted_reversal reversed_books deposited-IsBooks deposit_reversed

verify_balances_exact_example :
    (verify_balances deposited ≡ ok []) ↔ All (Agrees deposited) deposited.accounts
verify_balances_exact_example = verify_balances_exact deposited

post-balance_as_of_example :
    balance_as_of deposited (bytes "asset:hot") 0 ≡ balance_as_of two_accounts (bytes "asset:hot") 0
post-balance_as_of_example =
    post-balance_as_of type_digest no_orders two_accounts deposit posted_deposit deposited
      (bytes "asset:hot") 0 (omega arith) deposit_posted

-- A deposit under a key of 241 bytes.
abbrev long_books : Books
long_books = record deposited {
  entries = record deposit_row { idempotency_key = replicate 241 107 } ∷ [];
}

long_lines : negate_lines (load_lines long_books 1) ≡ ok reversal_applied
unfolding load_lines join_accounts negate_lines neg neg64 wrap64 ◌-ℤ◌ select sort_by insert_by
    find_by validate valid decimals
long_lines = refl

long_found :
    (get_entry_by_id long_books 1 ≡ ok (record deposit_row { idempotency_key = replicate 241 107 }))
    × (exists_by (reverses 1) long_books.entries ≡ false)
unfolding get_entry_by_id find_by exists_by
long_found = (refl, refl)
