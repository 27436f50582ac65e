-- ===== src/Ledger/Tests/Data.antt =====
-- The accounts, entries and orders that the runs use, and what the operations give on them.
use usdt_settlement_corridor.Base.{ℕ, ◌≡◌, refl, Bool, true, false, List, [], ◌∷◌, none, some}
use usdt_settlement_corridor.Base.Text.{Text, bytes, text_eq, text_lt}
use usdt_settlement_corridor.Base.Int.{ℤ, pos, negsuc, ◌+ℤ◌, ◌-ℤ◌, add64, wrap64, neg64}
use usdt_settlement_corridor.Base.Table.{find_by, exists_by, select}
use usdt_settlement_corridor.Base.Sort.{sort_by, insert_by}
use usdt_settlement_corridor.Ledger.Error.{ok}
use usdt_settlement_corridor.Ledger.Money.{
  usdt_bep20, add, neg, validate, valid, decimals, checked_add_int64,
}
use usdt_settlement_corridor.Ledger.Database.{
  asset_type, liability, Account, EntryRow, Books, empty_books, empty_store,
}
use usdt_settlement_corridor.Ledger.Accounts.{
  create, parse_code, split, any_empty, type_valid, normal_side_for, get_by_code,
}
use usdt_settlement_corridor.Ledger.Journal.Entry as Request
use usdt_settlement_corridor.Ledger.Journal.Entry.{
  hash_line_lt, int16, truncate_to_microsecond, Line, EntryRequest, ResolvedLine, HashPayload,
  validate_idempotency_key, resolve_lines, all_zero, canonical_payload, set_sum, sum_or_zero,
}
use usdt_settlement_corridor.Ledger.Journal.Posting.{
  Entry, created, PostedLine, LineToApply, apply_balance, apply_balances,
  insert_lines_and_apply_balances, post_lines, insert_entry, post, load_lines, join_accounts,
  get_entry_by_id,
}
use usdt_settlement_corridor.Ledger.Journal.Balances.{account_total, cached_units, asset_total}
use usdt_settlement_corridor.Ledger.Journal.Invariant.{IsBooks}
use usdt_settlement_corridor.Ledger.Orders.History.{IsStore}
use usdt_settlement_corridor.Ledger.Journal.Reversing.{reverse_entry, negate_lines, insert_reversal}

-- A digest that keeps the entry's type alone.
abbrev pub type_digest : HashPayload → Text
type_digest p = p.entry_type

abbrev pub no_orders : ℕ → Bool
no_orders i = false

abbrev pub hot : Account
hot = record {
  id = 1;
  code = bytes "asset:hot";
  kind = asset_type;
  asset = usdt_bep20;
  normal_side = pos 1;
  is_active = true;
}

abbrev pub owed : Account
owed = record {
  id = 2;
  code = bytes "liability:customer";
  kind = liability;
  asset = usdt_bep20;
  normal_side = negsuc 0;
  is_active = true;
}

abbrev pub one_account : Books
one_account = record empty_books { accounts = hot ∷ []; next_account = 2 }

abbrev pub two_accounts : Books
two_accounts = record empty_books { accounts = hot ∷ owed ∷ []; next_account = 3 }

pub hot_created :
    create (bytes "asset:hot") asset_type usdt_bep20 empty_books ≡ ok (hot, one_account)
unfolding create parse_code split any_empty type_valid normal_side_for valid decimals exists_by
    text_eq
hot_created = refl

pub owed_created :
    create (bytes "liability:customer") liability usdt_bep20 one_account ≡ ok (owed, two_accounts)
unfolding create parse_code split any_empty type_valid normal_side_for valid decimals exists_by
    text_eq
owed_created = refl

abbrev pub line : Text → ℤ → Line
line code units = record {
  account_code = code;
  amount = record { asset = usdt_bep20; units = units };
}

abbrev pub deposit : EntryRequest
deposit = record {
  idempotency_key = bytes "deposit:1";
  entry_type = bytes "deposit_final";
  actor = bytes "watcher";
  occurred_at = 1_000;
  order_id = none;
  lines = line (bytes "asset:hot") (pos 5) ∷ line (bytes "liability:customer") (negsuc 4) ∷ [];
  metadata = none;
}

-- The same key with another type.
abbrev pub other_deposit : EntryRequest
other_deposit = record deposit { entry_type = bytes "deposit_seen" }

abbrev pub deposit_row : EntryRow
deposit_row = record {
  id = 1;
  idempotency_key = bytes "deposit:1";
  payload_hash = bytes "deposit_final";
  entry_type = bytes "deposit_final";
  order_id = none;
  actor = bytes "watcher";
  occurred_at = 1_000;
  reversal_of = none;
  metadata = bytes "{}";
}

abbrev pub deposit_lines : List PostedLine
deposit_lines =
    record {
      seq = pos 0;
      account_id = 1;
      account_code = bytes "asset:hot";
      amount = record { asset = usdt_bep20; units = pos 5 };
    }
    ∷ record {
      seq = pos 1;
      account_id = 2;
      account_code = bytes "liability:customer";
      amount = record { asset = usdt_bep20; units = negsuc 4 };
    }
    ∷ []

abbrev pub deposited : Books
deposited = record two_accounts {
  entries = deposit_row ∷ [];
  next_entry = 2;
  lines =
      record { entry_id = 1; seq = pos 0; account_id = 1; asset = usdt_bep20; units = pos 5 }
      ∷ record { entry_id = 1; seq = pos 1; account_id = 2; asset = usdt_bep20; units = negsuc 4 }
      ∷ [];
  balances =
      record { account_id = 1; asset = usdt_bep20; units = pos 5; last_entry_id = 1 }
      ∷ record { account_id = 2; asset = usdt_bep20; units = negsuc 4; last_entry_id = 1 }
      ∷ [];
}

abbrev pub posted_deposit : Entry
posted_deposit = record { row = deposit_row; lines = deposit_lines; outcome = created }

pub deposit_posted :
    post type_digest no_orders two_accounts deposit ≡ ok (posted_deposit, deposited)
unfolding post Request.validate validate_idempotency_key resolve_lines get_by_code find_by text_eq
    add validate sum_or_zero checked_add_int64 add64 wrap64 ◌+ℤ◌ set_sum all_zero insert_entry
    post_lines insert_by sort_by select text_lt canonical_payload hash_line_lt int16
    truncate_to_microsecond apply_balance apply_balances insert_lines_and_apply_balances decimals
    valid
deposit_posted = refl

abbrev pub reversal : EntryRow
reversal = record {
  id = 2;
  idempotency_key = bytes "ledger:reverse:deposit:1";
  payload_hash = bytes "reversal";
  entry_type = bytes "reversal";
  order_id = none;
  actor = bytes "watcher";
  occurred_at = 2_000;
  reversal_of = some 1;
  metadata = bytes "reorg";
}

abbrev pub reversal_lines : List PostedLine
reversal_lines =
    record {
      seq = pos 0;
      account_id = 1;
      account_code = bytes "asset:hot";
      amount = record { asset = usdt_bep20; units = negsuc 4 };
    }
    ∷ record {
      seq = pos 1;
      account_id = 2;
      account_code = bytes "liability:customer";
      amount = record { asset = usdt_bep20; units = pos 5 };
    }
    ∷ []

abbrev pub reversed_books : Books
reversed_books = record two_accounts {
  entries = deposit_row ∷ reversal ∷ [];
  next_entry = 3;
  lines =
      record { entry_id = 1; seq = pos 0; account_id = 1; asset = usdt_bep20; units = pos 5 }
      ∷ record { entry_id = 1; seq = pos 1; account_id = 2; asset = usdt_bep20; units = negsuc 4 }
      ∷ record { entry_id = 2; seq = pos 0; account_id = 1; asset = usdt_bep20; units = negsuc 4 }
      ∷ record { entry_id = 2; seq = pos 1; account_id = 2; asset = usdt_bep20; units = pos 5 }
      ∷ [];
  balances =
      record { account_id = 1; asset = usdt_bep20; units = pos 0; last_entry_id = 2 }
      ∷ record { account_id = 2; asset = usdt_bep20; units = pos 0; last_entry_id = 2 }
      ∷ [];
}

abbrev pub posted_reversal : Entry
posted_reversal = record { row = reversal; lines = reversal_lines; outcome = created }

pub deposit_reversed :
    reverse_entry type_digest deposited 1 (bytes "watcher") (bytes "reorg") 2_000
    ≡ ok (posted_reversal, reversed_books)
unfolding reverse_entry negate_lines insert_reversal load_lines join_accounts get_entry_by_id neg
    neg64 ◌-ℤ◌ exists_by Request.validate validate_idempotency_key resolve_lines get_by_code find_by
    text_eq add validate sum_or_zero checked_add_int64 add64 wrap64 ◌+ℤ◌ set_sum all_zero insert_by
    sort_by select text_lt canonical_payload hash_line_lt int16 truncate_to_microsecond
    apply_balance apply_balances insert_lines_and_apply_balances decimals valid
deposit_reversed = refl

abbrev pub deposit_resolved : List ResolvedLine
deposit_resolved =
    record { seq = pos 0; account = hot; amount = record { asset = usdt_bep20; units = pos 5 } }
    ∷ record {
      seq = pos 1;
      account = owed;
      amount = record { asset = usdt_bep20; units = negsuc 4 };
    }
    ∷ []

-- The checks of a request do not read its entry type, and accounts stay when entries are added.
pub deposit_valid :
    (Request.validate two_accounts.accounts deposit ≡ ok deposit_resolved)
    × (Request.validate deposited.accounts other_deposit ≡ ok deposit_resolved)
unfolding Request.validate validate_idempotency_key resolve_lines get_by_code find_by text_eq add
    validate sum_or_zero checked_add_int64 add64 wrap64 ◌+ℤ◌ set_sum all_zero int16 valid decimals
deposit_valid = (refl, refl)

abbrev pub reversal_applied : List LineToApply
reversal_applied =
    record {
      seq = pos 0;
      account_id = 1;
      account_code = bytes "asset:hot";
      asset = usdt_bep20;
      units = negsuc 4;
    }
    ∷ record {
      seq = pos 1;
      account_id = 2;
      account_code = bytes "liability:customer";
      asset = usdt_bep20;
      units = pos 5;
    }
    ∷ []

pub empty-IsBooks : IsBooks empty_books
unfolding account_total cached_units asset_total select
empty-IsBooks = record {
  chart = tt;
  entries = tt;
  lines = tt;
  cache = λ j. refl;
  entry_closed = λ e a. refl;
  closed = λ a. refl;
}

pub empty-IsStore : IsStore empty_store
empty-IsStore = record { books = empty-IsBooks; orders = record { each = tt; logged = tt } }
