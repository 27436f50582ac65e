-- ===== src/Ledger/Tests/Reorgs.antt =====
-- Runs of the handling of deposit reorgs: once before dispatch, once after it.
use usdt_settlement_corridor.Base.{
  ℕ, suc, ◌≡◌, refl, true, false, [], ◌∷◌, Option, none, some, arith, inl,
}
use usdt_settlement_corridor.Base.Text.{bytes, text_eq, text_lt}
use usdt_settlement_corridor.Base.Int.{pos, ◌+ℤ◌, ◌-ℤ◌, add64, wrap64, neg64, IsInt64}
use usdt_settlement_corridor.Base.Table.{find_by, exists_by, select, update_by}
use usdt_settlement_corridor.Base.Sort.{sort_by, insert_by}
use usdt_settlement_corridor.Ledger.Error.{Result, ok, err, already_reversed}
use usdt_settlement_corridor.Ledger.Money.{
  usdt_bep20, usdt_trc20, add, neg, validate, valid, decimals, checked_add_int64,
}
use usdt_settlement_corridor.Ledger.Money.Decimal.{format_int, format_nat}
use usdt_settlement_corridor.Ledger.Database.{
  expense, position, State, quoted, funded, screened, dispatching, direct, Account, EntryRow, Books,
  Order, Store, empty_store,
}
use usdt_settlement_corridor.Ledger.Journal.Entry as Request
use usdt_settlement_corridor.Ledger.Journal.Entry.{
  hash_line_lt, int16, truncate_to_microsecond, Line, EntryRequest, validate_idempotency_key,
  resolve_lines, all_zero, canonical_payload, set_sum, sum_or_zero,
}
use usdt_settlement_corridor.Ledger.Accounts.{get_by_code}
use usdt_settlement_corridor.Ledger.Journal.Sums.{LinesFit}
use usdt_settlement_corridor.Ledger.Journal.Posting.{
  apply_balance, apply_balances, insert_lines_and_apply_balances, post_lines, insert_entry, post,
  load_lines, join_accounts, get_entry_by_id, get_entry_by_idempotency_key,
}
use usdt_settlement_corridor.Ledger.Journal.Reversing.{reverse_entry, negate_lines, insert_reversal}
use usdt_settlement_corridor.Ledger.Journal.Balances.{account_total}
use usdt_settlement_corridor.Ledger.Journal.Invariant.{lines_of}
use usdt_settlement_corridor.Ledger.Halt.{is_halted, set_halt}
use usdt_settlement_corridor.Ledger.Orders.Machine.{
  state_valid, state_eq, tier_valid, transition_table,
}
use usdt_settlement_corridor.Ledger.Orders.Create.{validate_create, create_order, get_order}
use usdt_settlement_corridor.Ledger.Orders.Transition.{
  TransitionParams, validate_transition, halt_gate, entry_gate, post_entry, transition_read,
  transition_write, transition,
}
use usdt_settlement_corridor.Ledger.Orders.History.{
  IsStore, Steps, done, more, ordered, stepped, opened, Steps-IsStore,
}
use usdt_settlement_corridor.Ledger.Orders.Reorg.{
  handle_deposit_reorg, reorg_scenario_a, reorg_scenario_b,
}
use usdt_settlement_corridor.Ledger.Orders.Reorgs.{reorg_before_dispatch}
use usdt_settlement_corridor.Ledger.Orders.Losses.{reorg_post_dispatch}
use usdt_settlement_corridor.Ledger.Orders.Retries.{reorg_post_dispatch_again}
use usdt_settlement_corridor.Ledger.Accounts.{
  create, parse_code, split, any_empty, type_valid, normal_side_for,
}
use usdt_settlement_corridor.Ledger.Tests.Data.{
  type_digest, empty-IsStore, hot, owed, one_account, two_accounts, hot_created, owed_created,
  deposit, deposit_row,
}
use usdt_settlement_corridor.Ledger.Tests.Orders.{params}

abbrev store_of : Result (Order × Store) → Store
store_of (ok r) = r.1
store_of (err e) = empty_store

abbrev lost : Account
lost = record {
  id = 3;
  code = bytes "expense:loss:reorg";
  kind = expense;
  asset = usdt_trc20;
  normal_side = pos 1;
  is_active = true;
}

abbrev corridor : Account
corridor = record {
  id = 4;
  code = bytes "position:corridor:USDT_TRC20";
  kind = position;
  asset = usdt_trc20;
  normal_side = pos 0;
  is_active = true;
}

abbrev three_accounts : Books
three_accounts = record two_accounts { accounts = hot ∷ owed ∷ lost ∷ []; next_account = 4 }

abbrev four_accounts : Books
four_accounts = record two_accounts {
  accounts = hot ∷ owed ∷ lost ∷ corridor ∷ [];
  next_account = 5;
}

lost_created :
    create (bytes "expense:loss:reorg") expense usdt_trc20 two_accounts ≡ ok (lost, three_accounts)
unfolding create parse_code split any_empty type_valid normal_side_for valid decimals exists_by
    text_eq
lost_created = refl

corridor_created :
    create (bytes "position:corridor:USDT_TRC20") position usdt_trc20 three_accounts
    ≡ ok (corridor, four_accounts)
unfolding create parse_code split any_empty type_valid normal_side_for valid decimals exists_by
    text_eq
corridor_created = refl

abbrev opened_store : Store
opened_store = record empty_store { books = four_accounts }

opened-Steps : Steps type_digest empty_store opened_store
opened-Steps =
    more (record empty_store { books = three_accounts }) opened_store
      (more (record empty_store { books = two_accounts })
        (record empty_store { books = three_accounts })
        (more (record empty_store { books = one_account })
          (record empty_store { books = two_accounts })
          (more empty_store (record empty_store { books = one_account }) done
            (opened (bytes "asset:hot") _ usdt_bep20 hot one_account hot_created))
          (opened (bytes "liability:customer") _ usdt_bep20 owed two_accounts owed_created))
        (opened (bytes "expense:loss:reorg") expense usdt_trc20 lost three_accounts lost_created))
      (opened (bytes "position:corridor:USDT_TRC20") position usdt_trc20 corridor four_accounts
        corridor_created)

abbrev fund : TransitionParams
fund = record {
  actor = bytes "watcher";
  reason = bytes "deposit";
  occurred_at = 3;
  entry = some deposit;
  entry_id = none;
  sender_address = none;
}

abbrev advance : Option ℕ → TransitionParams
advance entry_id = record fund { entry = none; entry_id = entry_id }

abbrev step : Store → State → ℕ → TransitionParams → Result (Order × Store)
step s to_state v p = transition type_digest (some false) s 1 to_state v p

abbrev s₁ : Store
s₁ = store_of (create_order params opened_store)

abbrev s₂ : Store
s₂ = store_of (step s₁ funded 0 fund)

abbrev s₃ : Store
s₃ = store_of (step s₂ screened 1 (advance none))

abbrev s₄ : Store
s₄ = store_of (step s₃ dispatching 2 (advance (some 1)))

abbrev order_of : Result (Order × Store) → Order → Order
order_of (ok r) o = r.0
order_of (err e) o = o

abbrev before : Result (Order × Store)
before =
    handle_deposit_reorg type_digest (some false) 2_000 s₂ 1 (bytes "deposit:1") (bytes "watcher")

abbrev after : Result (Order × Store)
after =
    handle_deposit_reorg type_digest (some false) 2_000 s₄ 1 (bytes "deposit:1") (bytes "watcher")

abbrev quoted_order : Order
quoted_order = order_of (create_order params opened_store) (record {
  id = 0;
  external_id = [];
  customer_id = [];
  tier = direct;
  state = quoted;
  amount_in = pos 0;
  amount_out = pos 0;
  fee_units = pos 0;
  network_fee_units = pos 0;
  recipient_address = [];
  sender_address = none;
  quoted_at = 0;
  quote_expires_at = 0;
  version = 0;
})

abbrev Succeeds : Result (Order × Store) → Type 0
Succeeds r = r ≡ ok (order_of r quoted_order, store_of r)

-- Every call succeeds; the order is funded in the one store and dispatching in the other.
runs :
    Succeeds (create_order params opened_store)
    × Succeeds (step s₁ funded 0 fund)
    × Succeeds (step s₂ screened 1 (advance none))
    × Succeeds (step s₃ dispatching 2 (advance (some 1)))
    × Succeeds before
    × Succeeds after
unfolding create_order validate_create tier_valid transition transition_read transition_write
    state_valid state_eq validate_transition get_order transition_table halt_gate entry_gate
    is_halted post_entry update_by handle_deposit_reorg reorg_scenario_a reorg_scenario_b set_halt
    format_int format_nat reverse_entry negate_lines insert_reversal load_lines join_accounts
    get_entry_by_id get_entry_by_idempotency_key neg neg64 ◌-ℤ◌ exists_by post Request.validate
    validate_idempotency_key resolve_lines get_by_code find_by text_eq add validate sum_or_zero
    checked_add_int64 add64 wrap64 ◌+ℤ◌ set_sum all_zero insert_entry post_lines insert_by sort_by
    select text_lt canonical_payload hash_line_lt int16 truncate_to_microsecond apply_balance
    apply_balances insert_lines_and_apply_balances decimals valid
runs = (refl, refl, refl, refl, refl, refl)

abbrev funded_order : Order
funded_order = order_of (step s₁ funded 0 fund) quoted_order

abbrev dispatching_order : Order
dispatching_order = order_of (step s₃ dispatching 2 (advance (some 1))) quoted_order

abbrev deposit_of_order : EntryRow
deposit_of_order = deposit_row

-- What the stores hold.
holds :
    (get_order s₂ 1 ≡ ok funded_order)
    × (funded_order.state ≡ funded)
    × (get_entry_by_idempotency_key s₂.books (bytes "deposit:1") ≡ ok deposit_of_order)
    × (get_order s₄ 1 ≡ ok dispatching_order)
    × (dispatching_order.state ≡ dispatching)
    × (dispatching_order.amount_out ≡ pos 9)
unfolding create_order validate_create tier_valid transition transition_read transition_write
    state_valid state_eq validate_transition get_order transition_table halt_gate entry_gate
    is_halted post_entry update_by handle_deposit_reorg reorg_scenario_a reorg_scenario_b set_halt
    format_int format_nat reverse_entry negate_lines insert_reversal load_lines join_accounts
    get_entry_by_id get_entry_by_idempotency_key neg neg64 ◌-ℤ◌ exists_by post Request.validate
    validate_idempotency_key resolve_lines get_by_code find_by text_eq add validate sum_or_zero
    checked_add_int64 add64 wrap64 ◌+ℤ◌ set_sum all_zero insert_entry post_lines insert_by sort_by
    select text_lt canonical_payload hash_line_lt int16 truncate_to_microsecond apply_balance
    apply_balances insert_lines_and_apply_balances decimals valid
holds = (refl, refl, refl, refl, refl, refl)

deposit_fits : LinesFit deposit.lines
deposit_fits = ((omega arith, omega arith), ((omega arith, omega arith), tt))

to_s₂ : Steps type_digest empty_store s₂
to_s₂ =
    more s₁ s₂
      (more opened_store s₁ opened-Steps
        (ordered params (order_of (create_order params opened_store) quoted_order) s₁ runs.0))
      (stepped (some false) 1 funded 0 fund funded_order s₂ deposit_fits runs.1)

to_s₄ : Steps type_digest empty_store s₄
to_s₄ =
    more s₃ s₄
      (more s₂ s₃ to_s₂ (
        stepped (some false) 1 screened 1 (advance none)
          (order_of (step s₂ screened 1 (advance none)) quoted_order) s₃ tt runs.2))
      (stepped (some false) 1 dispatching 2 (advance (some 1)) dispatching_order s₄ tt runs.3)

reorg_before_dispatch_example :
    (get_order (store_of before) 1 ≡ ok (order_of before quoted_order))
    × ((order_of before quoted_order).state ≡ quoted)
    × ((order_of before quoted_order).version ≡ suc funded_order.version)
    × ((store_of before).system ≡ s₂.system)
    × ((j : ℕ)
        → account_total j (store_of before).books.lines
            +ℤ account_total j (lines_of deposit_of_order.id s₂.books.lines)
          ≡ account_total j s₂.books.lines)
reorg_before_dispatch_example =
    reorg_before_dispatch type_digest (some false) 2_000 s₂ 1 funded_order (bytes "deposit:1")
      (bytes "watcher") (order_of before quoted_order) (store_of before) deposit_of_order
      (Steps-IsStore type_digest empty_store s₂ empty-IsStore to_s₂) holds.0 holds.1 holds.2 runs.4

out_fits : IsInt64 dispatching_order.amount_out
out_fits = rw holds.5 (omega arith, omega arith)

reorg_post_dispatch_example :
    (order_of after quoted_order ≡ dispatching_order)
    × (get_order (store_of after) 1 ≡ ok dispatching_order)
    × (is_halted (store_of after) ≡ true)
    × IsStore (store_of after)
reorg_post_dispatch_example =
    reorg_post_dispatch type_digest (some false) 2_000 s₄ 1 dispatching_order (bytes "deposit:1")
      (bytes "watcher") (order_of after quoted_order) (store_of after)
      (Steps-IsStore type_digest empty_store s₄ empty-IsStore to_s₄) holds.3 out_fits (inl holds.4)
      runs.5

reorg_post_dispatch_again_example :
    handle_deposit_reorg type_digest
      (some false)
      2_000
      (store_of after)
      1
      (bytes "deposit:1")
      (bytes "retry")
    ≡ err already_reversed
reorg_post_dispatch_again_example =
    reorg_post_dispatch_again type_digest (some false) 2_000 s₄ 1 dispatching_order
      (bytes "deposit:1") (bytes "watcher") (bytes "retry") (order_of after quoted_order)
      (store_of after) (Steps-IsStore type_digest empty_store s₄ empty-IsStore to_s₄) holds.3
      out_fits (inl holds.4) runs.5 refl (λ h. omega (arith, h))
