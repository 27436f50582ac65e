-- ===== src/Dispatcher/Tests/Desk.antt =====
-- Runs over all tables of the dispatcher: a slot is chosen, an order enters dispatching, its transfer
-- becomes final, and a payout that failed is reported.
use usdt_settlement_corridor.Base.{
  ℕ, ◌+◌, ◌≤◌, ◌≡◌, refl, true, false, List, [], ◌∷◌, Option, none, some, arith, if◌then◌else◌,
  length, ltb,
}
use usdt_settlement_corridor.Base.Int.{ℤ, pos, ◌-ℤ◌, ◌+ℤ◌, sub64, wrap64}
use usdt_settlement_corridor.Base.Text.{bytes}
use usdt_settlement_corridor.Base.Table.{find_by, exists_by, select, update_by}
use usdt_settlement_corridor.Base.Sort.{sort_by, insert_by}
use usdt_settlement_corridor.Base.Count.{count_by}
use usdt_settlement_corridor.Ledger.Money.{usdt_bep20, usdt_trc20}
use usdt_settlement_corridor.Ledger.Money.Decimal.{format_nat}
use usdt_settlement_corridor.Gateway.Pricing.{
  standard, Quote, rate_in, rate_for, mul64, quot64, fee_of, with_fee, compute_quote,
}
use usdt_settlement_corridor.Dispatcher.Answer.{Answer, done}
use usdt_settlement_corridor.Dispatcher.Attempts.{
  confirmed, failed_status, BroadcastAttempt, get, greatest_attempt, latest_for_order,
  update_returning, mark_confirmed,
}
use usdt_settlement_corridor.Dispatcher.Tests.Data.{signed_attempt, broadcast_attempt}
use usdt_settlement_corridor.Dispatcher.Slots.{
  active, retired, Slot, Slots, list_slots, Caps, keep_slot, eligible_slots, earlier_use,
  used_before, first_slot, select_for_dispatch,
}
use usdt_settlement_corridor.Dispatcher.Slots.Choice.{Selects, select_for_dispatch_chosen}
use usdt_settlement_corridor.Dispatcher.States.{
  dispatching, settled, held, DispatchAttempt, create_state, mark_status, mark_settled, mark_held,
  list_dispatching,
}
use usdt_settlement_corridor.Dispatcher.Entering.{
  LedgerOrder, LedgerAnswer, accepted, conflict, halted, conversion_idempotency_key,
  build_conversion_lines, transition_loop, entered, enter_dispatching,
}
use usdt_settlement_corridor.Dispatcher.Entering.Retries.{is_wait, transition_loop_ends}
use usdt_settlement_corridor.Dispatcher.Entering.Lines.{line_total}
use usdt_settlement_corridor.Dispatcher.Entering.Quoted.{quoted_conversion_balanced}
use usdt_settlement_corridor.Dispatcher.Settling.{
  Desk, settle_order, FinalityCheck, after_confirm, after_mark, after_settlement, with_txid,
  of_attempt, confirm_finality, Reports, note_held, report_one, reconcile_one, reconcile_all,
  reconcile_failed_dispatches,
}
use usdt_settlement_corridor.Dispatcher.Settling.Finality.{Confirms, confirm_finality-Confirms}
use usdt_settlement_corridor.Dispatcher.Settling.Reconcile.{Scanned, reconcile_closed_failed}

abbrev slot : ℕ → Option ℕ → Slot
slot i used = record {
  id = i;
  tron_address = i ∷ [];
  status = active;
  activated_at = 0;
  retired_at = none;
  tx_count = pos 0;
  last_dispatch_at = used;
}

abbrev slots : Slots
slots = slot 1 (some 5) ∷ slot 2 (some 3) ∷ slot 3 none ∷ []

abbrev caps : Caps
caps = record { balance_ceiling = pos 100; tx_count_ceiling = pos 10 }

-- The third slot is over the ceiling.
abbrev balances : ℕ → Option ℤ
balances i = some (if ltb i 3 then pos 50 else pos 100)

abbrev chosen : Answer Slot × Slots
chosen = (done (slot 2 (some 9)), slot 1 (some 5) ∷ slot 2 (some 9) ∷ slot 3 none ∷ [])

choice : select_for_dispatch balances caps 9 slots ≡ chosen
unfolding select_for_dispatch list_slots select sort_by insert_by eligible_slots keep_slot
    used_before earlier_use first_slot update_by
choice = refl

select_for_dispatch_chosen_example :
    Selects balances caps 9 slots (select_for_dispatch balances caps 9 slots)
unfolding list_slots select sort_by insert_by eligible_slots keep_slot
select_for_dispatch_chosen_example =
    select_for_dispatch_chosen balances caps 9 slots (slot 1 (some 5) ∷ slot 2 (some 3) ∷ []) refl

abbrev order : LedgerOrder
order = record {
  id = 7;
  external_id = bytes "o7";
  customer_id = bytes "c";
  version = 3;
  amount_in = pos 5_000_000_000;
  amount_out = pos 4_985_700_000;
  fee_units = pos 12_500_000;
  network_fee_units = pos 1_800_000;
}

abbrev answers : List LedgerAnswer
answers = halted false ∷ conflict (some 4) ∷ halted false ∷ accepted ∷ []

abbrev entered_row : DispatchAttempt
entered_row = record {
  order_id = 7;
  external_id = bytes "o7";
  slot_id = 2;
  conversion_entry_key = bytes "dispatcher:enter_dispatching:7";
  status = dispatching;
  entered_dispatching_at = 40;
}

entering :
    (transition_loop answers 3 false ≡ (some (done tt), 3 ∷ 3 ∷ 4 ∷ 4 ∷ []))
    × (enter_dispatching true answers order 2 40 [] ≡ (some (done entered_row), entered_row ∷ []))
unfolding transition_loop enter_dispatching entered create_state exists_by
    conversion_idempotency_key format_nat
entering = (refl, refl)

transition_loop_ends_example :
    ((result : Answer (Unit {0})) × ((transition_loop answers 3 false).0 ≡ some result))
    × (length (transition_loop answers 3 false).1 ≤ count_by is_wait answers + 2)
unfolding count_by
transition_loop_ends_example = transition_loop_ends answers 3 false (omega arith)

abbrev priced : Quote
priced = record {
  tier = standard;
  amount_in = pos 5_000_000_000;
  fee_units = pos 12_500_000;
  network_fee = pos 1_800_000;
  amount_out = pos 4_985_700_000;
}

quoted_conversion_balanced_example :
    (line_total usdt_bep20 (build_conversion_lines order) ≡ pos 0)
    × (line_total usdt_trc20 (build_conversion_lines order) ≡ pos 0)
unfolding compute_quote rate_for rate_in fee_of quot64 mul64 wrap64 with_fee sub64 ◌-ℤ◌ ◌+ℤ◌
quoted_conversion_balanced_example =
    quoted_conversion_balanced standard (pos 5_000_000_000) priced order (omega arith, omega arith)
      refl (record { amount_in = refl; amount_out = refl; fee = refl; network_fee = refl })

abbrev desk : BroadcastAttempt → Desk
desk a = record {
  attempts = record { rows = a ∷ []; next_id = 2 };
  states = entered_row ∷ [];
  slots = slots;
}

abbrev check : FinalityCheck
check = record {
  is_final = λ txid. some true;
  account_there = true;
  answers = answers;
  now = 90;
  stale_ceiling = 600;
}

abbrev confirmed_attempt : BroadcastAttempt
confirmed_attempt = record broadcast_attempt { status = confirmed }

abbrev settled_desk : Desk
settled_desk = record (desk confirmed_attempt) {
  states = record entered_row { status = settled } ∷ [];
}

settles :
    confirm_finality check order 1 (desk broadcast_attempt)
    ≡ (some (done (true, confirmed_attempt)), settled_desk)
unfolding confirm_finality get find_by of_attempt with_txid settle_order transition_loop
    after_settlement after_mark after_confirm mark_settled mark_status mark_confirmed
    update_returning update_by exists_by
settles = refl

confirm_finality-Confirms_example :
    Confirms check order 1 (desk broadcast_attempt) confirmed_attempt settled_desk
confirm_finality-Confirms_example =
    confirm_finality-Confirms check order 1 (desk broadcast_attempt) confirmed_attempt settled_desk
      settles

abbrev silent : FinalityCheck
silent = record check { is_final = λ txid. none; account_there = false }

abbrev frozen_desk : Desk
frozen_desk = record (desk (record signed_attempt { status = failed_status })) {
  slots =
      slot 1 (some 5)
      ∷ record (slot 2 (some 3)) { status = retired; retired_at = some 60 }
      ∷ slot 3 none
      ∷ [];
}

abbrev reports : Reports
reports = record { is_dispatching = λ external. some true; report_failure = λ external key. true }

abbrev given_up : Desk
given_up = desk (record signed_attempt { status = failed_status })

reported : reconcile_failed_dispatches reports given_up ≡ record {
  closed = 1;
  reported = entered_row ∷ [];
  stopped = none;
  desk = record given_up { states = record entered_row { status = held } ∷ [] };
}
unfolding reconcile_failed_dispatches list_dispatching select sort_by insert_by reconcile_all
    reconcile_one latest_for_order greatest_attempt report_one note_held mark_held mark_status
    exists_by update_by
reported = refl

reconcile_closed_failed_example :
    Scanned reports given_up.attempts given_up.states (reconcile_failed_dispatches reports given_up)
reconcile_closed_failed_example = reconcile_closed_failed reports given_up
