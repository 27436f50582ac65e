-- ===== src/Ledger/Tests/Orders.antt =====
-- Runs on orders: an order is created and expires; another is funded by an entry; its deposit is taken
-- back; two writers race.
use usdt_settlement_corridor.Base.{◌≡◌, ◌≢◌, refl, true, false, [], ◌∷◌, none, some, ◌⊎◌}
use usdt_settlement_corridor.Base.Text.{bytes}
use usdt_settlement_corridor.Base.Int.{pos}
use usdt_settlement_corridor.Base.Table.{find_by, exists_by, update_by}
use usdt_settlement_corridor.Ledger.Error.{ok, err, version_conflict, system_halted}
use usdt_settlement_corridor.Ledger.Money.{usdt_bep20, usdt_trc20}
use usdt_settlement_corridor.Ledger.Database.{expired, direct, Order, Store, empty_store}
use usdt_settlement_corridor.Ledger.Halt.{is_halted, set_halt, cached_is_halted}
use usdt_settlement_corridor.Ledger.Journal.Invariant.{IsBooks}
use usdt_settlement_corridor.Ledger.Orders.Machine.{
  state_valid, state_eq, terminal, tier_valid, transition_table,
}
use usdt_settlement_corridor.Ledger.Orders.Create.{
  CreateParams, validate_create, new_order, create_order, get_order,
}
use usdt_settlement_corridor.Ledger.Orders.Transition.{
  TransitionParams, validate_transition, halt_gate, entry_gate, move, moved, move_row, post_entry,
  transition_read, transition_write, transition,
}
use usdt_settlement_corridor.Ledger.Orders.Standstill.{Unpaid, halted_pays_nothing}
use usdt_settlement_corridor.Ledger.Orders.Invariant.{IsOrders}
use usdt_settlement_corridor.Ledger.Orders.History.{
  Steps, done, more, ordered, stepped, halted, Steps-IsStore, Steps-empty_store,
}
use usdt_settlement_corridor.Ledger.Orders.Halts.{by_operator, halt_until_cleared}
use usdt_settlement_corridor.Ledger.Database.{funded, refunded, HaltLogRow, set_row, clear_row}
use usdt_settlement_corridor.Ledger.Halt.{clear_halt}
use usdt_settlement_corridor.Ledger.Orders.History.{cleared}
use usdt_settlement_corridor.Base.{List, ◌++◌, some}
use usdt_settlement_corridor.Ledger.Orders.Race.{terminal_forever, second_write_refused}
use usdt_settlement_corridor.Ledger.Orders.Effect.{OneStep, transition_effect}
use usdt_settlement_corridor.Ledger.Tests.Data.{type_digest, empty-IsStore}

abbrev pub params : CreateParams
params = record {
  external_id = bytes "x-1";
  customer_id = bytes "c-1";
  tier = direct;
  amount_in = record { asset = usdt_bep20; units = pos 10 };
  amount_out = record { asset = usdt_trc20; units = pos 9 };
  fee_units = record { asset = usdt_trc20; units = pos 1 };
  network_fee_units = record { asset = usdt_trc20; units = pos 0 };
  recipient_address = bytes "T";
  quoted_at = 1;
  quote_expires_at = 2;
}

abbrev first : Order
first = new_order 1 params

abbrev one_order : Store
one_order = record empty_store { orders = first ∷ []; next_order = 2 }

order_created : create_order params empty_store ≡ ok (first, one_order)
unfolding create_order validate_create tier_valid exists_by
order_created = refl

abbrev lapse : TransitionParams
lapse = record {
  actor = bytes "sweeper";
  reason = bytes "expired";
  occurred_at = 3;
  entry = none;
  entry_id = none;
  sender_address = none;
}

abbrev lapsed : Order
lapsed = moved expired none first

abbrev expired_order : Store
expired_order = record one_order {
  orders = lapsed ∷ [];
  transitions = move_row first expired none lapse ∷ [];
}

order_expired : transition type_digest none one_order 1 expired 0 lapse ≡ ok (lapsed, expired_order)
unfolding transition transition_read transition_write state_valid validate_transition get_order
    find_by transition_table halt_gate entry_gate post_entry update_by
order_expired = refl

one_order-Steps : Steps type_digest empty_store one_order
one_order-Steps = more empty_store one_order done (ordered params first one_order order_created)

expired-Steps : Steps type_digest empty_store expired_order
expired-Steps =
    more one_order expired_order one_order-Steps
      (stepped none 1 expired 0 lapse lapsed expired_order tt order_expired)

one_order-IsOrders : IsOrders one_order
one_order-IsOrders = (Steps-empty_store type_digest one_order one_order-Steps).1

Steps-empty_store_example : IsBooks expired_order.books × IsOrders expired_order
Steps-empty_store_example = Steps-empty_store type_digest expired_order expired-Steps

transition_effect_example :
    (get_order expired_order 1 ≡ ok lapsed)
    × (state_eq expired lapsed.state ≡ true)
    × ((expired_order ≡ one_order) ⊎ OneStep one_order 1 expired 0 lapse lapsed expired_order)
transition_effect_example =
    transition_effect type_digest none one_order 1 expired 0 lapse lapsed expired_order
      one_order-IsOrders order_expired

expired_found :
    (get_order expired_order 1 ≡ ok lapsed)
    × (terminal expired ≡ true)
    × (get_order one_order 1 ≡ ok first)
unfolding get_order find_by terminal
expired_found = (refl, refl, refl)

terminal_forever_example :
    get_order (set_halt (bytes "DRIFT") (bytes "recon") expired_order) 1 ≡ ok lapsed
terminal_forever_example =
    terminal_forever type_digest expired_order
      (set_halt (bytes "DRIFT") (bytes "recon") expired_order) 1 lapsed expired_found.0
      expired_found.1
      (more expired_order (set_halt (bytes "DRIFT") (bytes "recon") expired_order) done
        (halted (bytes "DRIFT") (bytes "recon")))

lapse_again_planned : transition_read type_digest none one_order 1 expired 0 lapse ≡ ok (move first)
unfolding transition_read state_valid validate_transition get_order find_by transition_table
    halt_gate entry_gate
lapse_again_planned = refl

lapse_posts : post_entry type_digest expired_order lapse ≡ ok (none, expired_order.books)
unfolding post_entry
lapse_posts = refl

second_write_refused_example :
    transition_write type_digest expired_order first expired 0 lapse ≡ err version_conflict
second_write_refused_example =
    second_write_refused type_digest none none one_order expired_order expired_order 1 0 expired
      expired lapse lapse lapsed first none expired_order.books
      (Steps-IsStore type_digest empty_store one_order empty-IsStore one_order-Steps) tt
      order_expired refl lapse_again_planned done lapse_posts

-- An order expires while the ledger is halted.
abbrev stopped_order : Store
stopped_order = set_halt (bytes "DRIFT") (bytes "recon") one_order

abbrev stopped_expired : Store
stopped_expired = set_halt (bytes "DRIFT") (bytes "recon") expired_order

expired_while_halted :
    (transition type_digest none stopped_order 1 expired 0 lapse ≡ ok (lapsed, stopped_expired))
    × (is_halted stopped_order ≡ true)
    × (get_order stopped_order 1 ≡ ok first)
unfolding transition transition_read transition_write state_valid validate_transition get_order
    find_by transition_table halt_gate entry_gate post_entry update_by set_halt is_halted
expired_while_halted = (refl, refl, refl)

-- A funded order is not refunded while the ledger is halted.
abbrev funded_order : Store
funded_order = record stopped_order { orders = record first { state = funded } ∷ [] }

refund_halted :
    transition type_digest
      (some false)
      funded_order
      1
      refunded
      0
      (record lapse { entry_id = some 1 })
    ≡ err system_halted
unfolding transition transition_read state_valid validate_transition get_order find_by
    transition_table halt_gate set_halt is_halted
refund_halted = refl

halted_pays_nothing_example :
    (rows : List HaltLogRow) × (stopped_expired.halt_log ≡ stopped_order.halt_log ++ rows)
    × ((exists_by by_operator rows ≡ true)
        ⊎ ((is_halted stopped_expired ≡ true) × Unpaid stopped_expired 1 first))
halted_pays_nothing_example =
    halted_pays_nothing type_digest stopped_order stopped_expired 1 first
      (more stopped_order stopped_expired done
        (stepped none 1 expired 0 lapse lapsed stopped_expired tt expired_while_halted.0))
      expired_while_halted.1 expired_while_halted.2

abbrev stopped : Store
stopped = set_halt (bytes "DRIFT") (bytes "recon") empty_store

stale_flag :
    (cached_is_halted stopped 5 (record { halted = false; updated_at = 4 })).0 ≢ is_halted stopped
unfolding cached_is_halted is_halted set_halt
stale_flag h = cc

abbrev resumed : Store
resumed = record stopped {
  system = record {
    halted = false;
    halt_reason = some (bytes "DRIFT");
    halted_by = some (bytes "recon");
    cleared_by = some (bytes "op");
  };
  halt_log =
      set_row (bytes "DRIFT") (bytes "recon") ∷ clear_row (bytes "checked") (bytes "op") ∷ [];
}

halt_cleared :
    (clear_halt (bytes "op") (bytes "checked") stopped ≡ ok resumed)
    × (is_halted stopped ≡ true)
    × (is_halted resumed ≡ false)
unfolding clear_halt set_halt is_halted
halt_cleared = (refl, refl, refl)

halt_until_cleared_example :
    (rows : List HaltLogRow) × (resumed.halt_log ≡ stopped.halt_log ++ rows)
    × (exists_by by_operator rows ≡ true)
halt_until_cleared_example =
    halt_until_cleared type_digest stopped resumed
      (more stopped resumed done (cleared (bytes "op") (bytes "checked") resumed halt_cleared.0))
      halt_cleared.1 halt_cleared.2
