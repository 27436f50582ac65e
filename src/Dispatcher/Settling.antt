-- ===== src/Dispatcher/Settling.antt =====
-- dispatcher/internal/dispatch: finality.go, freeze.go and reconcile.go. The three tables of the service
-- and the calls that go over more than one of them.
use usdt_settlement_corridor.Base.{
  ℕ, suc, ◌+◌, ◌-◌, Bool, true, false, ◌&&◌, ◌||◌, not, List, [], ◌∷◌, ◌++◌, Option, none, some,
  ltb, ◌==◌, if◌then◌else◌,
}
use usdt_settlement_corridor.Base.Text.{Text, bytes}
use usdt_settlement_corridor.Base.Int.{neg64}
use usdt_settlement_corridor.Ledger.Money.{usdt_trc20}
use usdt_settlement_corridor.Ledger.Money.Decimal.{format_nat}
use usdt_settlement_corridor.Ledger.Journal.Entry.{Line}
use usdt_settlement_corridor.Dispatcher.Answer.{
  Failure, Answer, failed, done, finality_stale, not_allowed, chain, ledger,
}
use usdt_settlement_corridor.Dispatcher.Attempts.{
  is_built, is_signed, is_broadcast, is_confirmed, is_failed, BroadcastAttempt, AttemptTable, get,
  latest_for_order, mark_failed, mark_confirmed,
}
use usdt_settlement_corridor.Dispatcher.Slots.{Slots, mark_retired}
use usdt_settlement_corridor.Dispatcher.States.{
  DispatchAttempt, States, mark_settled, mark_held, list_dispatching,
}
use usdt_settlement_corridor.Dispatcher.Entering.{
  LedgerOrder, LedgerAnswer, customer_account_code, line, transition_loop,
}
pub mod Found
pub mod Finality
pub mod Freeze
pub mod Reconcile

pub record Desk : Type 0 where
  pub attempts : AttemptTable
  pub states : States
  pub slots : Slots

abbrev pub slot_account_code : ℕ → Text
slot_account_code slot = bytes "asset:tron:slot:" ++ format_nat 20 slot []

unfoldable pub build_settlement_lines : LedgerOrder → ℕ → List Line
build_settlement_lines o slot =
    line (customer_account_code o.customer_id (bytes "USDT_TRC20")) usdt_trc20 o.amount_out
    ∷ line (slot_account_code slot) usdt_trc20 (neg64 o.amount_out)
    ∷ []

-- `settleOrder`: the same loop as that of EnterDispatching.
unfoldable pub settle_order : Bool → List LedgerAnswer → LedgerOrder → Option (Answer (Unit {0}))
settle_order account_there answers o =
    if account_there then (transition_loop answers o.version false).0 else some (failed ledger)

-- What ConfirmFinality asks of the outside: whether the transaction is final (none where the chain
-- does not answer), the ledger's answers, and the clock with its ceiling.
pub record FinalityCheck : Type 0 where
  pub is_final : Text → Option Bool
  pub account_there : Bool
  pub answers : List LedgerAnswer
  pub now : ℕ
  pub stale_ceiling : ℕ

-- Whether the attempt is confirmed, with the attempt as it is returned; none while the loop waits.
abbrev pub Confirmation : Type 0
Confirmation = Option (Answer (Bool × BroadcastAttempt))

abbrev pub is_stale_attempt : FinalityCheck → BroadcastAttempt → Bool
is_stale_attempt w a = elim a.broadcast_at [
  | none ↦ false
  | some at ↦ ltb 0 w.stale_ceiling && ltb w.stale_ceiling (w.now - at)
]

-- After the ledger has taken the settlement, and after the order's row is marked.
unfoldable pub after_confirm : Answer BroadcastAttempt × AttemptTable → Desk → Confirmation × Desk
after_confirm (failed f, t) d = (some (failed f), record d { attempts = t })
after_confirm (done a, t) d = (some (done (true, a)), record d { attempts = t })

unfoldable pub after_mark : ℕ → Answer (Unit {0}) × States → Desk → Confirmation × Desk
after_mark i (failed f, states) d = (some (failed f), record d { states = states })
after_mark i (done v, states) d =
    after_confirm (mark_confirmed i d.attempts) (record d { states = states })

unfoldable pub after_settlement : ℕ → ℕ → Option (Answer (Unit {0})) → Desk → Confirmation × Desk
after_settlement order i none d = (none, d)
after_settlement order i (some (failed f)) d = (some (failed f), d)
after_settlement order i (some (done u)) d = after_mark i (mark_settled order d.states) d

unfoldable pub with_txid :
    FinalityCheck → LedgerOrder → ℕ → BroadcastAttempt → Option Bool → Desk → Confirmation × Desk
with_txid w o i a none d = (some (failed chain), d)
with_txid w o i a (some false) d =
    (some (if is_stale_attempt w a then failed finality_stale else done (false, a)), d)
with_txid w o i a (some true) d =
    after_settlement o.id i (settle_order w.account_there w.answers o) d

unfoldable pub of_attempt :
    FinalityCheck → LedgerOrder → ℕ → BroadcastAttempt → Desk → Confirmation × Desk
of_attempt w o i a d =
    if is_confirmed a.status
    then (some (done (true, a)), d)
    else if not (is_broadcast a.status)
    then (some (failed not_allowed), d)
    else elim a.tron_txid [
      | none ↦ (some (failed not_allowed), d)
      | some txid ↦ with_txid w o i a (w.is_final txid) d
    ]

-- `ConfirmFinality`.
unfoldable pub confirm_finality : FinalityCheck → LedgerOrder → ℕ → Desk → Confirmation × Desk
confirm_finality w o i d = elim (get i d.attempts) [
  | failed f ↦ (some (failed f), d)
  | done a ↦ of_attempt w o i a d
]

-- The slot of an attempt is retired, with whether it needs an alert.
unfoldable pub retire_slot : (Slots → Slots) → Bool → ℕ → ℕ → Desk → Answer Bool × Desk
retire_slot others alert slot now d =
    let (answer, slots) = mark_retired others slot now d.slots in
    (elim answer [ failed f ↦ failed f | done u ↦ done alert ], record d { slots = slots })

unfoldable pub fail_then_retire :
    (Slots → Slots) → ℕ → ℕ → Answer BroadcastAttempt × AttemptTable → Desk → Answer Bool × Desk
fail_then_retire others slot now (failed f, t) d = (failed f, record d { attempts = t })
fail_then_retire others slot now (done a, t) d =
    retire_slot others false slot now (record d { attempts = t })

unfoldable pub frozen_attempt :
    (Slots → Slots) → ℕ → BroadcastAttempt → ℕ → Desk → Answer Bool × Desk
frozen_attempt others i a now d =
    if is_broadcast a.status
    then retire_slot others true a.slot_id now d
    else if not (is_built a.status || is_signed a.status)
    then (done false, d)
    else fail_then_retire others a.slot_id now (mark_failed i d.attempts) d

-- `HandleMidFlightFreeze`; `others` is what others commit to the slots between the two statements of
-- MarkRetired.
unfoldable pub handle_mid_flight_freeze : (Slots → Slots) → ℕ → ℕ → Desk → Answer Bool × Desk
handle_mid_flight_freeze others i now d = elim (get i d.attempts) [
  | failed f ↦ (failed f, d)
  | done a ↦ frozen_attempt others i a now d
]

-- What ReconcileFailedDispatches asks of the ledger: whether an order is dispatching (none where it
-- cannot be read), and whether the report of a failure is taken.
pub record Reports : Type 0 where
  pub is_dispatching : Text → Option Bool
  pub report_failure : Text → Text → Bool

-- The scan: how many orders were closed so far, the rows that were reported to the ledger, the error
-- that ended it, and the tables.
pub record Scan : Type 0 where
  pub closed : ℕ
  pub reported : List DispatchAttempt
  pub stopped : Option Failure
  pub desk : Desk

-- After the row of a reported order is marked.
unfoldable pub note_held : Answer (Unit {0}) × States → Scan → Scan
note_held (failed f, states) s = record s {
  stopped = some f;
  desk = record s.desk { states = states };
}
note_held (done u, states) s = record s {
  closed = suc s.closed;
  desk = record s.desk { states = states };
}

-- The report of one order whose latest attempt failed.
unfoldable pub report_one : Reports → DispatchAttempt → Option Bool → Scan → Scan
report_one r local none s = record s { stopped = some ledger }
report_one r local (some false) s = s
report_one r local (some true) s =
    let told : Scan = record s { reported = s.reported ++ (local ∷ []) } in
    if not (r.report_failure local.external_id local.conversion_entry_key)
    then record told { stopped = some ledger }
    else note_held (mark_held local.order_id s.desk.states) told

-- One order of the scan: no attempt, or a latest one that has not failed, leaves it alone.
unfoldable pub reconcile_one : Reports → DispatchAttempt → Scan → Scan
reconcile_one r local s = elim (latest_for_order local.order_id s.desk.attempts) [
  | failed f ↦ s
  | done latest ↦
      if not (is_failed latest.status)
      then s
      else report_one r local (r.is_dispatching local.external_id) s
]

unfoldable pub reconcile_all : Reports → States → Scan → Scan
reconcile_all r [] s = s
reconcile_all r (local ∷ rest) s = elim s.stopped [
  | some f ↦ s
  | none ↦ reconcile_all r rest (reconcile_one r local s)
]

-- `ReconcileFailedDispatches`.
unfoldable pub reconcile_failed_dispatches : Reports → Desk → Scan
reconcile_failed_dispatches r d =
    reconcile_all r (list_dispatching d.states)
      (record { closed = 0; reported = []; stopped = none; desk = d })
