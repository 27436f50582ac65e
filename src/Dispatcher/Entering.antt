-- ===== src/Dispatcher/Entering.antt =====
-- dispatcher/internal/dispatch/dispatch.go: the conversion entry, the transition to dispatching with its
-- retries, and the row that is written when it has succeeded.
use usdt_settlement_corridor.Base.{
  ℕ, Bool, true, false, List, [], ◌∷◌, ◌++◌, Option, none, some, if◌then◌else◌,
}
use usdt_settlement_corridor.Base.Text.{Text, bytes}
use usdt_settlement_corridor.Base.Int.{ℤ, neg64}
use usdt_settlement_corridor.Ledger.Money.{Asset, usdt_bep20, usdt_trc20, Amount}
use usdt_settlement_corridor.Ledger.Money.Decimal.{format_nat}
use usdt_settlement_corridor.Ledger.Journal.Entry.{Line}
use usdt_settlement_corridor.Dispatcher.Answer.{
  Answer, failed, done, version_conflict, ledger, cancelled,
}
use usdt_settlement_corridor.Dispatcher.States.{DispatchAttempt, dispatching, States, create_state}
pub mod Lines
pub mod Retries
pub mod Quoted

-- `ledgerclient.Order`, the fields that are read.
pub record LedgerOrder : Type 0 where
  pub id : ℕ
  pub external_id : Text
  pub customer_id : Text
  pub version : ℕ
  pub amount_in : ℤ
  pub amount_out : ℤ
  pub fee_units : ℤ
  pub network_fee_units : ℤ

unfoldable pub conversion_idempotency_key : ℕ → Text
conversion_idempotency_key order = bytes "dispatcher:enter_dispatching:" ++ format_nat 20 order []

abbrev pub customer_account_code : Text → Text → Text
customer_account_code customer asset = bytes "liability:customer:" ++ customer ++ bytes ":" ++ asset

abbrev pub line : Text → Asset → ℤ → Line
line code asset units = record {
  account_code = code;
  amount = record { asset = asset; units = units };
}

unfoldable pub build_conversion_lines : LedgerOrder → List Line
build_conversion_lines o =
    line (customer_account_code o.customer_id (bytes "USDT_BEP20")) usdt_bep20 o.amount_in
    ∷ line (bytes "position:corridor:USDT_BEP20") usdt_bep20 (neg64 o.amount_in)
    ∷ line (bytes "position:corridor:USDT_TRC20") usdt_trc20 o.amount_in
    ∷ line (customer_account_code o.customer_id (bytes "USDT_TRC20")) usdt_trc20
        (neg64 o.amount_out)
    ∷ line (bytes "revenue:fee") usdt_trc20 (neg64 o.fee_units)
    ∷ line (bytes "revenue:network_fee") usdt_trc20 (neg64 o.network_fee_units)
    ∷ []

-- What the ledger answers to one call of TransitionWithEntry: with a version conflict, the version
-- that GetOrder then finds; with a halt, whether the context is done before the next call.
pub data LedgerAnswer : Type 0 where
  accepted refused : LedgerAnswer
  conflict : Option ℕ → LedgerAnswer
  halted : Bool → LedgerAnswer

-- The `for` loop, over the answers to its calls: how it ends, if the answers are enough for it to end,
-- and the versions that it asked with.
unfoldable pub transition_loop : List LedgerAnswer → ℕ → Bool → Option (Answer (Unit {0})) × List ℕ
transition_loop [] version retried = (none, [])
transition_loop (accepted ∷ answers) version retried = (some (done tt), version ∷ [])
transition_loop (refused ∷ answers) version retried = (some (failed ledger), version ∷ [])
transition_loop (conflict refetched ∷ answers) version true =
    (some (failed version_conflict), version ∷ [])
transition_loop (conflict none ∷ answers) version false = (some (failed ledger), version ∷ [])
transition_loop (conflict (some current) ∷ answers) version false =
    let rest = transition_loop answers current true in (rest.0, version ∷ rest.1)
transition_loop (halted true ∷ answers) version retried = (some (failed cancelled), version ∷ [])
transition_loop (halted false ∷ answers) version retried =
    let rest = transition_loop answers version retried in (rest.0, version ∷ rest.1)

-- The row is written once the loop has ended well.
unfoldable pub entered :
    LedgerOrder
    → ℕ
    → ℕ
    → Option (Answer (Unit {0}))
    → States
    → Option (Answer DispatchAttempt) × States
entered o slot occurred none states = (none, states)
entered o slot occurred (some (failed f)) states = (some (failed f), states)
entered o slot occurred (some (done u)) states =
    let (answer, states') =
      create_state
        (record {
          order_id = o.id;
          external_id = o.external_id;
          slot_id = slot;
          conversion_entry_key = conversion_idempotency_key o.id;
          status = dispatching;
          entered_dispatching_at = occurred;
        })
        states in
    (some answer, states')

-- `EnterDispatching`; none while the ledger is halted and the context lives.
unfoldable pub enter_dispatching :
    Bool
    → List LedgerAnswer
    → LedgerOrder
    → ℕ
    → ℕ
    → States
    → Option (Answer DispatchAttempt) × States
enter_dispatching account_there answers o slot occurred states =
    if account_there
    then entered o slot occurred (transition_loop answers o.version false).0 states
    else (some (failed ledger), states)
