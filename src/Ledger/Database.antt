-- ===== src/Ledger/Database.antt =====
-- The tables of the ledger's database (ledger/migrations), one record for each row type. Tables are
-- lists of rows in the order of insertion. Columns that the database fills by now() and that no code
-- reads back for a decision (opened_at, recorded_at, created_at, halted_at, cleared_at) are left out,
-- and so are the gaps that a conflicting INSERT leaves in a sequence.
use usdt_settlement_corridor.Base.{ℕ, Bool, false, Option, none, List, []}
use usdt_settlement_corridor.Base.Text.{Text}
use usdt_settlement_corridor.Base.Int.{ℤ}
use usdt_settlement_corridor.Ledger.Money.{Asset}

-- `accounts.Type`: a closed set of strings, or any other string.
pub data AccountType : Type 0 where
  asset_type liability revenue expense equity position : AccountType
  unknown_type : Text → AccountType

-- A row of accounts, `accounts.Account`.
pub record Account : Type 0 where
  pub id : ℕ
  pub code : Text
  pub kind : AccountType
  pub asset : Asset
  pub normal_side : ℤ
  pub is_active : Bool

-- A row of journal_entries.
pub record EntryRow : Type 0 where
  pub id : ℕ
  pub idempotency_key : Text
  pub payload_hash : Text
  pub entry_type : Text
  pub order_id : Option ℕ
  pub actor : Text
  pub occurred_at : ℕ
  pub reversal_of : Option ℕ
  pub metadata : Text

-- A row of journal_lines.
pub record LineRow : Type 0 where
  pub entry_id : ℕ
  pub seq : ℤ
  pub account_id : ℕ
  pub asset : Asset
  pub units : ℤ

-- A row of account_balances.
pub record BalanceRow : Type 0 where
  pub account_id : ℕ
  pub asset : Asset
  pub units : ℤ
  pub last_entry_id : ℕ

-- The tables of the journal and of the chart of accounts, with the next free ids.
pub record Books : Type 0 where
  pub accounts : List Account
  pub next_account : ℕ
  pub entries : List EntryRow
  pub next_entry : ℕ
  pub lines : List LineRow
  pub balances : List BalanceRow

abbrev pub empty_books : Books
empty_books = record {
  accounts = [];
  next_account = 1;
  entries = [];
  next_entry = 1;
  lines = [];
  balances = [];
}

-- `orders.State` and `orders.Tier`: closed sets of strings, or any other string.
pub data State : Type 0 where
  quoted funded screened dispatching settled held refunded expired : State
  other_state : Text → State

pub data Tier : Type 0 where
  direct standard sweep : Tier
  other_tier : Text → Tier

-- A row of orders. The assets are fixed by the column: amount_in is USDT_BEP20, the other three are
-- USDT_TRC20.
pub record Order : Type 0 where
  pub id : ℕ
  pub external_id : Text
  pub customer_id : Text
  pub tier : Tier
  pub state : State
  pub amount_in : ℤ
  pub amount_out : ℤ
  pub fee_units : ℤ
  pub network_fee_units : ℤ
  pub recipient_address : Text
  pub sender_address : Option Text
  pub quoted_at : ℕ
  pub quote_expires_at : ℕ
  pub version : ℕ

-- A row of order_transitions.
pub record TransitionRow : Type 0 where
  pub order_id : ℕ
  pub from_state : State
  pub to_state : State
  pub entry_id : Option ℕ
  pub actor : Text
  pub reason : Text
  pub occurred_at : ℕ

-- The one row of system_state.
pub record SystemState : Type 0 where
  pub halted : Bool
  pub halt_reason : Option Text
  pub halted_by : Option Text
  pub cleared_by : Option Text

-- A row of halt_log, by its action.
pub data HaltLogRow : Type 0 where
  set_row : Text → Text → HaltLogRow
  clear_row : Text → Text → HaltLogRow

-- A row of recon_snapshots.
pub record SnapshotRow : Type 0 where
  pub account_id : ℕ
  pub asset : Asset
  pub observed_units : ℤ
  pub chain_ref : Text
  pub ledger_units : ℤ
  pub watermark : ℕ
  pub drift_units : ℤ

-- The whole database.
pub record Store : Type 0 where
  pub books : Books
  pub orders : List Order
  pub next_order : ℕ
  pub transitions : List TransitionRow
  pub system : SystemState
  pub halt_log : List HaltLogRow
  pub snapshots : List SnapshotRow

abbrev pub empty_store : Store
empty_store = record {
  books = empty_books;
  orders = [];
  next_order = 1;
  transitions = [];
  system = record { halted = false; halt_reason = none; halted_by = none; cleared_by = none };
  halt_log = [];
  snapshots = [];
}
