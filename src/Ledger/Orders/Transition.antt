-- ===== src/Ledger/Orders/Transition.antt =====
-- Moving an order from state to state (ledger/internal/orders/store.go). A transition reads and
-- checks, then writes; other transactions may commit between the two, so they are two functions, and
-- `transition` is their composition in one store.
use usdt_settlement_corridor.Base.{
  ℕ, suc, ◌^◌, Bool, true, false, ◌&&◌, ◌||◌, not, [], ◌∷◌, ◌++◌, Option, none, some, ltb, ◌==◌,
  if◌then◌else◌,
}
use usdt_settlement_corridor.Base.Text.{Text, is_empty}
use usdt_settlement_corridor.Base.Table.{find_by, exists_by, update_by}
use usdt_settlement_corridor.Ledger.Error.{
  illegal_transition, version_conflict, entry_required, entry_not_allowed, invalid_params,
  halt_cache_not_configured, system_halted, database, Result, ok, err, ◌>>=◌, ◌>>◌, fail_if,
  or_fail,
}
use usdt_settlement_corridor.Ledger.Database.{State, funded, Order, TransitionRow, Books, Store}
use usdt_settlement_corridor.Ledger.Journal.Entry.{EntryRequest, HashPayload}
use usdt_settlement_corridor.Ledger.Journal.Posting.{get_entry_by_idempotency_key, post}
use usdt_settlement_corridor.Ledger.Halt.{is_halted}
use usdt_settlement_corridor.Ledger.Orders.Machine.{state_valid, state_eq, Rule, transition_table}
use usdt_settlement_corridor.Ledger.Orders.Create.{get_order}

pub record TransitionParams : Type 0 where
  pub actor : Text
  pub reason : Text
  pub occurred_at : ℕ
  pub entry : Option EntryRequest
  pub entry_id : Option ℕ
  pub sender_address : Option Text

abbrev pub given {ℓ} : {A : Type ℓ} → Option A → Bool
given none = false
given (some a) = true

abbrev pub empty_given : Option Text → Bool
empty_given none = false
empty_given (some s) = is_empty s

unfoldable pub validate_transition : TransitionParams → Result (Unit {0})
validate_transition p = do
  fail_if (is_empty p.actor) invalid_params
  fail_if (is_empty p.reason) invalid_params
  fail_if (p.occurred_at == 0) invalid_params
  fail_if (given p.entry && given p.entry_id) invalid_params
  fail_if (empty_given p.sender_address) invalid_params
  ok tt

-- The halt checks of a pair that is blocked: first the cached flag (`none` if no cache is set up),
-- then the authoritative one.
unfoldable pub halt_gate : Rule → Option Bool → Store → Result (Unit {0})
halt_gate r fast s =
    if r.halt_blocked
    then (do
      fast_halted ← or_fail fast halt_cache_not_configured
      fail_if fast_halted system_halted
      fail_if (is_halted s) system_halted
      ok tt)
    else ok tt

unfoldable pub entry_gate : Rule → TransitionParams → Result (Unit {0})
entry_gate r p = do
  fail_if (r.requires_entry && (not (given p.entry) && not (given p.entry_id))) entry_required
  fail_if (not r.requires_entry && (given p.entry || given p.entry_id)) entry_not_allowed
  ok tt

-- What the reading half ends with: a move to make, or the answer to a redelivered request.
pub data Plan : Type 0 where
  move : Order → Plan
  again : Order → Books → Plan

abbrev pub order_known : Store → ℕ → Bool
order_known s i = exists_by (λ o. o.id == i) s.orders

abbrev pub move_row : Order → State → Option ℕ → TransitionParams → TransitionRow
move_row current to_state entry_id p = record {
  order_id = current.id;
  from_state = current.state;
  to_state = to_state;
  entry_id = entry_id;
  actor = p.actor;
  reason = p.reason;
  occurred_at = p.occurred_at;
}

-- COALESCE($4, sender_address).
abbrev pub or_keep : Option Text → Option Text → Option Text
or_keep none old = old
or_keep (some s) old = some s

abbrev pub moved : State → Option Text → Order → Order
moved to_state sender o = record o {
  state = to_state;
  version = suc o.version;
  sender_address = or_keep sender o.sender_address;
}

-- WHERE id = … AND version = ….
abbrev pub at_version : ℕ → ℕ → Order → Bool
at_version i v o = o.id == i && o.version == v

abbrev pub entry_exists : Books → Option ℕ → Bool
entry_exists b none = true
entry_exists b (some i) = exists_by (λ e. e.id == i) b.entries

module _ (digest : HashPayload → Text) where
  -- `replayIfAlreadyPosted`: only a key that is already used goes on to Post.
  unfoldable pub replay_if_already_posted : Store → EntryRequest → Result (Option Books)
  replay_if_already_posted s req = elim (get_entry_by_idempotency_key s.books req.idempotency_key) [
    | err _ ↦ ok none
    | ok _ ↦ do posted ← post digest (order_known s) s.books req; ok (some posted.1)
  ]

  -- A pair that is not in the table: the order's own state with an entry that is posted already, or
  -- an error.
  abbrev pub replayed_plan : Order → Option Books → Result Plan
  replayed_plan current none = err illegal_transition
  replayed_plan current (some b) = ok (again current b)

  abbrev pub illegal : Store → Order → State → Option EntryRequest → Result Plan
  illegal s current to_state none = err illegal_transition
  illegal s current to_state (some req) =
      if state_eq to_state current.state
      then (do r ← replay_if_already_posted s req; replayed_plan current r)
      else err illegal_transition

  -- The reading half.
  unfoldable pub transition_read :
      Option Bool → Store → ℕ → State → ℕ → TransitionParams → Result Plan
  transition_read fast s order_id to_state expected p = do
    fail_if (not (state_valid to_state)) invalid_params
    validate_transition p
    current ← get_order s order_id
    fail_if (not (current.version == expected)) version_conflict
    elim (transition_table current.state to_state) [
      | none ↦ illegal s current to_state p.entry
      | some r ↦ do
        halt_gate r fast s
        entry_gate r p
        fail_if (given p.sender_address && not (state_eq to_state funded)) invalid_params
        ok (move current)
    ]

  -- The entry of the transition: posted now, or the one named.
  unfoldable pub post_entry : Store → TransitionParams → Result (Option ℕ × Books)
  post_entry s p = elim p.entry [
    | none ↦ ok (p.entry_id, s.books)
    | some req ↦ do
      posted ← post digest (order_known s) s.books req
      ok (some posted.0.row.id, posted.1)
  ]

  -- The writing half: the entry, the compare-and-set of the order, and the log.
  unfoldable pub transition_write :
      Store → Order → State → ℕ → TransitionParams → Result (Order × Store)
  transition_write s current to_state expected p = do
    posted ← post_entry s p
    row ← or_fail (find_by (at_version current.id expected) s.orders) version_conflict
    fail_if (not (ltb (suc row.version) (2 ^ 31))) database
    fail_if (not (entry_exists posted.1 posted.0)) database
    ok (
      moved to_state p.sender_address row,
      record s {
        books = posted.1;
        orders =
            update_by (at_version current.id expected) (moved to_state p.sender_address) s.orders;
        transitions = s.transitions ++ (move_row current to_state posted.0 p ∷ []);
      },
    )

  abbrev pub carry_out : Store → State → ℕ → TransitionParams → Plan → Result (Order × Store)
  carry_out s to_state expected p (move current) = transition_write s current to_state expected p
  carry_out s to_state expected p (again current b) = ok (current, record s { books = b })

  -- `Transition`.
  unfoldable pub transition :
      Option Bool → Store → ℕ → State → ℕ → TransitionParams → Result (Order × Store)
  transition fast s order_id to_state expected p = do
    plan ← transition_read fast s order_id to_state expected p
    carry_out s to_state expected p plan
