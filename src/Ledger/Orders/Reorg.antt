-- ===== src/Ledger/Orders/Reorg.antt =====
-- A deposit that a chain reorganisation took back (ledger/internal/orders/reorg.go). `now` stands for
-- the reading of the clock. The JSON detail of the halt is left out.
use usdt_settlement_corridor.Base.{ℕ, Bool, [], ◌∷◌, ◌++◌, Option, none, some, if◌then◌else◌}
use usdt_settlement_corridor.Base.Text.{Text, bytes}
use usdt_settlement_corridor.Base.Int.{pos, neg64}
use usdt_settlement_corridor.Ledger.Error.{unexpected_state, Result, ok, err, ◌>>=◌}
use usdt_settlement_corridor.Ledger.Money.{usdt_trc20}
use usdt_settlement_corridor.Ledger.Money.Decimal.{format_int}
use usdt_settlement_corridor.Ledger.Database.{
  State, quoted, funded, dispatching, settled, Order, Store,
}
use usdt_settlement_corridor.Ledger.Journal.Entry.{EntryRequest, HashPayload}
use usdt_settlement_corridor.Ledger.Journal.Posting.{get_entry_by_idempotency_key, post}
use usdt_settlement_corridor.Ledger.Journal.Reversing.{reverse_entry, reversal_of}
use usdt_settlement_corridor.Ledger.Halt.{reason_post_settlement_reorg, set_halt}
use usdt_settlement_corridor.Ledger.Orders.Create.{get_order}
use usdt_settlement_corridor.Ledger.Orders.Transition.{
  TransitionParams, order_known, given, transition,
}

abbrev pub reason_before_dispatch : Text
reason_before_dispatch = bytes "deposit reorged out before dispatch"

abbrev pub reason_post_dispatch : Text
reason_post_dispatch = bytes "deposit reorged out post-dispatch"

-- `corridorAccountFor` at the asset of amount_out, which is always USDT_TRC20.
abbrev pub corridor_account : Text
corridor_account = bytes "position:corridor:USDT_TRC20"

abbrev pub to_quoted : Text → ℕ → ℕ → TransitionParams
to_quoted actor now reversal_id = record {
  actor = actor;
  reason = reason_before_dispatch;
  occurred_at = now;
  entry = none;
  entry_id = some reversal_id;
  sender_address = none;
}

abbrev pub loss_request : Order → Text → ℕ → EntryRequest
loss_request order actor now = record {
  idempotency_key = bytes "ledger:reorg_loss:" ++ format_int (pos order.id);
  entry_type = bytes "reorg_loss";
  actor = actor;
  occurred_at = now;
  order_id = some order.id;
  lines =
      record {
        account_code = bytes "expense:loss:reorg";
        amount = record { asset = usdt_trc20; units = order.amount_out };
      }
      ∷ record {
        account_code = corridor_account;
        amount = record { asset = usdt_trc20; units = neg64 order.amount_out };
      }
      ∷ [];
  metadata = none;
}

module _ (digest : HashPayload → Text) (fast : Option Bool) (now : ℕ) where
  unfoldable pub reorg_retry_from_quoted : Store → Order → Text → Result (Order × Store)
  reorg_retry_from_quoted s order key = elim (get_entry_by_idempotency_key s.books key) [
    | err _ ↦ err unexpected_state
    | ok original ↦
        if given (reversal_of s.books original.id) then ok (order, s) else err unexpected_state
  ]

  unfoldable pub reorg_scenario_a : Store → Order → Text → Text → Result (Order × Store)
  reorg_scenario_a s order key actor = do
    original ← get_entry_by_idempotency_key s.books key
    reversal ← reverse_entry digest s.books original.id actor reason_before_dispatch now
    transition digest fast (record s { books = reversal.1 }) order.id quoted order.version
        (to_quoted actor now reversal.0.row.id)

  unfoldable pub reorg_scenario_b : Store → Order → Text → Text → Result (Order × Store)
  reorg_scenario_b s order key actor = do
    original ← get_entry_by_idempotency_key s.books key
    reversal ← reverse_entry digest s.books original.id actor reason_post_dispatch now
    loss ← post digest (order_known s) reversal.1 (loss_request order actor now)
    ok (order, set_halt reason_post_settlement_reorg actor (record s { books = loss.1 }))

  abbrev pub by_state : State → Store → Order → Text → Text → Result (Order × Store)
  by_state funded s order key actor = reorg_scenario_a s order key actor
  by_state dispatching s order key actor = reorg_scenario_b s order key actor
  by_state settled s order key actor = reorg_scenario_b s order key actor
  by_state quoted s order key actor = reorg_retry_from_quoted s order key
  by_state _ s order key actor = err unexpected_state

  unfoldable pub handle_deposit_reorg : Store → ℕ → Text → Text → Result (Order × Store)
  handle_deposit_reorg s order_id key actor = do
    order ← get_order s order_id
    by_state order.state s order key actor
