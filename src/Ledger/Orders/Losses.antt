-- ===== src/Ledger/Orders/Losses.antt =====
-- What the handling of a deposit reorg after the payout does (ledger/internal/orders/reorg.go).
use usdt_settlement_corridor.Base.{ℕ, ◌≡◌, refl, sym, ◌∙◌, Bool, true, Option, arith, inl, inr, ◌⊎◌}
use usdt_settlement_corridor.Base.Text.{Text}
use usdt_settlement_corridor.Base.Int.{pos, ◌-ℤ◌, IsInt64, neg64, wrap64-IsInt64}
use usdt_settlement_corridor.Ledger.Error.{ok, bind_ok}
use usdt_settlement_corridor.Ledger.Database.{
  State, dispatching, settled, Order, EntryRow, Books, Store,
}
use usdt_settlement_corridor.Ledger.Journal.Entry.{HashPayload}
use usdt_settlement_corridor.Ledger.Journal.Sums.{LinesFit}
use usdt_settlement_corridor.Ledger.Journal.Posting.{Entry, get_entry_by_idempotency_key, post}
use usdt_settlement_corridor.Ledger.Journal.Reversing.{reverse_entry}
use usdt_settlement_corridor.Ledger.Halt.{reason_post_settlement_reorg, set_halt, is_halted}
use usdt_settlement_corridor.Ledger.Orders.Create.{get_order}
use usdt_settlement_corridor.Ledger.Orders.Transition.{order_known}
use usdt_settlement_corridor.Ledger.Orders.History.{
  IsStore, done, more, reversed, posted, halted, Steps-IsStore,
}
use usdt_settlement_corridor.Ledger.Orders.Reorgs.{books_aside}
use usdt_settlement_corridor.Ledger.Orders.Reorg.{
  reason_post_dispatch, loss_request, reorg_scenario_b, by_state, handle_deposit_reorg,
}

module _ (digest : HashPayload → Text) (fast : Option Bool) (now : ℕ) where
  -- The reversal, the loss and the halt of scenario B.
  pub record WrittenOff (s : Store) (order : Order) (key actor : Text) (o : Order) (s' : Store)
      : Type 0 where
    pub original : EntryRow
    pub reversal : Entry
    pub books₁ : Books
    pub loss : Entry
    pub books₂ : Books
    pub there : get_entry_by_idempotency_key s.books key ≡ ok original
    pub undone :
        reverse_entry digest s.books original.id actor reason_post_dispatch now
        ≡ ok (reversal, books₁)
    pub booked :
        post digest (order_known s) books₁ (loss_request order actor now) ≡ ok (loss, books₂)
    pub result : o ≡ order
    pub after : s' ≡ set_halt reason_post_settlement_reorg actor (record s { books = books₂ })

  scenario_b_inv :
      (s : Store) (order : Order) (key actor : Text) (o : Order) (s' : Store)
      → reorg_scenario_b digest fast now s order key actor ≡ ok (o, s')
      → WrittenOff s order key actor o s'
  unfolding reorg_scenario_b
  scenario_b_inv s order key actor o s' h =
      let (original, there, h₁) = bind_ok (get_entry_by_idempotency_key s.books key) _ h in
      let (reversal, undone, h₂) =
        bind_ok (reverse_entry digest s.books original.id actor reason_post_dispatch now) _ h₁ in
      let (loss, booked, h₃) =
        bind_ok (post digest (order_known s) reversal.1 (loss_request order actor now)) _ h₂ in
      record {
        original = original;
        reversal = reversal.0;
        books₁ = reversal.1;
        loss = loss.0;
        books₂ = loss.1;
        there = there;
        undone = undone;
        booked = booked;
        result = ground arith;
        after = ground arith;
      }

  pub handled :
      (s : Store) (i : ℕ) (order : Order) (key actor : Text)
      → get_order s i ≡ ok order
      → handle_deposit_reorg digest fast now s i key actor
        ≡ by_state digest fast now order.state s order key actor
  unfolding handle_deposit_reorg
  handled s i order key actor there = rw there refl

  pub after_payout :
      (state : State) (s : Store) (order : Order) (key actor : Text)
      → (state ≡ dispatching) ⊎ (state ≡ settled)
      → by_state digest fast now state s order key actor
        ≡ reorg_scenario_b digest fast now s order key actor
  after_payout state s order key actor (inl e) = rw e refl
  after_payout state s order key actor (inr e) = rw e refl

  pub written_off :
      (s : Store) (i : ℕ) (order : Order) (key actor : Text) (o : Order) (s' : Store)
      → get_order s i ≡ ok order
      → (order.state ≡ dispatching) ⊎ (order.state ≡ settled)
      → handle_deposit_reorg digest fast now s i key actor ≡ ok (o, s')
      → WrittenOff s order key actor o s'
  written_off s i order key actor o s' there state h = scenario_b_inv s order key actor o s' (
      sym (after_payout order.state s order key actor state)
      ∙ sym (handled s i order key actor there)
      ∙ h)

  halts : (reason actor : Text) (s : Store) → is_halted (set_halt reason actor s) ≡ true
  unfolding is_halted set_halt
  halts reason actor s = refl

  halt_aside :
      (reason actor : Text) (s : Store) (i : ℕ)
      → get_order (set_halt reason actor s) i ≡ get_order s i
  unfolding get_order set_halt
  halt_aside reason actor s i = refl

  -- In a well-formed store, a reorg of a dispatching or settled order with an int64 amount_out that
  -- is handled with success leaves the ledger halted and the store well formed; the order is
  -- returned and stays as it was.
  pub reorg_post_dispatch :
      (s : Store) (i : ℕ) (order : Order) (key actor : Text) (o : Order) (s' : Store)
      → IsStore s
      → get_order s i ≡ ok order
      → IsInt64 order.amount_out
      → (order.state ≡ dispatching) ⊎ (order.state ≡ settled)
      → handle_deposit_reorg digest fast now s i key actor ≡ ok (o, s')
      → (o ≡ order) × (get_order s' i ≡ ok order) × (is_halted s' ≡ true) × IsStore s'
  unfolding neg64
  reorg_post_dispatch s i order key actor o s' v there fits state h =
      let w = written_off s i order key actor o s' there state h in
      let s₁ : Store = record s { books = w.books₁ } in
      let s₂ : Store = record s { books = w.books₂ } in
      let loss_fits : LinesFit (loss_request order actor now).lines =
        (fits, (wrap64-IsInt64 (pos 0 -ℤ order.amount_out), tt)) in
      let s₃ = set_halt reason_post_settlement_reorg actor s₂ in
      let undone =
        more s s₁ done
          (reversed w.original.id actor reason_post_dispatch now w.reversal w.books₁ w.undone) in
      let booked =
        more s₁ s₂ undone
          (posted (loss_request order actor now) w.loss w.books₂ loss_fits w.booked) in
      (
        w.result,
        rw w.after (
            halt_aside reason_post_settlement_reorg actor s₂ i
            ∙ books_aside digest fast now s w.books₂ i
            ∙ there),
        rw w.after (halts reason_post_settlement_reorg actor s₂),
        rw w.after (
            Steps-IsStore digest s s₃ v
              (more s₂ s₃ booked (halted reason_post_settlement_reorg actor))),
      )
