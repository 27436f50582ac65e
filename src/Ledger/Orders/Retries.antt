-- ===== src/Ledger/Orders/Retries.antt =====
-- A second report of a reorg after the payout (ledger/internal/orders/reorg.go).
use usdt_settlement_corridor.Base.{
  ℕ, ◌≡◌, ◌≢◌, refl, sym, ap, ◌∙◌, Bool, true, false, List, [], ◌∷◌, ◌++◌, Option, arith, ◌==◌,
  ==_iff, ◌⊎◌,
}
use mathlib.Core.List.{append-nil}
use usdt_settlement_corridor.Base.Text.{Text, text_eq, is_empty}
use usdt_settlement_corridor.Base.Int.{IsInt64}
use usdt_settlement_corridor.Base.Table.{
  exists_by, find_by-append_some, exists_by-append_last, exists_by-append_some,
}
use usdt_settlement_corridor.Ledger.Error.{ok, err, already_reversed, entry_not_found}
use usdt_settlement_corridor.Ledger.Database.{dispatching, settled, Order, EntryRow, Books, Store}
use usdt_settlement_corridor.Ledger.Journal.Entry.{EntryRequest, HashPayload}
use usdt_settlement_corridor.Ledger.Journal.Posting.{
  Entry, get_entry_by_id, get_entry_by_idempotency_key, new_row, post,
}
use usdt_settlement_corridor.Ledger.Journal.Reversing.{
  reverses, is_reversal, reverse_entry, reversal_row,
}
use usdt_settlement_corridor.Ledger.Journal.Outcomes.{Posted, wrote, found, post-Posted}
use usdt_settlement_corridor.Ledger.Journal.Reversal.{id_of_entry, reverse_entry-Reversed}
use usdt_settlement_corridor.Ledger.Halt.{reason_post_settlement_reorg, set_halt}
use usdt_settlement_corridor.Ledger.Orders.Create.{get_order}
use usdt_settlement_corridor.Ledger.Orders.Transition.{order_known}
use usdt_settlement_corridor.Ledger.Orders.Outcomes.{or_fail_ok}
use usdt_settlement_corridor.Ledger.Orders.History.{IsStore}
use usdt_settlement_corridor.Ledger.Orders.Reorg.{
  reason_post_dispatch, loss_request, reorg_scenario_b, handle_deposit_reorg,
}
use usdt_settlement_corridor.Ledger.Orders.Losses.{
  written_off, handled, after_payout, reorg_post_dispatch,
}

-- The entries of later books: the same with others after them.
Extends : Books → Books → Type 0
Extends b b' = (xs : List EntryRow) × (b'.entries ≡ b.entries ++ xs)

key_kept :
    (b b' : Books) (key : Text) (x : EntryRow)
    → Extends b b'
    → get_entry_by_idempotency_key b key ≡ ok x
    → get_entry_by_idempotency_key b' key ≡ ok x
unfolding get_entry_by_idempotency_key Extends
key_kept b b' key x (xs, e) h =
    rw
      (
        e,
        find_by-append_some (λ (r : EntryRow). text_eq r.idempotency_key key) b.entries xs x
            (or_fail_ok _ entry_not_found x h),
      )
      refl

id_kept :
    (b b' : Books) (i : ℕ) (x : EntryRow)
    → Extends b b'
    → get_entry_by_id b i ≡ ok x
    → get_entry_by_id b' i ≡ ok x
unfolding get_entry_by_id Extends
id_kept b b' i x (xs, e) h =
    rw
      (
        e,
        find_by-append_some (λ (r : EntryRow). r.id == i) b.entries xs x
            (or_fail_ok _ entry_not_found x h),
      )
      refl

reversed_kept :
    (b b' : Books) (i : ℕ)
    → Extends b b'
    → exists_by (reverses i) b.entries ≡ true
    → exists_by (reverses i) b'.entries ≡ true
unfolding Extends
reversed_kept b b' i (xs, e) h = rw (e, exists_by-append_some (reverses i) b.entries xs h) refl

module _ (digest : HashPayload → Text) where
  post-Extends :
      (known : ℕ → Bool) (b : Books) (req : EntryRequest) (e : Entry) (b' : Books)
      → post digest known b req ≡ ok (e, b')
      → Extends b b'
  unfolding Extends
  post-Extends known b req e b' h = went (post-Posted digest known b req e b' h)
    where
      went : Posted digest known b req e b' → (xs : List EntryRow) × (b'.entries ≡ b.entries ++ xs)
      went (wrote rs valid free there made after) =
          (new_row digest known b req ∷ [], ap Books.entries after)
      went (found rs existing valid there same made after) =
          ([], ap Books.entries after ∙ sym (append-nil b.entries))

  -- What a reversal leaves behind, also after later entries: the original, and the fact that it is reversed.
  left_behind :
      (b : Books) (i : ℕ) (actor reason : Text) (at : ℕ) (e : Entry) (b₁ b₂ : Books)
      → reverse_entry digest b i actor reason at ≡ ok (e, b₁)
      → Extends b₁ b₂
      → (x : EntryRow) × (get_entry_by_id b₂ i ≡ ok x)
        × (is_reversal x ≡ false)
        × (exists_by (reverses i) b₂.entries ≡ true)
  unfolding Extends
  left_behind b i actor reason at e b₁ b₂ h more =
      let r = reverse_entry-Reversed digest b i actor reason at e b₁ h in
      let row = reversal_row digest b r.original r.negated actor reason at in
      (
        r.original,
        id_kept b₁ b₂ i r.original more
            (id_kept b b₁ i r.original (row ∷ [], ap Books.entries r.after) r.found),
        r.not_reversal,
        reversed_kept b₁ b₂ i more (
            rw r.after (
              exists_by-append_last (reverses i) b.entries row
                ((==_iff r.original.id i).1 (id_of_entry b i r.original r.found)))),
      )

  refused_again :
      (b : Books) (i : ℕ) (x : EntryRow) (actor : Text) (at : ℕ)
      → get_entry_by_id b i ≡ ok x
      → is_reversal x ≡ false
      → exists_by (reverses i) b.entries ≡ true
      → is_empty actor ≡ false
      → at ≢ 0
      → reverse_entry digest b i actor reason_post_dispatch at ≡ err already_reversed
  unfolding reverse_entry
  refused_again b i x actor at there plain done given late =
      rw (given, nonzero at late, there, plain, done) refl
    where
      nonzero : (n : ℕ) → n ≢ 0 → (n == 0) ≡ false
      nonzero n h = ground arith

  module _ (fast : Option Bool) (now : ℕ) where
    retried_b :
        (s : Store) (order : Order) (key actor : Text) (x : EntryRow)
        → get_entry_by_idempotency_key s.books key ≡ ok x
        → reverse_entry digest s.books x.id actor reason_post_dispatch now ≡ err already_reversed
        → reorg_scenario_b digest fast now s order key actor ≡ err already_reversed
    unfolding reorg_scenario_b
    retried_b s order key actor x there refused = rw (there, refused) refl

    written_key :
        (reason actor : Text) (s : Store) (b : Books)
        → (set_halt reason actor (record s { books = b })).books ≡ b
    unfolding set_halt
    written_key reason actor s b = refl

    -- After such a reorg was handled, a second report of it by a named actor, at a time that is not
    -- Go's zero time, is refused as already reversed: the reversal comes before the loss entry,
    -- whose key alone would have made the call idempotent.
    pub reorg_post_dispatch_again :
        (s : Store) (i : ℕ) (order : Order) (key actor actor' : Text) (o : Order) (s' : Store)
        → IsStore s
        → get_order s i ≡ ok order
        → IsInt64 order.amount_out
        → (order.state ≡ dispatching) ⊎ (order.state ≡ settled)
        → handle_deposit_reorg digest fast now s i key actor ≡ ok (o, s')
        → is_empty actor' ≡ false
        → now ≢ 0
        → handle_deposit_reorg digest fast now s' i key actor' ≡ err already_reversed
    unfolding Extends
    reorg_post_dispatch_again s i order key actor actor' o s' v there fits state h given late =
        let w = written_off digest fast now s i order key actor o s' there state h in
        let (_, there', _, _) =
          reorg_post_dispatch digest fast now s i order key actor o s' v there fits state h in
        let books : s'.books ≡ w.books₂ =
          rw w.after (written_key reason_post_settlement_reorg actor s w.books₂) in
        let r =
          reverse_entry-Reversed digest s.books w.original.id actor reason_post_dispatch now
            w.reversal w.books₁ w.undone in
        let more =
          post-Extends (order_known s) w.books₁ (loss_request order actor now) w.loss w.books₂
            w.booked in
        let (x, found_x, plain, done) =
          left_behind s.books w.original.id actor reason_post_dispatch now w.reversal w.books₁
            w.books₂ w.undone more in
        let kept = key_kept w.books₁ w.books₂ key w.original more (
          key_kept s.books w.books₁ key w.original
            (
              reversal_row digest s.books r.original r.negated actor reason_post_dispatch now ∷ [],
              ap Books.entries r.after,
            )
            w.there) in
        let refused =
          refused_again w.books₂ w.original.id x actor' now found_x plain done given late in
        handled digest fast now s' i order key actor' there'
        ∙ after_payout digest fast now order.state s' order key actor' state
        ∙ retried_b s' order key actor' w.original (rw books kept) (rw books refused)
