-- ===== src/Ledger/Orders/Reorgs.antt =====
-- What the handling of a deposit reorg before dispatch does (ledger/internal/orders/reorg.go).
use usdt_settlement_corridor.Base.{
  ℕ, suc, ◌≡◌, refl, sym, ap, subst, ◌∙◌, Bool, true, List, [], ◌∷◌, ◌++◌, Option, none, arith,
  ==_iff, Option-cases, inl, inr, ◌⊎◌,
}
use usdt_settlement_corridor.Base.Text.{Text, text_eq}
use usdt_settlement_corridor.Base.Table.{find_by, find_by-append_some, find_by-append_none}
use usdt_settlement_corridor.Base.Int.{◌+ℤ◌}
use usdt_settlement_corridor.Ledger.Error.{ok, bind_ok, entry_not_found}
use usdt_settlement_corridor.Ledger.Database.{State, quoted, funded, Order, EntryRow, Books, Store}
use usdt_settlement_corridor.Ledger.Journal.Entry.{HashPayload}
use usdt_settlement_corridor.Ledger.Journal.Posting.{Entry, get_entry_by_idempotency_key}
use usdt_settlement_corridor.Ledger.Journal.Reversing.{
  reverses, reverse_entry, reversal_of, reversal_row,
}
use usdt_settlement_corridor.Ledger.Journal.Balances.{account_total}
use usdt_settlement_corridor.Ledger.Journal.Invariant.{lines_of}
use usdt_settlement_corridor.Ledger.Journal.Reversal.{
  id_of_entry, reverse_entry-Reversed, reverse_entry_net,
}
use usdt_settlement_corridor.Ledger.Orders.Machine.{state_eq}
use usdt_settlement_corridor.Ledger.Orders.Create.{get_order}
use usdt_settlement_corridor.Ledger.Orders.Transition.{
  TransitionParams, given, post_entry, transition,
}
use usdt_settlement_corridor.Ledger.Orders.Outcomes.{
  Transitioned, by_move, by_answer, transition-Transitioned, or_fail_ok,
}
use usdt_settlement_corridor.Ledger.Orders.Invariant.{IsOrders}
use usdt_settlement_corridor.Ledger.Orders.History.{IsStore, done, more, reversed, Steps-IsStore}
use usdt_settlement_corridor.Ledger.Orders.Race.{id_of_order}
use usdt_settlement_corridor.Ledger.Orders.Effect.{OneStep, transition_effect}
use usdt_settlement_corridor.Ledger.Orders.Reorg.{
  reason_before_dispatch, to_quoted, reorg_retry_from_quoted, reorg_scenario_a,
  handle_deposit_reorg,
}

module _ (digest : HashPayload → Text) (fast : Option Bool) (now : ℕ) where
  -- The reversal and the move of scenario A.
  pub record TakenBack (s : Store) (i : ℕ) (order : Order) (key actor : Text) (o : Order)
      (s' : Store) : Type 0 where
    pub original : EntryRow
    pub reversal : Entry
    pub books : Books
    pub there : get_entry_by_idempotency_key s.books key ≡ ok original
    pub undone :
        reverse_entry digest s.books original.id actor reason_before_dispatch now
        ≡ ok (reversal, books)
    pub went :
        transition digest fast
          (record s { books = books })
          i
          quoted
          order.version
          (to_quoted actor now reversal.row.id)
        ≡ ok (o, s')

  scenario_a_inv :
      (s : Store) (order : Order) (key actor : Text) (o : Order) (s' : Store)
      → reorg_scenario_a digest fast now s order key actor ≡ ok (o, s')
      → TakenBack s order.id order key actor o s'
  unfolding reorg_scenario_a
  scenario_a_inv s order key actor o s' h =
      let (original, there, h₁) = bind_ok (get_entry_by_idempotency_key s.books key) _ h in
      let (reversal, undone, h₂) =
        bind_ok (reverse_entry digest s.books original.id actor reason_before_dispatch now) _ h₁ in
      record {
        original = original;
        reversal = reversal.0;
        books = reversal.1;
        there = there;
        undone = undone;
        went = h₂;
      }

  pub taken_back :
      (s : Store) (i : ℕ) (order : Order) (key actor : Text) (o : Order) (s' : Store)
      → get_order s i ≡ ok order
      → order.state ≡ funded
      → handle_deposit_reorg digest fast now s i key actor ≡ ok (o, s')
      → TakenBack s i order key actor o s'
  unfolding handle_deposit_reorg reorg_scenario_a
  taken_back s i order key actor o s' there state h =
      subst (λ n. TakenBack s n order key actor o s') (id_of_order s i order there)
        (scenario_a_inv s order key actor o s' (rw (there, state) at h))

  no_entry :
      (s : Store) (p : TransitionParams) (x : Option ℕ) (b : Books)
      → p.entry ≡ none
      → post_entry digest s p ≡ ok (x, b)
      → b ≡ s.books
  unfolding post_entry
  no_entry s p x b e h = ground arith

  -- Without an entry of its own a transition changes neither the books nor the halt flag.
  only_moves :
      (s : Store) (i : ℕ) (to_state : State) (v : ℕ) (p : TransitionParams) (o : Order) (s' : Store)
      → p.entry ≡ none
      → transition digest fast s i to_state v p ≡ ok (o, s')
      → (s'.books ≡ s.books) × (s'.system ≡ s.system)
  only_moves s i to_state v p o s' e h =
      went (transition-Transitioned digest fast s i to_state v p o s' h)
    where
      went :
          Transitioned digest fast s i to_state v p o s'
          → (s'.books ≡ s.books) × (s'.system ≡ s.system)
      went (by_answer a) = (ap Store.books a.same, ap Store.system a.same)
      went (by_move m) = (
        ap Store.books m.after ∙ no_entry s p m.entry_id m.books e m.posted,
        ap Store.system m.after,
      )

  pub books_aside :
      (s : Store) (b : Books) (i : ℕ) → get_order (record s { books = b }) i ≡ get_order s i
  unfolding get_order
  books_aside s b i = refl

  same_row : (a b : EntryRow) → ok a ≡ ok b → a ≡ b
  same_row a b e = cc

  one_up :
      (s : Store) (i v : ℕ) (p : TransitionParams) (order o : Order) (s' : Store)
      → IsOrders s
      → get_order s i ≡ ok order
      → order.state ≡ funded
      → transition digest fast s i quoted v p ≡ ok (o, s')
      → (get_order s' i ≡ ok o) × (o.state ≡ quoted) × (o.version ≡ suc v)
  unfolding state_eq
  one_up s i v p order o s' q there state h =
      went (transition_effect digest fast s i quoted v p o s' q h)
    where
      is_quoted : (a : State) → state_eq quoted a ≡ true → a ≡ quoted
      is_quoted a h = ground arith

      stayed : (a b : Order) → ok a ≡ ok b → b.state ≡ funded → a.state ≡ quoted → ⊥
      stayed a b e f q = ground arith

      went :
          (get_order s' i ≡ ok o)
            × (state_eq quoted o.state ≡ true)
            × ((s' ≡ s) ⊎ OneStep s i quoted v p o s')
          → (get_order s' i ≡ ok o) × (o.state ≡ quoted) × (o.version ≡ suc v)
      went (now_there, goal, inl e) = absurd (
          stayed o order (sym now_there ∙ ap (λ t. get_order t i) e ∙ there) state
            (is_quoted o.state goal))
      went (now_there, goal, inr one) = (now_there, is_quoted o.state goal, one.version)

  -- In a well-formed store, a reorg of a funded order that is handled with success takes the
  -- deposit back: the order is quoted again, at the next version; the halt flag is as it was; and
  -- every account's total has lost exactly what the deposit's entry had put there, so that the two
  -- entries together move nothing.
  pub reorg_before_dispatch :
      (s : Store) (i : ℕ) (order : Order) (key actor : Text) (o : Order) (s' : Store)
      (original : EntryRow)
      → IsStore s
      → get_order s i ≡ ok order
      → order.state ≡ funded
      → get_entry_by_idempotency_key s.books key ≡ ok original
      → handle_deposit_reorg digest fast now s i key actor ≡ ok (o, s')
      → (get_order s' i ≡ ok o)
        × (o.state ≡ quoted)
        × (o.version ≡ suc order.version)
        × (s'.system ≡ s.system)
        × ((j : ℕ)
            → account_total j s'.books.lines +ℤ account_total j (lines_of original.id s.books.lines)
              ≡ account_total j s.books.lines)
  reorg_before_dispatch s i order key actor o s' original v there state found h =
      let t = taken_back s i order key actor o s' there state h in
      let s₁ : Store = record s { books = t.books } in
      let v₁ = Steps-IsStore digest s s₁ v (
        more s s₁ done
          (reversed t.original.id actor reason_before_dispatch now t.reversal t.books t.undone)) in
      let (there', quoted', next) =
        one_up s₁ i order.version (to_quoted actor now t.reversal.row.id) order o s' v₁.orders
          (books_aside s t.books i ∙ there) state t.went in
      let (books, system) =
        only_moves s₁ i quoted order.version (to_quoted actor now t.reversal.row.id) o s' refl
          t.went in
      (
        there',
        quoted',
        next,
        system,
        λ j.
            rw (books, sym (same_row t.original original (sym t.there ∙ found)))
              ((reverse_entry_net digest s.books t.original.id actor reason_before_dispatch now
                  t.reversal t.books v.books t.undone).1
                j),
      )

  found_kept :
      (b : Books) (row : EntryRow) (n : Books) (key : Text) (x : EntryRow)
      → n.entries ≡ b.entries ++ (row ∷ [])
      → get_entry_by_idempotency_key b key ≡ ok x
      → get_entry_by_idempotency_key n key ≡ ok x
  unfolding get_entry_by_idempotency_key
  found_kept b row n key x e h =
      rw
        (
          e,
          find_by-append_some (λ (r : EntryRow). text_eq r.idempotency_key key) b.entries (row ∷ [])
              x (or_fail_ok _ entry_not_found x h),
        )
        refl

  reversal_seen :
      (b : Books) (row : EntryRow) (n : Books) (i : ℕ)
      → n.entries ≡ b.entries ++ (row ∷ [])
      → reverses i row ≡ true
      → given (reversal_of n i) ≡ true
  unfolding reversal_of
  reversal_seen b row n i e h = rw e (last_given b.entries row i h)
    where
      last_given :
          (xs : List EntryRow) (row : EntryRow) (i : ℕ)
          → reverses i row ≡ true
          → given (find_by (reverses i) (xs ++ (row ∷ []))) ≡ true
      last_given xs row i h = elim (Option-cases (find_by (reverses i) xs)) [
        | inl free ↦ rw (find_by-append_none (reverses i) xs row free h) refl
        | inr (x, there) ↦ rw (find_by-append_some (reverses i) xs (row ∷ []) x there) refl
      ]

  after_reversal :
      (b : Books) (i : ℕ) (actor reason : Text) (e : Entry) (b' : Books) (key : Text) (x : EntryRow)
      → reverse_entry digest b i actor reason now ≡ ok (e, b')
      → get_entry_by_idempotency_key b key ≡ ok x
      → (get_entry_by_idempotency_key b' key ≡ ok x) × (given (reversal_of b' i) ≡ true)
  after_reversal b i actor reason e b' key x h found =
      let r = reverse_entry-Reversed digest b i actor reason now e b' h in
      let row = reversal_row digest b r.original r.negated actor reason now in
      let entries : b'.entries ≡ b.entries ++ (row ∷ []) = ap Books.entries r.after in
      (
        found_kept b row b' key x entries found,
        reversal_seen b row b' i entries
            ((==_iff r.original.id i).1 (id_of_entry b i r.original r.found)),
      )

  retried :
      (s : Store) (i : ℕ) (o : Order) (key actor : Text) (x : EntryRow)
      → get_order s i ≡ ok o
      → o.state ≡ quoted
      → get_entry_by_idempotency_key s.books key ≡ ok x
      → given (reversal_of s.books x.id) ≡ true
      → handle_deposit_reorg digest fast now s i key actor ≡ ok (o, s)
  unfolding handle_deposit_reorg reorg_retry_from_quoted
  retried s i o key actor x there state found seen = ground (arith, there, state, found, seen)

  -- In a well-formed store, once the reorg of a funded order was handled, a second report of it
  -- changes nothing and gives the order as it stands, whoever sends it.
  pub reorg_again :
      (s : Store) (i : ℕ) (order : Order) (key actor actor' : Text) (o : Order) (s' : Store)
      → IsStore s
      → get_order s i ≡ ok order
      → order.state ≡ funded
      → handle_deposit_reorg digest fast now s i key actor ≡ ok (o, s')
      → handle_deposit_reorg digest fast now s' i key actor' ≡ ok (o, s')
  reorg_again s i order key actor actor' o s' v there state h =
      let t = taken_back s i order key actor o s' there state h in
      let (there', quoted', _, _, _) =
        reorg_before_dispatch s i order key actor o s' t.original v there state t.there h in
      let (books, _) =
        only_moves (record s { books = t.books }) i quoted order.version
          (to_quoted actor now t.reversal.row.id) o s' refl t.went in
      let (kept, seen) =
        after_reversal s.books t.original.id actor reason_before_dispatch t.reversal t.books key
          t.original t.undone t.there in
      retried s' i o key actor' t.original there' quoted'
        (subst (λ b. get_entry_by_idempotency_key b key ≡ ok t.original) (sym books) kept)
        (subst (λ b. given (reversal_of b t.original.id) ≡ true) (sym books) seen)
