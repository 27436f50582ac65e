-- ===== src/Ledger/Orders/Effect.antt =====
-- What a transition that succeeds has done (ledger/internal/orders/store.go).
use usdt_settlement_corridor.Base.{
  ℕ, suc, ◌≡◌, ◌≢◌, refl, sym, ap, subst, ◌∙◌, Bool, true, false, ◌&&◌, List, [], ◌∷◌, ◌++◌, Option,
  some, arith, ◌==◌, ==_iff, Bool-cases, inl, inr, ◌⊎◌,
}
use usdt_settlement_corridor.Base.Text.{Text, text_eq_refl}
use usdt_settlement_corridor.Base.Table.{
  find_by, find_by-true, find_by_All, find_by-update_by_other,
}
use usdt_settlement_corridor.Ledger.Error.{ok}
use usdt_settlement_corridor.Ledger.Database.{
  State, quoted, funded, screened, dispatching, settled, held, refunded, expired, other_state,
  Order, Store,
}
use usdt_settlement_corridor.Ledger.Journal.Entry.{HashPayload}
use usdt_settlement_corridor.Ledger.Orders.Machine.{state_eq, Rule, transition_table}
use usdt_settlement_corridor.Ledger.Orders.Create.{get_order}
use usdt_settlement_corridor.Ledger.Orders.Transition.{
  TransitionParams, moved, at_version, move_row, transition,
}
use usdt_settlement_corridor.Ledger.Orders.Outcomes.{
  Transitioned, by_move, by_answer, transition-Transitioned,
}
use usdt_settlement_corridor.Ledger.Orders.Invariant.{IsOrders, IsOrderOf}
use usdt_settlement_corridor.Ledger.Orders.Moves.{get_order_found}
use usdt_settlement_corridor.Ledger.Orders.Race.{moved_found, id_of_order}

state_eq_refl : (a : State) → state_eq a a ≡ true
unfolding state_eq
state_eq_refl quoted = refl
state_eq_refl funded = refl
state_eq_refl screened = refl
state_eq_refl dispatching = refl
state_eq_refl settled = refl
state_eq_refl held = refl
state_eq_refl refunded = refl
state_eq_refl expired = refl
state_eq_refl (other_state s) = text_eq_refl s

-- One step of an order along the table, with its row in the log.
pub record OneStep (s : Store) (i : ℕ) (to_state : State) (expected : ℕ) (p : TransitionParams)
    (o : Order) (s' : Store) : Type 0 where
  pub before : Order
  pub rule : Rule
  pub entry_id : Option ℕ
  pub found : get_order s i ≡ ok before
  pub was_at : before.version ≡ expected
  pub legal : transition_table before.state to_state ≡ some rule
  pub version : o.version ≡ suc expected
  pub logged : s'.transitions ≡ s.transitions ++ (move_row before to_state entry_id p ∷ [])

and_left : (a b : Bool) → a && b ≡ true → a ≡ true
and_left a b h = ground arith

same_some :
    (f : ℕ → Option Order) (m n : ℕ) (x y : Order) → m ≡ n → f m ≡ some x → f n ≡ some y → x ≡ y
same_some f m n x y e p q = cc

abbrev order_at : List Order → ℕ → Option Order
order_at orders i = find_by (λ o. o.id == i) orders

-- The row that the compare-and-set finds is the order that was read.
row_is_current :
    (s : Store) (i v : ℕ) (current row : Order)
    → IsOrders s
    → get_order s i ≡ ok current
    → find_by (at_version current.id v) s.orders ≡ some row
    → row ≡ current
row_is_current s i v current row q there e =
    let k =
      find_by_All (at_version current.id v) (IsOrderOf s.orders s.next_order s.transitions) s.orders
        row q.each e in
    let same = (==_iff row.id current.id).0 (
      and_left (row.id == current.id) (row.version == v)
        (find_by-true (at_version current.id v) s.orders row e)) in
    same_some (order_at s.orders) row.id i row current (same ∙ id_of_order s i current there)
      k.by_id (get_order_found s i current there)

module _ (digest : HashPayload → Text) where
  -- In a store whose orders and log are well formed, a transition that succeeds leaves the order
  -- that it returns in the store, in the state that was asked for; and either nothing is changed at
  -- all, or the order took one step along a legal pair from the expected version to the next, with
  -- its row in the log.
  pub transition_effect :
      (fast : Option Bool) (s : Store) (i : ℕ) (to_state : State) (expected : ℕ)
      (p : TransitionParams) (o : Order) (s' : Store)
      → IsOrders s
      → transition digest fast s i to_state expected p ≡ ok (o, s')
      → (get_order s' i ≡ ok o)
        × (state_eq to_state o.state ≡ true)
        × ((s' ≡ s) ⊎ OneStep s i to_state expected p o s')
  transition_effect fast s i to_state expected p o s' q h =
      went (transition-Transitioned digest fast s i to_state expected p o s' h)
    where
      went :
          Transitioned digest fast s i to_state expected p o s'
          → (get_order s' i ≡ ok o)
            × (state_eq to_state o.state ≡ true)
            × ((s' ≡ s) ⊎ OneStep s i to_state expected p o s')
      went (by_answer a) = (rw a.same a.found, a.there, inl a.same)
      went (by_move m) =
          let e = row_is_current s i expected m.current m.row q m.found m.row_found in
          let made : o ≡ moved to_state p.sender_address m.current =
            m.result ∙ ap (moved to_state p.sender_address) e in
          (
            subst (λ x. get_order s' i ≡ ok x) (sym made)
                (moved_found digest fast s i to_state expected p o s' m),
            rw made (state_eq_refl to_state),
            inr (record {
              before = m.current;
              rule = m.rule;
              entry_id = m.entry_id;
              found = m.found;
              was_at = m.expected_version;
              legal = m.legal;
              version = rw (made, m.expected_version) refl;
              logged = rw m.after refl;
            }),
          )

  -- A transition leaves every other order as it was.
  pub transition_others :
      (fast : Option Bool) (s : Store) (i : ℕ) (to_state : State) (expected : ℕ)
      (p : TransitionParams) (o : Order) (s' : Store) (j : ℕ)
      → transition digest fast s i to_state expected p ≡ ok (o, s')
      → j ≢ i
      → get_order s' j ≡ get_order s j
  unfolding get_order
  transition_others fast s i to_state expected p o s' j h other =
      went (transition-Transitioned digest fast s i to_state expected p o s' h)
    where
      elsewhere : (m : ℕ) (x : Order) → m ≡ i → (x.id == j) ≡ true → at_version m expected x ≡ false
      elsewhere m x e t = elim (Bool-cases (x.id == m)) [
        | inr n ↦ ground arith
        | inl y ↦ absurd (other (sym ((==_iff x.id j).0 t) ∙ (==_iff x.id m).0 y ∙ e))
      ]

      went : Transitioned digest fast s i to_state expected p o s' → get_order s' j ≡ get_order s j
      went (by_answer a) = ap (λ t. get_order t j) a.same
      went (by_move m) =
          let e = id_of_order s i m.current m.found in
          rw
            (
              m.after,
              find_by-update_by_other (at_version m.current.id expected)
                  (moved to_state p.sender_address) (λ (x : Order). x.id == j) s.orders (λ x. refl)
                  (λ x t. elsewhere m.current.id x e t),
            )
            refl
