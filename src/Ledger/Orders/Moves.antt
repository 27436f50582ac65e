-- ===== src/Ledger/Orders/Moves.antt =====
-- A transition keeps the invariant of the orders (ledger/internal/orders/store.go).
use usdt_settlement_corridor.Base.{
  ℕ, ◌<◌, ◌≡◌, refl, sym, ap, subst, ◌∙◌, Bool, true, false, ◌&&◌, List, [], ◌∷◌, ◌++◌, Option,
  none, some, arith, ◌==◌, ==_iff, All, All-append, length, length-append, if◌then◌else◌,
  Bool-cases, inl, inr,
}
use mathlib.Core.List.{append-nil}
use usdt_settlement_corridor.Base.Text.{Text}
use usdt_settlement_corridor.Base.Table.{
  find_by, select, update_by, select-append, find_by-update_by, find_by_All, find_by-true,
  update_by-All,
}
use usdt_settlement_corridor.Ledger.Error.{ok, order_not_found}
use usdt_settlement_corridor.Ledger.Database.{State, quoted, Order, TransitionRow, Store}
use usdt_settlement_corridor.Ledger.Journal.Entry.{HashPayload}
use usdt_settlement_corridor.Ledger.Orders.Machine.{Rule, transition_table}
use usdt_settlement_corridor.Ledger.Orders.Create.{get_order}
use usdt_settlement_corridor.Ledger.Orders.Transition.{
  TransitionParams, move_row, moved, at_version, transition,
}
use usdt_settlement_corridor.Ledger.Orders.Outcomes.{
  Transitioned, by_move, by_answer, transition-Transitioned, or_fail_ok,
}
use usdt_settlement_corridor.Ledger.Orders.Invariant.{
  IsPath, IsPath-append, rows_of, IsOrderOf, IsOrders,
}

pub get_order_found :
    (s : Store) (i : ℕ) (o : Order)
    → get_order s i ≡ ok o
    → find_by (λ (x : Order). x.id == i) s.orders ≡ some o
unfolding get_order
get_order_found s i o h =
    or_fail_ok (find_by (λ (x : Order). x.id == i) s.orders) order_not_found o h

and_true : (a b : Bool) → a && b ≡ true → (a ≡ true) × (b ≡ true)
and_true a b h = (ground arith, ground arith)

both_true : (a b : Bool) → a ≡ true → b ≡ true → a && b ≡ false → ⊥
both_true a b p q h = ground arith

same_order : (o x y : Option Order) (a b : Order) → x ≡ some a → y ≡ some b → x ≡ y → a ≡ b
same_order o x y a b p q e = cc

select_one_true : (i : ℕ) (t : TransitionRow) → t.order_id ≡ i → rows_of i (t ∷ []) ≡ (t ∷ [])
unfolding select
select_one_true i t h = rw ((==_iff t.order_id i).1 h) refl

select_one_false : (i : ℕ) (t : TransitionRow) → (t.order_id == i) ≡ false → rows_of i (t ∷ []) ≡ []
unfolding select
select_one_false i t h = rw h refl

-- The parts of a move that the orders and the log see.
module _ (s : Store) (i : ℕ) (current : Order) (to_state : State) (rule : Rule)
    (sender : Option Text) (t : TransitionRow) (v : IsOrders s) (there : get_order s i ≡ ok current)
    (legal : transition_table current.state to_state ≡ some rule)
    (of_order : t.order_id ≡ current.id) (from : t.from_state ≡ current.state)
    (to : t.to_state ≡ to_state) where
  abbrev hit : Order → Bool
  hit = at_version current.id current.version

  abbrev orders' : List Order
  orders' = update_by hit (moved to_state sender) s.orders

  abbrev log' : List TransitionRow
  log' = s.transitions ++ (t ∷ [])

  id_current : current.id ≡ i
  id_current =
      (==_iff current.id i).0
        (find_by-true (λ x. x.id == i) s.orders current (get_order_found s i current there))

  -- The one order that is named is the one that was read.
  is_current :
      (x : Order)
      → IsOrderOf s.orders s.next_order s.transitions x
      → x.id ≡ current.id
      → x ≡ current
  is_current x k e =
      same_order none _ _ x current k.by_id (get_order_found s i current there)
        (ap (λ (n : ℕ). find_by (λ (y : Order). y.id == n) s.orders) (e ∙ id_current))

  hit_is_current :
      (x : Order) → IsOrderOf s.orders s.next_order s.transitions x → hit x ≡ true → x ≡ current
  hit_is_current x k h = is_current x k (
      (==_iff x.id current.id).0
        ((and_true (x.id == current.id) (x.version == current.version) h).0))

  rows_hit : rows_of current.id log' ≡ rows_of current.id s.transitions ++ (t ∷ [])
  rows_hit =
      select-append _ s.transitions (t ∷ [])
      ∙ ap (λ r. rows_of current.id s.transitions ++ r) (select_one_true current.id t of_order)

  rows_miss : (j : ℕ) → (t.order_id == j) ≡ false → rows_of j log' ≡ rows_of j s.transitions
  rows_miss j h =
      select-append _ s.transitions (t ∷ [])
      ∙ ap (λ r. rows_of j s.transitions ++ r) (select_one_false j t h)
      ∙ append-nil (rows_of j s.transitions)

  found_in :
      (x : Order)
      → IsOrderOf s.orders s.next_order s.transitions x
      → find_by (λ (y : Order). y.id == x.id) orders'
        ≡ some (if hit x then moved to_state sender x else x)
  found_in x k =
      find_by-update_by hit (moved to_state sender) (λ (y : Order). y.id == x.id) s.orders x
        (λ y. refl) k.by_id

  hits_itself : (x : Order) → x ≡ current → hit x ≡ false → ⊥
  hits_itself x e h =
      both_true (current.id == current.id) (current.version == current.version)
        ((==_iff current.id current.id).1 refl) ((==_iff current.version current.version).1 refl)
        (subst (λ y. hit y ≡ false) e h)

  moved_one :
      (x : Order)
      → hit x ≡ true
      → IsOrderOf s.orders s.next_order s.transitions x
      → IsOrderOf orders' s.next_order log' (moved to_state sender x)
  moved_one x h k =
      let e = hit_is_current x k h in
      let rows =
        ap (λ (y : Order). rows_of y.id log') e
        ∙ rows_hit
        ∙ ap (λ (y : Order). rows_of y.id s.transitions ++ (t ∷ [])) (sym e) in
      record {
        below = k.below;
        by_id = found_in x k ∙ rw h refl;
        way =
            subst (λ r. IsPath quoted r to_state) (sym rows)
              (subst (λ (z : State). IsPath quoted (rows_of x.id s.transitions ++ (t ∷ [])) z) to
                (IsPath-append quoted (rows_of x.id s.transitions) t rule
                  (subst (IsPath quoted (rows_of x.id s.transitions)) (ap Order.state e ∙ sym from)
                    k.way)
                  (rw (from, to) legal)));
        counted =
            ap length rows
            ∙ length-append (rows_of x.id s.transitions) (t ∷ [])
            ∙ omega (arith, k.counted);
      }

  kept_one :
      (x : Order)
      → hit x ≡ false
      → IsOrderOf s.orders s.next_order s.transitions x
      → IsOrderOf orders' s.next_order log' x
  kept_one x h k =
      let other = not_current x k h in
      record {
        below = k.below;
        by_id = found_in x k ∙ rw h refl;
        way = subst (λ r. IsPath quoted r x.state) (sym (rows_miss x.id other)) k.way;
        counted = ap length (rows_miss x.id other) ∙ k.counted;
      }
    where
      not_current :
          (x : Order)
          → IsOrderOf s.orders s.next_order s.transitions x
          → hit x ≡ false
          → (t.order_id == x.id) ≡ false
      not_current x k h = elim (Bool-cases (t.order_id == x.id)) [
        | inr n ↦ n
        | inl y ↦
            let e = is_current x k (sym ((==_iff t.order_id x.id).0 y) ∙ of_order) in
            absurd (hits_itself x e h)
      ]

  logged' : t.order_id < s.next_order → All (λ (r : TransitionRow). r.order_id < s.next_order) log'
  logged' l = All-append _ s.transitions (t ∷ []) v.logged (l, tt)

  below_current : current.id < s.next_order
  below_current =
      IsOrderOf.below
        (find_by_All (λ x. x.id == i) _ s.orders current v.each (get_order_found s i current there))

  pub move-IsOrders :
      All (IsOrderOf orders' s.next_order log') orders'
      × All (λ (r : TransitionRow). r.order_id < s.next_order) log'
  move-IsOrders = (
    update_by-All hit (moved to_state sender) _ _ s.orders (λ x h k. moved_one x h k)
        (λ x h k. kept_one x h k) v.each,
    logged' (rw of_order below_current),
  )

moved_version :
    (s : Store) (i : ℕ) (to_state : State) (expected : ℕ) (current : Order) (sender : Option Text)
    (books : _) (t : TransitionRow) (s' : Store)
    → current.version ≡ expected
    → s' ≡ record s {
      books = books;
      orders = update_by (at_version current.id expected) (moved to_state sender) s.orders;
      transitions = s.transitions ++ (t ∷ []);
    }
    → All
        (IsOrderOf
          (update_by (at_version current.id current.version) (moved to_state sender) s.orders)
          s.next_order
          (s.transitions ++ (t ∷ [])))
        (update_by (at_version current.id current.version) (moved to_state sender) s.orders)
      × All (λ (r : TransitionRow). r.order_id < s.next_order) (s.transitions ++ (t ∷ []))
    → IsOrders s'
moved_version s i to_state expected current sender books t s' same after h =
    rw (after, sym same) (record { each = h.0; logged = h.1 })

module _ (digest : HashPayload → Text) where
  pub transition-IsOrders :
      (fast : Option Bool) (s : Store) (i : ℕ) (to_state : State) (expected : ℕ)
      (p : TransitionParams) (o : Order) (s' : Store)
      → IsOrders s
      → transition digest fast s i to_state expected p ≡ ok (o, s')
      → IsOrders s'
  transition-IsOrders fast s i to_state expected p o s' v h =
      kept (transition-Transitioned digest fast s i to_state expected p o s' h)
    where
      kept : Transitioned digest fast s i to_state expected p o s' → IsOrders s'
      kept (by_answer a) = subst IsOrders (sym a.same) v
      kept (by_move m) =
          let t = move_row m.current to_state m.entry_id p in
          moved_version s i to_state expected m.current p.sender_address m.books t s'
            m.expected_version m.after
            (move-IsOrders s i m.current to_state m.rule p.sender_address t v m.found m.legal refl
              refl refl)
