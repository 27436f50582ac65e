-- ===== src/Ledger/Orders/Invariant.antt =====
-- The invariant of the orders and their log: every order has gone a legal way to its state, one step
-- for each version.
use usdt_settlement_corridor.Base.{
  ℕ, suc, ◌<◌, ◌≡◌, refl, sym, subst, false, List, [], ◌∷◌, ◌++◌, none, some, arith, ◌==◌, ==_iff,
  All, All-map, All-append, length,
}
use usdt_settlement_corridor.Base.Table.{
  find_by, select, select-All-false, find_by-append_some, find_by-append_none, find_by-none-All,
}
use usdt_settlement_corridor.Ledger.Error.{ok}
use usdt_settlement_corridor.Ledger.Database.{State, quoted, Order, TransitionRow, Store}
use usdt_settlement_corridor.Ledger.Orders.Machine.{Rule, transition_table}
use usdt_settlement_corridor.Ledger.Orders.Create.{CreateParams, new_order, create_order}

-- The rows of the log lead from one state to another, each along a legal pair, each from where the
-- one before it ended.
abbrev pub IsPath : State → List TransitionRow → State → Type 0
IsPath a [] b = a ≡ b
IsPath a (t ∷ ts) b =
    (t.from_state ≡ a)
    × ((rule : Rule) × (transition_table a t.to_state ≡ some rule))
    × IsPath t.to_state ts b

abbrev pub rows_of : ℕ → List TransitionRow → List TransitionRow
rows_of i = select (λ t. t.order_id == i)

pub record IsOrderOf (orders : List Order) (next : ℕ) (log : List TransitionRow) (o : Order)
    : Type 0 where
  pub below : o.id < next
  pub by_id : find_by (λ x. x.id == o.id) orders ≡ some o
  pub way : IsPath quoted (rows_of o.id log) o.state
  pub counted : length (rows_of o.id log) ≡ o.version

pub record IsOrders (s : Store) : Type 0 where
  pub each : All (IsOrderOf s.orders s.next_order s.transitions) s.orders
  pub logged : All (λ (t : TransitionRow). t.order_id < s.next_order) s.transitions

pub IsPath-append :
    (a : State) (ts : List TransitionRow) (t : TransitionRow) (rule : Rule)
    → IsPath a ts t.from_state
    → transition_table t.from_state t.to_state ≡ some rule
    → IsPath a (ts ++ (t ∷ [])) t.to_state
IsPath-append a [] t rule h l = (sym h, (rule, rw h l), refl)
IsPath-append a (x ∷ ts) t rule h l = (h.0, h.1, IsPath-append x.to_state ts t rule h.2 l)

IsOrderOf-extend :
    (orders : List Order) (next : ℕ) (log : List TransitionRow) (o x : Order)
    → IsOrderOf orders next log x
    → IsOrderOf (orders ++ (o ∷ [])) (suc next) log x
IsOrderOf-extend orders next log o x h = record {
  below = omega (arith, h.below);
  by_id = find_by-append_some _ orders (o ∷ []) x h.by_id;
  way = h.way;
  counted = h.counted;
}

below_ne : (m n : ℕ) → m < n → (m == n) ≡ false
below_ne m n l = ground arith

new_id : (s : Store) → IsOrders s → find_by (λ (o : Order). o.id == s.next_order) s.orders ≡ none
new_id s v = find_by-none-All _ s.orders (
    All-map _ _ s.orders
      (λ o (k : IsOrderOf s.orders s.next_order s.transitions o).
        below_ne o.id s.next_order k.below)
      v.each)

no_rows : (s : Store) → IsOrders s → rows_of s.next_order s.transitions ≡ []
no_rows s v =
    select-All-false _ s.transitions
      (All-map _ _ s.transitions (λ t l. below_ne t.order_id s.next_order l) v.logged)

later : (m n : ℕ) → m < n → m < suc n
later m n l = omega arith

pub create_order_inv :
    (p : CreateParams) (s s' : Store) (o : Order)
    → create_order p s ≡ ok (o, s')
    → (o ≡ new_order s.next_order p)
      × (s' ≡ record s {
        orders = s.orders ++ (new_order s.next_order p ∷ []);
        next_order = suc s.next_order;
      })
unfolding create_order
create_order_inv p s s' o h = (ground arith, ground arith)

add_order-IsOrders :
    (s : Store) (p : CreateParams)
    → IsOrders s
    → IsOrders (record s {
      orders = s.orders ++ (new_order s.next_order p ∷ []);
      next_order = suc s.next_order;
    })
add_order-IsOrders s p v =
    let o = new_order s.next_order p in
    record {
      each =
          All-append _ s.orders (o ∷ [])
            (All-map _ _ s.orders (λ x. IsOrderOf-extend s.orders s.next_order s.transitions o x)
              v.each)
            (
              record {
                below = omega arith;
                by_id =
                    find_by-append_none _ s.orders o (new_id s v)
                      ((==_iff s.next_order s.next_order).1 refl);
                way = rw (no_rows s v) refl;
                counted = rw (no_rows s v) refl;
              },
              tt,
            );
      logged = All-map _ _ s.transitions (λ t l. later t.order_id s.next_order l) v.logged;
    }

pub create_order-IsOrders :
    (p : CreateParams) (s s' : Store) (o : Order)
    → IsOrders s
    → create_order p s ≡ ok (o, s')
    → IsOrders s'
create_order-IsOrders p s s' o v h =
    subst IsOrders (sym (create_order_inv p s s' o h).1) (add_order-IsOrders s p v)
