-- ===== src/Ledger/Orders/Standstill.antt =====
-- While a halt stands, no order is paid out or refunded (ledger/internal/orders/transitions.go and
-- store.go, ledger/internal/halt).
use mathlib.Core.List.{append-nil, append_assoc}
use usdt_settlement_corridor.Base.{
  ℕ, ◌≡◌, refl, sym, ap, subst, ◌∙◌, Bool, true, false, List, [], ◌∷◌, ◌++◌, Option, none, some,
  arith, ◌==◌, Bool-cases, inl, inr, ◌⊎◌,
}
use usdt_settlement_corridor.Base.Text.{Text}
use usdt_settlement_corridor.Base.Table.{
  exists_by, exists_by-append_some, exists_by-append_right, find_by-append_some, find_by-update_by,
}
use usdt_settlement_corridor.Ledger.Error.{ok}
use usdt_settlement_corridor.Ledger.Database.{
  State, quoted, funded, screened, held, dispatching, settled, refunded, expired, other_state,
  Order, HaltLogRow, Store,
}
use usdt_settlement_corridor.Ledger.Journal.Entry.{HashPayload}
use usdt_settlement_corridor.Ledger.Halt.{reason_balance_drift, is_halted, set_halt}
use usdt_settlement_corridor.Ledger.Recon.{snapshot_actor}
use usdt_settlement_corridor.Ledger.Recon.Drift.{ingest_snapshot_rest}
use usdt_settlement_corridor.Ledger.Orders.Machine.{Rule, transition_table}
use usdt_settlement_corridor.Ledger.Orders.Create.{new_order, get_order}
use usdt_settlement_corridor.Ledger.Orders.Transition.{
  TransitionParams, halt_gate, moved, at_version,
}
use usdt_settlement_corridor.Ledger.Orders.Outcomes.{
  Moved, Transitioned, by_move, by_answer, transition-Transitioned,
}
use usdt_settlement_corridor.Ledger.Orders.Invariant.{create_order_inv}
use usdt_settlement_corridor.Ledger.Orders.Moves.{get_order_found}
use usdt_settlement_corridor.Ledger.Orders.History.{
  Step, opened, posted, reversed, ordered, stepped, halted, cleared, snapshotted, Steps, done, more,
  clear_rest,
}
use usdt_settlement_corridor.Ledger.Orders.Halts.{by_operator, Step-HaltKept}
use usdt_settlement_corridor.Ledger.Orders.Race.{found_get_order, set_halt_orders}

-- The states that an order reaches when money leaves for the customer, or back to the sender.
abbrev pub is_paying : State → Bool
is_paying quoted = false
is_paying funded = false
is_paying screened = false
is_paying held = false
is_paying dispatching = true
is_paying settled = true
is_paying refunded = true
is_paying expired = false
is_paying (other_state name) = false

halted_passes :
    (r : Rule) (fast : Option Bool) (s : Store)
    → is_halted s ≡ true
    → halt_gate r fast s ≡ ok tt
    → r.halt_blocked ≡ false
unfolding halt_gate
halted_passes r none s h g = ground arith
halted_passes r (some b) s h g = ground arith

unblocked :
    (a b : State) (r : Rule)
    → transition_table a b ≡ some r
    → r.halt_blocked ≡ false
    → is_paying b ≡ false
unfolding transition_table
unblocked a b r h g = ground arith

-- The order under an id later on: in the same state, or in one that does not pay.
abbrev pub Unpaid : Store → ℕ → Order → Type 0
Unpaid s' i o =
    (o' : Order) × (get_order s' i ≡ ok o') × ((o'.state ≡ o.state) ⊎ (is_paying o'.state ≡ false))

same_orders :
    (s s' : Store) (i : ℕ) (o : Order) → s'.orders ≡ s.orders → get_order s i ≡ ok o → Unpaid s' i o
same_orders s s' i o e h = (o, found_get_order s' i o (rw e (get_order_found s i o h)), inl refl)

module _ (digest : HashPayload → Text) where
  Moved-Unpaid :
      (fast : Option Bool) (s : Store) (j : ℕ) (to_state : State) (expected : ℕ)
      (p : TransitionParams) (n : Order) (s' : Store) (i : ℕ) (o : Order)
      → Moved digest fast s j to_state expected p n s'
      → is_halted s ≡ true
      → get_order s i ≡ ok o
      → Unpaid s' i o
  Moved-Unpaid fast s j to_state expected p n s' i o m stands h =
      let hit = at_version m.current.id expected in
      let there =
        find_by-update_by hit (moved to_state p.sender_address) (λ (x : Order). x.id == i) s.orders
          o (λ x. refl) (get_order_found s i o h) in
      elim (Bool-cases (hit o)) [
        | inr miss ↦ (o, found_get_order s' i o (rw m.after (there ∙ rw miss refl)), inl refl)
        | inl t ↦ (
          moved to_state p.sender_address o,
          found_get_order s' i (moved to_state p.sender_address o) (rw m.after (there ∙ rw t refl)),
          inr (
              unblocked m.current.state to_state m.rule m.legal
                (halted_passes m.rule fast s stands m.not_halted)),
        )
      ]

  Step-Unpaid :
      (s s' : Store) (i : ℕ) (o : Order)
      → Step digest s s'
      → is_halted s ≡ true
      → get_order s i ≡ ok o
      → Unpaid s' i o
  Step-Unpaid s s' i o (opened code t asset a b e) stands h =
      same_orders s (record s { books = b }) i o refl h
  Step-Unpaid s s' i o (posted req e b f k) stands h =
      same_orders s (record s { books = b }) i o refl h
  Step-Unpaid s s' i o (reversed j actor reason at e b k) stands h =
      same_orders s (record s { books = b }) i o refl h
  Step-Unpaid s s' i o (ordered p n s'' k) stands h = (
    o,
    found_get_order s' i o (
        rw (create_order_inv p s s' n k).1 (
          find_by-append_some (λ (x : Order). x.id == i) s.orders (new_order s.next_order p ∷ []) o
            (get_order_found s i o h))),
    inl refl,
  )
  Step-Unpaid s s' i o (stepped fast j to_state expected p n s'' f k) stands h =
      went (transition-Transitioned digest fast s j to_state expected p n s' k)
    where
      went : Transitioned digest fast s j to_state expected p n s' → Unpaid s' i o
      went (by_answer a) = subst (λ t. Unpaid t i o) (sym a.same) (o, h, inl refl)
      went (by_move m) = Moved-Unpaid fast s j to_state expected p n s' i o m stands h
  Step-Unpaid s s' i o (halted reason actor) stands h =
      same_orders s (set_halt reason actor s) i o (set_halt_orders digest reason actor s) h
  Step-Unpaid s s' i o (cleared actor note s'' k) stands h =
      same_orders s s' i o (rw (clear_rest digest actor note s s' k) refl) h
  Step-Unpaid s s' i o (snapshotted cfg p r s'' k) stands h =
      let (xs, made) = ingest_snapshot_rest cfg p s r s' k in
      elim made [
        | inl e ↦ same_orders s s' i o (ap Store.orders e) h
        | inr e ↦
            same_orders s s' i o
              (ap Store.orders e
                ∙ set_halt_orders digest reason_balance_drift snapshot_actor
                    (record s { snapshots = xs }))
              h
      ]

  -- Whatever transactions are committed on a ledger that is halted: either an operator has cleared a
  -- halt, with a name and a note in the log, or the ledger is halted still, and then every order that
  -- was there is in the state it was in, or in one that is neither dispatching nor settled nor
  -- refunded.
  pub halted_pays_nothing :
      (s s' : Store) (i : ℕ) (o : Order)
      → Steps digest s s'
      → is_halted s ≡ true
      → get_order s i ≡ ok o
      → (rows : List HaltLogRow) × (s'.halt_log ≡ s.halt_log ++ rows)
        × ((exists_by by_operator rows ≡ true) ⊎ ((is_halted s' ≡ true) × Unpaid s' i o))
  halted_pays_nothing s s' i o done was h =
      ([], sym (append-nil s.halt_log), inr (was, (o, h, inl refl)))
  halted_pays_nothing s s' i o (more s₁ s₂ before last) was h =
      let (rows, log, so_far) = halted_pays_nothing s s₁ i o before was h in
      let (more_rows, more_log, kept) = Step-HaltKept digest s₁ s' last in
      (
        rows ++ more_rows,
        more_log ∙ ap (λ t. t ++ more_rows) log ∙ append_assoc s.halt_log rows more_rows,
        further rows more_rows so_far kept,
      )
    where
      onward :
          (o₁ : Order)
          → (o₁.state ≡ o.state) ⊎ (is_paying o₁.state ≡ false)
          → Unpaid s' i o₁
          → Unpaid s' i o
      onward o₁ on (o₂, there, inr n) = (o₂, there, inr n)
      onward o₁ (inl e) (o₂, there, inl f) = (o₂, there, inl (f ∙ e))
      onward o₁ (inr n) (o₂, there, inl f) = (o₂, there, inr (ap is_paying f ∙ n))

      further :
          (rows more_rows : List HaltLogRow)
          → (exists_by by_operator rows ≡ true) ⊎ ((is_halted s₁ ≡ true) × Unpaid s₁ i o)
          → (is_halted s₁ ≡ true → is_halted s' ≡ true) ⊎ (exists_by by_operator more_rows ≡ true)
          → (exists_by by_operator (rows ++ more_rows) ≡ true)
            ⊎ ((is_halted s' ≡ true) × Unpaid s' i o)
      further rows more_rows (inl e) kept = inl (exists_by-append_some by_operator rows more_rows e)
      further rows more_rows (inr q) (inr e) =
          inl (exists_by-append_right by_operator rows more_rows e)
      further rows more_rows (inr (stands, (o₁, there, on))) (inl f) =
          inr (f stands, onward o₁ on (Step-Unpaid s₁ s' i o₁ last stands there))
