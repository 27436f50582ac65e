-- ===== src/Ledger/Orders/Race.antt =====
-- How an order goes on through committed transactions: versions only grow, a terminal order stays as
-- it is, and of two transitions that were read at one version at most one is written.
use usdt_settlement_corridor.Base.{
  ℕ, suc, ◌<◌, ◌≡◌, refl, sym, ap, subst, ◌∙◌, Bool, true, false, ◌&&◌, [], ◌∷◌, Option, none, some,
  arith, ◌==◌, ==_iff, Bool-cases, Option-cases, inl, inr, ◌⊎◌,
}
use usdt_settlement_corridor.Base.Text.{Text}
use usdt_settlement_corridor.Base.Table.{
  find_by, find_by-true, find_by_All, find_by-append_some, find_by-update_by,
}
use usdt_settlement_corridor.Ledger.Error.{ok, err, version_conflict}
use usdt_settlement_corridor.Ledger.Database.{Books, State, Order, Store}
use usdt_settlement_corridor.Ledger.Journal.Entry.{HashPayload}
use usdt_settlement_corridor.Ledger.Halt.{reason_balance_drift, set_halt}
use usdt_settlement_corridor.Ledger.Recon.{snapshot_actor}
use usdt_settlement_corridor.Ledger.Recon.Drift.{ingest_snapshot_rest}
use usdt_settlement_corridor.Ledger.Orders.Machine.{terminal, Rule, transition_table}
use usdt_settlement_corridor.Ledger.Orders.Create.{new_order, get_order}
use usdt_settlement_corridor.Ledger.Orders.Transition.{
  TransitionParams, move, moved, at_version, post_entry, transition_read, transition_write,
  transition,
}
use usdt_settlement_corridor.Ledger.Orders.Outcomes.{
  Moved, Transitioned, by_move, by_answer, transition-Transitioned, read_move,
}
use usdt_settlement_corridor.Ledger.Orders.Invariant.{IsOrders, IsOrderOf, create_order_inv}
use usdt_settlement_corridor.Ledger.Orders.Moves.{get_order_found}
use usdt_settlement_corridor.Ledger.Orders.History.{
  IsStore, Step, opened, posted, reversed, ordered, stepped, halted, cleared, snapshotted, Steps,
  done, more, clear_rest, EntryFits, Steps-IsStore,
}

-- An order later on: the same, or one that was not terminal and has a greater version.
abbrev pub Onward : Order → Order → Type 0
Onward o o' = (o ≡ o') ⊎ ((o.version < o'.version) × (terminal o.state ≡ false))

Onward-trans : (a b c : Order) → Onward a b → Onward b c → Onward a c
Onward-trans a b c (inl e) h = subst (λ x. Onward x c) (sym e) h
Onward-trans a b c (inr p) (inl e) = inr (rw (sym e) p)
Onward-trans a b c (inr p) (inr q) = inr (omega (arith, p.0, q.0), p.1)

legal_not_terminal : (a b : State) (r : Rule) → transition_table a b ≡ some r → terminal a ≡ false
unfolding transition_table terminal
legal_not_terminal a b r h = ground arith

-- The order under an id in a later store.
abbrev pub Later : Store → ℕ → Order → Type 0
Later s' i o = (o' : Order) × (get_order s' i ≡ ok o') × Onward o o'

pub found_get_order :
    (s : Store) (i : ℕ) (o : Order)
    → find_by (λ (x : Order). x.id == i) s.orders ≡ some o
    → get_order s i ≡ ok o
unfolding get_order
found_get_order s i o h = rw h refl

pub id_of_order : (s : Store) (i : ℕ) (o : Order) → get_order s i ≡ ok o → o.id ≡ i
id_of_order s i o h =
    (==_iff o.id i).0 (find_by-true (λ (x : Order). x.id == i) s.orders o (get_order_found s i o h))

same_orders :
    (s s' : Store) (i : ℕ) (o : Order) → s'.orders ≡ s.orders → get_order s i ≡ ok o → Later s' i o
same_orders s s' i o e h = (o, found_get_order s' i o (rw e (get_order_found s i o h)), inl refl)

module _ (digest : HashPayload → Text) where
  Moved-onward :
      (fast : Option Bool) (s : Store) (j : ℕ) (to_state : State) (expected : ℕ)
      (p : TransitionParams) (o' : Order) (s' : Store) (i : ℕ) (o : Order)
      → Moved digest fast s j to_state expected p o' s'
      → get_order s i ≡ ok o
      → Later s' i o
  Moved-onward fast s j to_state expected p o' s' i o m h =
      let hit = at_version m.current.id expected in
      let there =
        find_by-update_by hit (moved to_state p.sender_address) (λ (x : Order). x.id == i) s.orders
          o (λ x. refl) (get_order_found s i o h) in
      elim (Bool-cases (hit o)) [
        | inr miss ↦ (o, found_get_order s' i o (rw m.after (there ∙ rw miss refl)), inl refl)
        | inl t ↦
            let same = (==_iff o.id m.current.id).0 (ground arith) in
            (
              moved to_state p.sender_address o,
              found_get_order s' i (moved to_state p.sender_address o)
                  (rw m.after (there ∙ rw t refl)),
              inr (
                omega arith,
                legal_not_terminal o.state to_state m.rule (
                    subst (λ (x : Order). transition_table x.state to_state ≡ some m.rule)
                      (one_order s j i m.current o m.found h same) m.legal),
              ),
            )
      ]
    where
      one_order :
          (s : Store) (j i : ℕ) (c o : Order)
          → get_order s j ≡ ok c
          → get_order s i ≡ ok o
          → o.id ≡ c.id
          → c ≡ o
      one_order s j i c o p q e =
          let same : j ≡ i = sym (id_of_order s j c p) ∙ sym e ∙ id_of_order s i o q in
          same_ok c o (sym p ∙ ap (get_order s) same ∙ q)
        where
          same_ok : (c o : Order) → ok c ≡ ok o → c ≡ o
          same_ok c o e = cc

  pub set_halt_orders :
      (reason actor : Text) (s : Store) → (set_halt reason actor s).orders ≡ s.orders
  unfolding set_halt
  set_halt_orders reason actor s = refl

  Step-Later :
      (s s' : Store) (i : ℕ) (o : Order) → Step digest s s' → get_order s i ≡ ok o → Later s' i o
  Step-Later s s' i o (opened code t asset a b e) h =
      same_orders s (record s { books = b }) i o refl h
  Step-Later s s' i o (posted req e b f k) h = same_orders s (record s { books = b }) i o refl h
  Step-Later s s' i o (reversed j actor reason at e b k) h =
      same_orders s (record s { books = b }) i o refl h
  Step-Later s s' i o (ordered p n s'' k) h = (
    o,
    found_get_order s' i o (
        rw (create_order_inv p s s' n k).1 (
          find_by-append_some (λ (x : Order). x.id == i) s.orders (new_order s.next_order p ∷ []) o
            (get_order_found s i o h))),
    inl refl,
  )
  Step-Later s s' i o (stepped fast j to_state expected p n s'' f k) h =
      went (transition-Transitioned digest fast s j to_state expected p n s' k)
    where
      went : Transitioned digest fast s j to_state expected p n s' → Later s' i o
      went (by_answer a) = subst (λ t. Later t i o) (sym a.same) (o, h, inl refl)
      went (by_move m) = Moved-onward fast s j to_state expected p n s' i o m h
  Step-Later s s' i o (halted reason actor) h =
      same_orders s (set_halt reason actor s) i o (set_halt_orders reason actor s) h
  Step-Later s s' i o (cleared actor note s'' k) h =
      same_orders s s' i o (rw (clear_rest digest actor note s s' k) refl) h
  Step-Later s s' i o (snapshotted cfg p r s'' k) h =
      let (xs, made) = ingest_snapshot_rest cfg p s r s' k in
      elim made [
        | inl e ↦ same_orders s s' i o (ap Store.orders e) h
        | inr e ↦
            same_orders s s' i o
              (ap Store.orders e
                ∙ set_halt_orders reason_balance_drift snapshot_actor (record s { snapshots = xs }))
              h
      ]

  -- Through any committed transactions an order under its id stays, and either is the same or has a
  -- greater version and was not terminal.
  pub Steps-Later :
      (s s' : Store) (i : ℕ) (o : Order) → Steps digest s s' → get_order s i ≡ ok o → Later s' i o
  Steps-Later s s' i o done h = (o, h, inl refl)
  Steps-Later s s' i o (more s₁ s₂ before last) h =
      let (o₁, h₁, on₁) = Steps-Later s s₁ i o before h in
      let (o₂, h₂, on₂) = Step-Later s₁ s' i o₁ last h₁ in (o₂, h₂, Onward-trans o o₁ o₂ on₁ on₂)

  -- An order that is settled, refunded or expired stays exactly as it is, whatever is committed later.
  pub terminal_forever :
      (s s' : Store) (i : ℕ) (o : Order)
      → get_order s i ≡ ok o
      → terminal o.state ≡ true
      → Steps digest s s'
      → get_order s' i ≡ ok o
  terminal_forever s s' i o h t steps = stays (Steps-Later s s' i o steps h)
    where
      stays : Later s' i o → get_order s' i ≡ ok o
      stays (o', there, inl e) = rw e there
      stays (o', there, inr p) = absurd (true_false (terminal o.state) t p.1)
        where
          true_false : (b : Bool) → b ≡ true → b ≡ false → ⊥
          true_false b p q = cc

  -- After a write no row stands at the version that was written over.
  nobody_at :
      (s : Store) (i v : ℕ) (o : Order)
      → IsOrders s
      → get_order s i ≡ ok o
      → v < o.version
      → find_by (at_version i v) s.orders ≡ none
  nobody_at s i v o q h l = elim (Option-cases (find_by (at_version i v) s.orders)) [
    | inl e ↦ e
    | inr (x, e) ↦
        let hit = find_by-true (at_version i v) s.orders x e in
        let k =
          find_by_All (at_version i v) (IsOrderOf s.orders s.next_order s.transitions) s.orders x
            q.each e in
        absurd (
          clash x o i v (ground arith) (ground arith) l
            (subst (λ n. find_by (λ (y : Order). y.id == n) s.orders ≡ some x)
              ((==_iff x.id i).0 (ground arith)) k.by_id)
            (get_order_found s i o h))
  ]
    where
      clash :
          (x o : Order) (i v : ℕ)
          → (x.id == i) ≡ true
          → (x.version == v) ≡ true
          → v < o.version
          → find_by (λ (y : Order). y.id == i) s.orders ≡ some x
          → find_by (λ (y : Order). y.id == i) s.orders ≡ some o
          → ⊥
      clash x o i v p r l a b = ground (arith, same_some x o a b)
        where
          same_some :
              (x o : Order)
              → find_by (λ (y : Order). y.id == i) s.orders ≡ some x
              → find_by (λ (y : Order). y.id == i) s.orders ≡ some o
              → x ≡ o
          same_some x o a b = cc

  write_late :
      (s : Store) (current : Order) (to_state : State) (v : ℕ) (p : TransitionParams) (e : _)
      → post_entry digest s p ≡ ok e
      → find_by (at_version current.id v) s.orders ≡ none
      → transition_write digest s current to_state v p ≡ err version_conflict
  unfolding transition_write
  write_late s current to_state v p e h n = rw (h, n) refl

  pub moved_found :
      (fast : Option Bool) (s : Store) (i : ℕ) (to_state : State) (v : ℕ) (p : TransitionParams)
      (o : Order) (s' : Store) (m : Moved digest fast s i to_state v p o s')
      → get_order s' i ≡ ok (moved to_state p.sender_address m.current)
  moved_found fast s i to_state v p o s' m =
      let hit = at_version m.current.id v in
      let there =
        find_by-update_by hit (moved to_state p.sender_address) (λ (x : Order). x.id == i) s.orders
          m.current (λ x. refl) (get_order_found s i m.current m.found) in
      found_get_order s' i (moved to_state p.sender_address m.current) (
        rw m.after (
          there
          ∙ rw
              (both (m.current.id == m.current.id) (m.current.version == v)
                ((==_iff m.current.id m.current.id).1 refl)
                ((==_iff m.current.version v).1 m.expected_version))
              refl))
    where
      both : (a b : Bool) → a ≡ true → b ≡ true → a && b ≡ true
      both a b p q = ground arith

  -- Two transitions that are both read at one version of an order, in a well-formed store and with
  -- int64 amounts in the first one's entry: once the first one has moved the order, and whatever
  -- else is committed in between, the write of the second is refused with a version conflict (its
  -- own entry being accepted), and so nothing of it is committed.
  pub second_write_refused :
      (fast fast' : Option Bool) (s s₁ s₂ : Store) (i v : ℕ) (to_state to_state' : State)
      (p p' : TransitionParams) (o current : Order) (entry_id : Option ℕ) (b : Books)
      → IsStore s
      → EntryFits p.entry
      → transition digest fast s i to_state v p ≡ ok (o, s₁)
      → o.version ≡ suc v
      → transition_read digest fast' s i to_state' v p' ≡ ok (move current)
      → Steps digest s₁ s₂
      → post_entry digest s₂ p' ≡ ok (entry_id, b)
      → transition_write digest s₂ current to_state' v p' ≡ err version_conflict
  second_write_refused fast fast' s s₁ s₂ i v to_state to_state' p p' o current entry_id b q f h
        next read steps posts =
      let (there, at_v) = read_move digest fast' s i to_state' v p' current read in
      let q₁ =
        Steps-IsStore digest s s₁ q (more s s₁ done (stepped fast i to_state v p o s₁ f h)) in
      let q₂ = Steps-IsStore digest s₁ s₂ q₁ steps in
      let (o₁, found₁, newer₁) =
        first (transition-Transitioned digest fast s i to_state v p o s₁ h) there at_v in
      let (o₂, found₂, on) = Steps-Later s₁ s₂ i o₁ steps found₁ in
      write_late s₂ current to_state' v p' (entry_id, b) posts
        (rw (id_of_order s i current there)
          (nobody_at s₂ i v o₂ q₂.orders found₂ (newer o₁ o₂ newer₁ on)))
    where
      newer : (a c : Order) → v < a.version → Onward a c → v < c.version
      newer a c l (inl e) = subst (λ (x : Order). v < x.version) e l
      newer a c l (inr k) = omega (arith, k.0)

      same_ok : (a c : Order) → ok a ≡ ok c → a ≡ c
      same_ok a c e = cc

      first :
          Transitioned digest fast s i to_state v p o s₁
          → get_order s i ≡ ok current
          → current.version ≡ v
          → (o₁ : Order) × (get_order s₁ i ≡ ok o₁) × (v < o₁.version)
      first (by_answer a) there at_v =
          let e = same_ok o current (sym a.found ∙ there) in
          absurd (stuck o.version v next (ap Order.version e ∙ at_v))
        where
          stuck : (m n : ℕ) → m ≡ suc n → m ≡ n → ⊥
          stuck m n a b = omega arith
      first (by_move m) there at_v = (
        moved to_state p.sender_address m.current,
        moved_found fast s i to_state v p o s₁ m,
        omega (arith, m.expected_version),
      )
