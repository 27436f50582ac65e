-- ===== src/Ledger/Orders/Outcomes.antt =====
-- How Transition succeeds (ledger/internal/orders/store.go): a move along the table, or the answer
-- to a request that was carried out before.
use usdt_settlement_corridor.Base.{
  ℕ, suc, ◌^◌, ◌≡◌, refl, sym, subst, ◌∙◌, Bool, true, ◌&&◌, not, [], ◌∷◌, ◌++◌, Option, none, some,
  arith, ltb, ◌==◌, Option-cases, Bool-cases, inl, inr,
}
use usdt_settlement_corridor.Base.Text.{Text, text_eq}
use usdt_settlement_corridor.Base.Table.{find_by, update_by}
use usdt_settlement_corridor.Ledger.Error.{
  Result, ok, bind_ok, fail_if_ok, ◌>>◌, fail_if, or_fail, invalid_params,
}
use usdt_settlement_corridor.Ledger.Database.{State, funded, Order, EntryRow, Books, Store}
use usdt_settlement_corridor.Ledger.Journal.Entry.{EntryRequest, HashPayload}
use usdt_settlement_corridor.Ledger.Journal.Posting.{Entry, get_entry_by_idempotency_key, post}
use usdt_settlement_corridor.Ledger.Journal.Outcomes.{Posted, wrote, found, post-Posted}
use usdt_settlement_corridor.Ledger.Orders.Machine.{state_valid, state_eq, Rule, transition_table}
use usdt_settlement_corridor.Ledger.Orders.Create.{get_order}
use usdt_settlement_corridor.Ledger.Orders.Transition.{
  TransitionParams, validate_transition, halt_gate, entry_gate, Plan, move, again, given,
  replay_if_already_posted, replayed_plan, illegal, move_row, moved, at_version, order_known,
  entry_exists, transition_read, post_entry, transition_write, carry_out, transition,
}

pub or_fail_ok {ℓ} : {A : Type ℓ} (o : Option A) (e : _) (a : A) → or_fail o e ≡ ok a → o ≡ some a
or_fail_ok none e a h = cc
or_fail_ok (some x) e a h = cc

none_given : (b : Books) (r : Result (Option Books)) → r ≡ ok none → r ≡ ok (some b) → ⊥
none_given b r e h = cc

module _ (digest : HashPayload → Text) where
  -- A move: the pair is legal and its rule is kept, the order stood at the expected version, and
  -- the new store has the entry's books, the moved order and one more row in the log.
  pub record Moved (fast : Option Bool) (s : Store) (i : ℕ) (to_state : State) (expected : ℕ)
      (p : TransitionParams) (o : Order) (s' : Store) : Type 0 where
    pub current : Order
    pub rule : Rule
    pub row : Order
    pub entry_id : Option ℕ
    pub books : Books
    pub found : get_order s i ≡ ok current
    pub expected_version : current.version ≡ expected
    pub legal : transition_table current.state to_state ≡ some rule
    pub not_halted : halt_gate rule fast s ≡ ok tt
    pub entry_ruled : entry_gate rule p ≡ ok tt
    pub posted : post_entry digest s p ≡ ok (entry_id, books)
    pub row_found : find_by (at_version current.id expected) s.orders ≡ some row
    pub result : o ≡ moved to_state p.sender_address row
    pub after : s' ≡ record s {
      books = books;
      orders =
          update_by (at_version current.id expected) (moved to_state p.sender_address) s.orders;
      transitions = s.transitions ++ (move_row current to_state entry_id p ∷ []);
    }

  -- An answer: nothing changes, and the order already stands where the request wants it.
  pub record Answered (s : Store) (i : ℕ) (to_state : State) (o : Order) (s' : Store) : Type 0 where
    pub found : get_order s i ≡ ok o
    pub there : state_eq to_state o.state ≡ true
    pub same : s' ≡ s

  write_inv :
      (s : Store) (current : Order) (to_state : State) (expected : ℕ) (p : TransitionParams)
      (o : Order) (s' : Store)
      → transition_write digest s current to_state expected p ≡ ok (o, s')
      → (entry_id : Option ℕ) × (books : Books) × (row : Order) × (post_entry digest s p
          ≡ ok (entry_id, books))
        × (find_by (at_version current.id expected) s.orders ≡ some row)
        × (o ≡ moved to_state p.sender_address row)
        × (s' ≡ record s {
          books = books;
          orders =
              update_by (at_version current.id expected) (moved to_state p.sender_address) s.orders;
          transitions = s.transitions ++ (move_row current to_state entry_id p ∷ []);
        })
  unfolding transition_write
  write_inv s current to_state expected p o s' h =
      let (posted, done, h₁) = bind_ok (post_entry digest s p) _ h in
      let (row, there, h₂) =
        bind_ok (or_fail (find_by (at_version current.id expected) s.orders) _) _ h₁ in
      let (_, h₃) = fail_if_ok (not (ltb (suc row.version) (2 ^ 31))) _ _ h₂ in
      let (_, h₄) = fail_if_ok (not (entry_exists posted.1 posted.0)) _ _ h₃ in
      (posted.0, posted.1, row, done, or_fail_ok _ _ _ there, ground arith, ground arith)

  replay_inv :
      (s : Store) (req : EntryRequest) (b : Books)
      → replay_if_already_posted digest s req ≡ ok (some b)
      → b ≡ s.books
  unfolding replay_if_already_posted get_entry_by_idempotency_key
  replay_inv s req b h =
      elim (Option-cases
        (find_by (λ x. text_eq x.idempotency_key req.idempotency_key) s.books.entries)) [
          | inl free ↦ absurd (
              none_given b (ok none) refl
                (rw (free, replay_if_already_posted, get_entry_by_idempotency_key) at h))
          | inr (existing, there) ↦
              let (posted, done, h₁) =
                bind_ok (post digest (order_known s) s.books req) _
                  (rw (there, replay_if_already_posted, get_entry_by_idempotency_key) at h) in
              kept existing there posted (ground arith)
                (post-Posted digest (order_known s) s.books req posted.0 posted.1 done)
        ]
    where
      kept :
          (existing : EntryRow)
          → find_by (λ x. text_eq x.idempotency_key req.idempotency_key) s.books.entries
            ≡ some existing
          → (posted : Entry × Books) → posted.1 ≡ b
          → Posted digest (order_known s) s.books req posted.0 posted.1
          → b ≡ s.books
      kept existing there posted same (wrote rs valid free known made after) = ground arith
      kept existing there posted same (found rs row valid here hash made after) = sym same ∙ after

  illegal_inv :
      (s : Store) (current : Order) (to_state : State) (r : Option EntryRequest) (plan : Plan)
      → illegal digest s current to_state r ≡ ok plan
      → (state_eq to_state current.state ≡ true) × (plan ≡ again current s.books)
  illegal_inv s current to_state none plan h = cc
  illegal_inv s current to_state (some req) plan h =
      elim (Bool-cases (state_eq to_state current.state)) [
        | inr f ↦ ground arith
        | inl t ↦
            let (answer, done, h₁) =
              bind_ok (replay_if_already_posted digest s req) _ (rw t at h) in
            (t, answered answer done h₁)
      ]
    where
      answered :
          (answer : Option Books)
          → replay_if_already_posted digest s req ≡ ok answer
          → replayed_plan digest current answer ≡ ok plan
          → plan ≡ again current s.books
      answered none done h₁ = cc
      answered (some b) done h₁ = rw (sym (replay_inv s req b done)) (ground arith)

  -- The two ways in which a transition succeeds.
  pub data Transitioned (fast : Option Bool) (s : Store) (i : ℕ) (to_state : State) (expected : ℕ)
      (p : TransitionParams) (o : Order) (s' : Store) : Type 0 where
    by_move :
        Moved fast s i to_state expected p o s' → Transitioned fast s i to_state expected p o s'
    by_answer : Answered s i to_state o s' → Transitioned fast s i to_state expected p o s'

  -- The reading half with the errors before the table taken off.
  abbrev judge : Option Bool → Store → Order → State → TransitionParams → Option Rule → Result Plan
  judge fast s current to_state p none = illegal digest s current to_state p.entry
  judge fast s current to_state p (some r) = do
    halt_gate r fast s
    entry_gate r p
    fail_if (given p.sender_address && not (state_eq to_state funded)) invalid_params
    ok (move current)

  pub read_inv :
      (fast : Option Bool) (s : Store) (i : ℕ) (to_state : State) (expected : ℕ)
      (p : TransitionParams) (plan : Plan)
      → transition_read digest fast s i to_state expected p ≡ ok plan
      → (current : Order) × (get_order s i ≡ ok current)
        × (current.version ≡ expected)
        × (judge fast s current to_state p (transition_table current.state to_state) ≡ ok plan)
  unfolding transition_read
  read_inv fast s i to_state expected p plan h =
      let (_, h₁) = fail_if_ok (not (state_valid to_state)) _ _ h in
      let (_, _, h₂) = bind_ok (validate_transition p) _ h₁ in
      let (current, there, h₃) = bind_ok (get_order s i) _ h₂ in
      let (same, h₄) = fail_if_ok (not (current.version == expected)) _ _ h₃ in
      (current, there, ground arith, judged current h₄)
    where
      judged :
          (current : Order)
          → (elim (transition_table current.state to_state) [
            | none ↦ illegal digest s current to_state p.entry
            | some r ↦ do
              halt_gate r fast s
              entry_gate r p
              fail_if (given p.sender_address && not (state_eq to_state funded)) invalid_params
              ok (move current)
          ])
            ≡ ok plan
          → judge fast s current to_state p (transition_table current.state to_state) ≡ ok plan
      judged current h = elim (Option-cases (transition_table current.state to_state)) [
        | inl e ↦ rw e (rw e at h)
        | inr (r, e) ↦ rw e (rw e at h)
      ]

  ruled :
      (fast : Option Bool) (s : Store) (current : Order) (to_state : State) (p : TransitionParams)
      (r : Rule) (plan : Plan)
      → judge fast s current to_state p (some r) ≡ ok plan
      → (halt_gate r fast s ≡ ok tt) × (entry_gate r p ≡ ok tt) × (plan ≡ move current)
  ruled fast s current to_state p r plan h =
      let (_, open_, h₁) = bind_ok (halt_gate r fast s) _ h in
      let (_, entry, h₂) = bind_ok (entry_gate r p) _ h₁ in
      let (_, h₃) = fail_if_ok (given p.sender_address && not (state_eq to_state funded)) _ _ h₂ in
      (open_, entry, ground arith)

  judged_inv :
      (fast : Option Bool) (s : Store) (i : ℕ) (to_state : State) (expected : ℕ)
      (p : TransitionParams) (plan : Plan) (o : Order) (s' : Store) (current : Order)
      → get_order s i ≡ ok current
      → current.version ≡ expected
      → judge fast s current to_state p (transition_table current.state to_state) ≡ ok plan
      → carry_out digest s to_state expected p plan ≡ ok (o, s')
      → Transitioned fast s i to_state expected p o s'
  judged_inv fast s i to_state expected p plan o s' current there same h carried =
      elim (Option-cases (transition_table current.state to_state)) [
        | inl e ↦
            let (at, answer) = illegal_inv s current to_state p.entry plan (rw e at h) in
            let carried' =
              subst (λ t. carry_out digest s to_state expected p t ≡ ok (o, s')) answer carried in
            by_answer
              (record { found = there ∙ ground arith; there = ground arith; same = ground arith })
        | inr (r, e) ↦
            let (not_halted, ruled_, moving) = ruled fast s current to_state p r plan (rw e at h) in
            let (entry_id, books, row, posted, row_found, result, after) =
              write_inv s current to_state expected p o s' (
                subst (λ t. carry_out digest s to_state expected p t ≡ ok (o, s')) moving
                  carried) in
            by_move (record {
              current = current;
              rule = r;
              row = row;
              entry_id = entry_id;
              books = books;
              found = there;
              expected_version = same;
              legal = e;
              not_halted = not_halted;
              entry_ruled = ruled_;
              posted = posted;
              row_found = row_found;
              result = result;
              after = after;
            })
      ]

  pub transition-Transitioned :
      (fast : Option Bool) (s : Store) (i : ℕ) (to_state : State) (expected : ℕ)
      (p : TransitionParams) (o : Order) (s' : Store)
      → transition digest fast s i to_state expected p ≡ ok (o, s')
      → Transitioned fast s i to_state expected p o s'
  unfolding transition
  transition-Transitioned fast s i to_state expected p o s' h =
      let (plan, read, carried) =
        bind_ok (transition_read digest fast s i to_state expected p) _ h in
      let (current, there, same, judged) = read_inv fast s i to_state expected p plan read in
      judged_inv fast s i to_state expected p plan o s' current there same judged carried

  same_plan : (c d : Order) → ok (move c) ≡ ok (move d) → c ≡ d
  same_plan c d h = cc

  never_again : (c d : Order) (b : Books) → move c ≡ again d b → ⊥
  never_again c d b h = cc

  -- The order of a move that is planned is the one that was asked for, at the expected version.
  pub read_move :
      (fast : Option Bool) (s : Store) (i : ℕ) (to_state : State) (expected : ℕ)
      (p : TransitionParams) (c : Order)
      → transition_read digest fast s i to_state expected p ≡ ok (move c)
      → (get_order s i ≡ ok c) × (c.version ≡ expected)
  read_move fast s i to_state expected p c h =
      let (current, there, same, judged) = read_inv fast s i to_state expected p (move c) h in
      elim (Option-cases (transition_table current.state to_state)) [
        | inl e ↦ absurd (
            never_again c current s.books
              ((illegal_inv s current to_state p.entry (move c) (rw e at judged)).1))
        | inr (r, e) ↦
            let is_c = planned current r (rw e at judged) in
            (
              subst (λ x. get_order s i ≡ ok x) is_c there,
              subst (λ (x : Order). x.version ≡ expected) is_c same,
            )
      ]
    where
      planned :
          (current : Order) (r : Rule)
          → judge fast s current to_state p (some r) ≡ ok (move c)
          → current ≡ c
      planned current r h = same_move current ((ruled fast s current to_state p r (move c) h).2)
        where
          same_move : (current : Order) → move c ≡ move current → current ≡ c
          same_move current e = cc
