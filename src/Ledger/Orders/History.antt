-- ===== src/Ledger/Orders/History.antt =====
-- Sequences of committed transactions on the ledger, and what holds after any of them.
use usdt_settlement_corridor.Base.{
  ℕ, ◌≡◌, refl, sym, subst, Bool, List, inl, inr, Option, none, some, arith,
}
use usdt_settlement_corridor.Base.Text.{Text}
use usdt_settlement_corridor.Base.Table.{select}
use usdt_settlement_corridor.Ledger.Error.{ok, bind_ok}
use usdt_settlement_corridor.Ledger.Money.{Asset}
use usdt_settlement_corridor.Ledger.Database.{
  Account, AccountType, Books, SnapshotRow, State, Order, Store, empty_store,
}
use usdt_settlement_corridor.Ledger.Accounts.{create}
use usdt_settlement_corridor.Ledger.Journal.Entry.{EntryRequest, HashPayload}
use usdt_settlement_corridor.Ledger.Journal.Sums.{LinesFit}
use usdt_settlement_corridor.Ledger.Journal.Posting.{Entry, post}
use usdt_settlement_corridor.Ledger.Journal.Reversing.{reverse_entry}
use usdt_settlement_corridor.Ledger.Journal.Balances.{account_total, cached_units, asset_total}
use usdt_settlement_corridor.Ledger.Journal.Invariant.{IsBooks}
use usdt_settlement_corridor.Ledger.Journal.Opening.{create-IsBooks}
use usdt_settlement_corridor.Ledger.Journal.Outcomes.{post-IsBooks}
use usdt_settlement_corridor.Ledger.Journal.Reversal.{reverse_entry_net}
use usdt_settlement_corridor.Ledger.Halt.{reason_balance_drift, set_halt, clear_halt}
use usdt_settlement_corridor.Ledger.Recon.{
  Config, SnapshotParams, SnapshotResult, snapshot_actor, ingest_snapshot,
}
use usdt_settlement_corridor.Ledger.Recon.Drift.{ingest_snapshot_rest}
use usdt_settlement_corridor.Ledger.Orders.Create.{CreateParams, create_order}
use usdt_settlement_corridor.Ledger.Orders.Transition.{
  TransitionParams, order_known, post_entry, transition,
}
use usdt_settlement_corridor.Ledger.Orders.Outcomes.{
  Transitioned, by_move, by_answer, transition-Transitioned,
}
use usdt_settlement_corridor.Ledger.Orders.Invariant.{IsOrders, create_order-IsOrders}
use usdt_settlement_corridor.Ledger.Orders.Moves.{transition-IsOrders}

-- The amounts of an entry that comes with a transition are int64.
abbrev pub EntryFits : Option EntryRequest → Type 0
EntryFits none = Unit
EntryFits (some req) = LinesFit req.lines

pub record IsStore (s : Store) : Type 0 where
  pub books : IsBooks s.books
  pub orders : IsOrders s

module _ (digest : HashPayload → Text) where
  -- One committed transaction. HandleDepositReorg commits several of these in one, and so each theorem
  -- on their sequences speaks of it too.
  pub data Step (s : Store) : Store → Type 0 where
    opened :
        (code : Text) (t : AccountType) (asset : Asset) (a : Account) (b : Books)
        → create code t asset s.books ≡ ok (a, b)
        → Step s (record s { books = b })
    posted :
        (req : EntryRequest) (e : Entry) (b : Books)
        → LinesFit req.lines
        → post digest (order_known s) s.books req ≡ ok (e, b)
        → Step s (record s { books = b })
    reversed :
        (i : ℕ) (actor reason : Text) (at : ℕ) (e : Entry) (b : Books)
        → reverse_entry digest s.books i actor reason at ≡ ok (e, b)
        → Step s (record s { books = b })
    ordered :
        (p : CreateParams) (o : Order) (s' : Store) → create_order p s ≡ ok (o, s') → Step s s'
    stepped :
        (fast : Option Bool) (i : ℕ) (to_state : State) (expected : ℕ) (p : TransitionParams)
        (o : Order) (s' : Store)
        → EntryFits p.entry
        → transition digest fast s i to_state expected p ≡ ok (o, s')
        → Step s s'
    halted : (reason actor : Text) → Step s (set_halt reason actor s)
    cleared : (actor note : Text) (s' : Store) → clear_halt actor note s ≡ ok s' → Step s s'
    snapshotted :
        (cfg : Config) (p : SnapshotParams) (r : SnapshotResult) (s' : Store)
        → ingest_snapshot cfg p s ≡ ok (r, s')
        → Step s s'

  -- Any number of them.
  pub data Steps (s : Store) : Store → Type 0 where
    done : Steps s s
    more : (s₁ s₂ : Store) → Steps s s₁ → Step s₁ s₂ → Steps s s₂

  post_entry-IsBooks :
      (s : Store) (p : TransitionParams) (o : Option EntryRequest) (entry_id : Option ℕ) (b : Books)
      → p.entry ≡ o
      → IsBooks s.books
      → EntryFits o
      → post_entry digest s p ≡ ok (entry_id, b)
      → IsBooks b
  unfolding post_entry
  post_entry-IsBooks s p none entry_id b e v f h = subst IsBooks (ground arith) v
  post_entry-IsBooks s p (some req) entry_id b e v f h =
      let (p₁, written, made) = bind_ok (post digest (order_known s) s.books req) _ (rw e at h) in
      subst IsBooks (ground arith)
        (post-IsBooks digest (order_known s) s.books req p₁.0 p₁.1 v f written)

  pub transition-IsBooks :
      (fast : Option Bool) (s : Store) (i : ℕ) (to_state : State) (expected : ℕ)
      (p : TransitionParams) (o : Order) (s' : Store)
      → IsBooks s.books
      → EntryFits p.entry
      → transition digest fast s i to_state expected p ≡ ok (o, s')
      → IsBooks s'.books
  transition-IsBooks fast s i to_state expected p o s' v f h =
      kept (transition-Transitioned digest fast s i to_state expected p o s' h)
    where
      kept : Transitioned digest fast s i to_state expected p o s' → IsBooks s'.books
      kept (by_answer a) = rw a.same v
      kept (by_move m) =
          rw m.after (post_entry-IsBooks s p p.entry m.entry_id m.books refl v f m.posted)

  pub create_order_books :
      (p : CreateParams) (s s' : Store) (o : Order)
      → create_order p s ≡ ok (o, s')
      → s'.books ≡ s.books
  unfolding create_order
  create_order_books p s s' o h = ground arith

  pub clear_rest :
      (actor note : Text) (s s' : Store)
      → clear_halt actor note s ≡ ok s'
      → s' ≡ record s { system = s'.system; halt_log = s'.halt_log }
  unfolding clear_halt
  clear_rest actor note s s' h = ground arith

  halted_store : (s : Store) (reason actor : Text) → IsStore s → IsStore (set_halt reason actor s)
  unfolding set_halt
  halted_store s reason actor v = record {
    books = v.books;
    orders = record { each = v.orders.each; logged = v.orders.logged };
  }

  snapshotted_store :
      (s : Store) (xs : List SnapshotRow) → IsStore s → IsStore (record s { snapshots = xs })
  snapshotted_store s xs v = record {
    books = v.books;
    orders = record { each = v.orders.each; logged = v.orders.logged };
  }

  Step-IsStore : (s s' : Store) → IsStore s → Step s s' → IsStore s'
  Step-IsStore s s' v (opened code t asset a b h) = record {
    books = create-IsBooks code t asset s.books b a v.books h;
    orders = record { each = v.orders.each; logged = v.orders.logged };
  }
  Step-IsStore s s' v (posted req e b f h) = record {
    books = post-IsBooks digest (order_known s) s.books req e b v.books f h;
    orders = record { each = v.orders.each; logged = v.orders.logged };
  }
  Step-IsStore s s' v (reversed i actor reason at e b h) = record {
    books = (reverse_entry_net digest s.books i actor reason at e b v.books h).0;
    orders = record { each = v.orders.each; logged = v.orders.logged };
  }
  Step-IsStore s s' v (ordered p o s'' h) = record {
    books = rw (create_order_books p s s' o h) v.books;
    orders = create_order-IsOrders p s s' o v.orders h;
  }
  Step-IsStore s s' v (stepped fast i to_state expected p o s'' f h) = record {
    books = transition-IsBooks fast s i to_state expected p o s' v.books f h;
    orders = transition-IsOrders digest fast s i to_state expected p o s' v.orders h;
  }
  Step-IsStore s s' v (halted reason actor) = halted_store s reason actor v
  Step-IsStore s s' v (cleared actor note s'' h) = rw (clear_rest actor note s s' h) (record {
    books = v.books;
    orders = record { each = v.orders.each; logged = v.orders.logged };
  })
  Step-IsStore s s' v (snapshotted cfg p r s'' h) =
      let (xs, made) = ingest_snapshot_rest cfg p s r s' h in
      let kept = snapshotted_store s xs v in
      elim made [
        | inl e ↦ subst IsStore (sym e) kept
        | inr e ↦
            subst IsStore (sym e)
              (halted_store (record s { snapshots = xs }) reason_balance_drift snapshot_actor kept)
      ]

  pub Steps-IsStore : (s s' : Store) → IsStore s → Steps s s' → IsStore s'
  Steps-IsStore s s' v done = v
  Steps-IsStore s s' v (more s₁ s₂ before last) =
      Step-IsStore s₁ s' (Steps-IsStore s s₁ v before) last

  -- Whatever transactions are committed on an empty ledger, their requests carrying int64 amounts,
  -- the books stay well formed, with every cached balance equal to the sum of its lines and every
  -- entry summing to zero in every asset, and every order has come from quoted to its state along
  -- legal pairs that follow one another in the log, one for each version.
  pub Steps-empty_store : (s : Store) → Steps empty_store s → IsBooks s.books × IsOrders s
  unfolding account_total cached_units asset_total select
  Steps-empty_store s h =
      let v =
        Steps-IsStore empty_store s
          (record {
            books = record {
              chart = tt;
              entries = tt;
              lines = tt;
              cache = λ j. refl;
              entry_closed = λ e a. refl;
              closed = λ a. refl;
            };
            orders = record { each = tt; logged = tt };
          })
          h in
      (v.books, v.orders)
