-- ===== src/Dispatcher/Settling/Finality.antt =====
-- ConfirmFinality: when it says that an attempt is confirmed, it is, for good.
use usdt_settlement_corridor.Base.{
  ℕ, ◌≡◌, refl, subst, Bool, true, false, ◌&&◌, List, Option, none, some, arith, if◌then◌else◌,
  Bool-cases, Option-cases, inl, inr,
}
use usdt_settlement_corridor.Base.Text.{Text}
use usdt_settlement_corridor.Base.Table.{update_by}
use usdt_settlement_corridor.Dispatcher.Answer.{
  Failure, Answer, failed, done, finality_stale, not_allowed, ledger,
}
use usdt_settlement_corridor.Dispatcher.Attempts.{
  confirmed, is_broadcast, is_confirmed, BroadcastAttempt, AttemptTable, has_id, get,
  mark_confirmed,
}
use usdt_settlement_corridor.Dispatcher.States.{settled, States, mark_settled}
use usdt_settlement_corridor.Dispatcher.States.Marks.{Marked, mark_status-Marked}
use usdt_settlement_corridor.Dispatcher.Entering.{LedgerOrder, LedgerAnswer}
use usdt_settlement_corridor.Dispatcher.Entering.Retries.{Ends, transition_loop_accepted}
use usdt_settlement_corridor.Dispatcher.Settling.{
  Desk, settle_order, FinalityCheck, Confirmation, is_stale_attempt, after_confirm, after_mark,
  after_settlement, with_txid, of_attempt, confirm_finality,
}
use usdt_settlement_corridor.Dispatcher.Settling.Found.{returning_found}

abbrev ends : Bool → BroadcastAttempt → Desk → Confirmation × Desk
ends final b d = (some (done (final, b)), d)

ends_attempt : (b c : BroadcastAttempt) (d e : Desk) → ends true b d ≡ ends true c e → b ≡ c
ends_attempt b c d e h = cc

ends_desk : (b c : BroadcastAttempt) (d e : Desk) → ends true b d ≡ ends true c e → d ≡ e
ends_desk b c d e h = cc

abbrev waits : Bool → BroadcastAttempt → Desk → Confirmation × Desk
waits stale a d = (some (if stale then failed finality_stale else done (false, a)), d)

waiting :
    (a : BroadcastAttempt) (d : Desk) (b : BroadcastAttempt) (d' : Desk) (stale : Bool)
    → waits stale a d ≡ ends true b d'
    → ⊥
waiting a d b d' true h = cc
waiting a d b d' false h = cc

abbrev fails : Failure → Desk → Confirmation × Desk
fails f d = (some (failed f), d)

confirmed_stays :
    (w : FinalityCheck) (o : LedgerOrder) (i : ℕ) (d : Desk) (b : BroadcastAttempt)
    → get i d.attempts ≡ done b
    → is_confirmed b.status ≡ true
    → confirm_finality w o i d ≡ ends true b d
unfolding confirm_finality of_attempt
confirmed_stays w o i d b e c = ground arith

-- How ConfirmFinality comes to say that attempt `i` is confirmed.
pub data Confirms (w : FinalityCheck) (o : LedgerOrder) (i : ℕ) (d : Desk)
    : BroadcastAttempt → Desk → Type 0 where
  -- It was confirmed before; the ledger is not called and nothing changes.
  already :
      (b : BroadcastAttempt)
      → get i d.attempts ≡ done b
      → is_confirmed b.status ≡ true
      → Confirms w o i d b d
  -- Its transaction is final, the ledger has accepted the settlement, and the order is marked SETTLED.
  settled_now :
      (a : BroadcastAttempt) (txid : Text) (states : States) (t : AttemptTable)
      → get i d.attempts ≡ done a
      → is_broadcast a.status ≡ true
      → a.tron_txid ≡ some txid
      → w.is_final txid ≡ some true
      → w.account_there ≡ true
      → Ends w.answers
      → Marked o.id settled d.states states
      → get i t ≡ done (record a { status = confirmed })
      → Confirms w o i d
          (record a { status = confirmed })
          (record d { states = states; attempts = t })

settle_order_done :
    (account_there : Bool) (answers : List LedgerAnswer) (o : LedgerOrder)
    → settle_order account_there answers o ≡ some (done tt)
    → (account_there ≡ true) × Ends answers
unfolding settle_order
settle_order_done false answers o h = absurd (never h)
  where
    never : ◌≡◌ {A = Option (Answer (Unit {0}))} (some (failed ledger)) (some (done tt)) → ⊥
    never e = cc
settle_order_done true answers o h = (refl, transition_loop_accepted answers o.version false h)

mark_settled-Marked :
    (i : ℕ) (before after : States)
    → mark_settled i before ≡ (done tt, after)
    → Marked i settled before after
unfolding mark_settled
mark_settled-Marked i before after h = mark_status-Marked i settled before after refl h

module _ (w : FinalityCheck) (o : LedgerOrder) (i : ℕ) (d : Desk) where
  after_mark-Confirms :
      (a : BroadcastAttempt) (txid : Text) (m : Answer (Unit {0}) × States) (b : BroadcastAttempt)
      (d' : Desk)
      → get i d.attempts ≡ done a
      → is_broadcast a.status ≡ true
      → a.tron_txid ≡ some txid
      → w.is_final txid ≡ some true
      → settle_order w.account_there w.answers o ≡ some (done tt)
      → mark_settled o.id d.states ≡ m
      → after_mark i m d ≡ ends true b d'
      → Confirms w o i d b d'
  unfolding after_mark after_confirm mark_confirmed
  after_mark-Confirms a txid (failed g, states) b d' e s x f r m h = cc
  after_mark-Confirms a txid (done tt, states) b d' e s x f r m h =
      let (ran, after) =
        returning_found (λ x. is_broadcast x.status) (λ x. record x { status = confirmed }) i
          d.attempts a (λ x. refl) e s in
      let t : AttemptTable = record d.attempts {
        rows =
            update_by (λ x. has_id i x && is_broadcast x.status)
              (λ x. record x { status = confirmed }) d.attempts.rows;
      } in
      let there : ends true (record a { status = confirmed })
            (record d { states = states; attempts = t })
          ≡ ends true b d' =
        rw ran at h in
      subst (λ y. Confirms w o i d b y) (ends_desk _ _ _ _ there)
        (subst (λ y. Confirms w o i d y (record d { states = states; attempts = t }))
          (ends_attempt _ _ _ _ there)
          (settled_now a txid states t e s x f (settle_order_done w.account_there w.answers o r).0
            (settle_order_done w.account_there w.answers o r).1
            (mark_settled-Marked o.id d.states states m) after))

  after_settlement-Confirms :
      (a : BroadcastAttempt) (txid : Text) (r : Option (Answer (Unit {0}))) (b : BroadcastAttempt)
      (d' : Desk)
      → get i d.attempts ≡ done a
      → is_broadcast a.status ≡ true
      → a.tron_txid ≡ some txid
      → w.is_final txid ≡ some true
      → settle_order w.account_there w.answers o ≡ r
      → after_settlement o.id i r d ≡ ends true b d'
      → Confirms w o i d b d'
  unfolding after_settlement
  after_settlement-Confirms a txid none b d' e s x f r h = cc
  after_settlement-Confirms a txid (some (failed g)) b d' e s x f r h = cc
  after_settlement-Confirms a txid (some (done tt)) b d' e s x f r h =
      after_mark-Confirms a txid (mark_settled o.id d.states) b d' e s x f r refl h

  with_txid-Confirms :
      (a : BroadcastAttempt) (txid : Text) (n : Option Bool) (b : BroadcastAttempt) (d' : Desk)
      → get i d.attempts ≡ done a
      → is_broadcast a.status ≡ true
      → a.tron_txid ≡ some txid
      → w.is_final txid ≡ n
      → with_txid w o i a n d ≡ ends true b d'
      → Confirms w o i d b d'
  unfolding with_txid
  with_txid-Confirms a txid none b d' e s x f h = cc
  with_txid-Confirms a txid (some false) b d' e s x f h =
      absurd (waiting a d b d' (is_stale_attempt w a) h)
  with_txid-Confirms a txid (some true) b d' e s x f h =
      after_settlement-Confirms a txid (settle_order w.account_there w.answers o) b d' e s x f refl
        h

  -- Whenever ConfirmFinality says that an attempt is confirmed, then either it was before, and nothing
  -- has changed; or its transaction is final, the ledger has accepted the settlement, all its answers
  -- before having been halts or conflicts, the order has a SETTLED row and none that is DISPATCHING,
  -- the rows of other orders are as they were, and the attempt is CONFIRMED in the table.
  pub confirm_finality-Confirms :
      (b : BroadcastAttempt) (d' : Desk)
      → confirm_finality w o i d ≡ (some (done (true, b)), d')
      → Confirms w o i d b d'
  unfolding confirm_finality of_attempt
  confirm_finality-Confirms b d' h = by_get (get i d.attempts) refl
    where
      gone : (f : Failure) → fails f d ≡ ends true b d' → ⊥
      gone f g = cc

      by_get : (r : Answer BroadcastAttempt) → get i d.attempts ≡ r → Confirms w o i d b d'
      by_get (failed f) e = absurd (gone f (ground arith))
      by_get (done a) e = elim (Bool-cases (is_confirmed a.status)) [
        | inl c ↦
            let there : ends true a d ≡ ends true b d' = ground arith in
            subst (λ y. Confirms w o i d b y) (ends_desk a b d d' there)
              (subst (λ y. Confirms w o i d y d) (ends_attempt a b d d' there) (already a e c))
        | inr u ↦ elim (Bool-cases (is_broadcast a.status)) [
          | inr n ↦ absurd (gone not_allowed (ground arith))
          | inl s ↦ elim (Option-cases a.tron_txid) [
            | inl n ↦ absurd (gone not_allowed (ground arith))
            | inr (txid, x) ↦
                with_txid-Confirms a txid (w.is_final txid) b d' e s x refl (ground arith)
          ]
        ]
      ]

-- ConfirmFinality again, at any later time and whatever the chain and the ledger then say: the attempt
-- is confirmed, the ledger is not called, and nothing changes.
pub confirm_finality_again :
    (w w' : FinalityCheck) (o o' : LedgerOrder) (i : ℕ) (d d' : Desk) (b : BroadcastAttempt)
    → confirm_finality w o i d ≡ (some (done (true, b)), d')
    → confirm_finality w' o' i d' ≡ (some (done (true, b)), d')
confirm_finality_again w w' o o' i d d' b h = again b d' (confirm_finality-Confirms w o i d b d' h)
  where
    again :
        (c : BroadcastAttempt) (e : Desk)
        → Confirms w o i d c e
        → confirm_finality w' o' i e ≡ (some (done (true, c)), e)
    again c e (already c' g k) = confirmed_stays w' o' i d c g k
    again c e (settled_now a txid states t g s x f there r m k) =
        confirmed_stays w' o' i (record d { states = states; attempts = t })
          (record a { status = confirmed }) k refl
