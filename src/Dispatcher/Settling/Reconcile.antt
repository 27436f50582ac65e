-- ===== src/Dispatcher/Settling/Reconcile.antt =====
-- The scan for failed payouts reports and closes only orders whose latest attempt has failed.
use usdt_settlement_corridor.Base.{
  ℕ, suc, ◌≡◌, refl, sym, ap, subst, ◌∙◌, Bool, true, false, [], ◌∷◌, ◌++◌, Option, none, some,
  arith, length, length-append, List, Bool-cases, Option-cases, inl, inr, ◌⊎◌, All, All-append,
}
use usdt_settlement_corridor.Dispatcher.Answer.{Failure, Answer, failed, done, ledger}
use usdt_settlement_corridor.Dispatcher.Attempts.{
  is_failed, BroadcastAttempt, AttemptTable, latest_for_order,
}
use usdt_settlement_corridor.Dispatcher.States.{
  DispatchAttempt, States, mark_held, list_dispatching,
}
use usdt_settlement_corridor.Dispatcher.States.Closing.{Closed, Closed-refl, mark_held-Closed}
use usdt_settlement_corridor.Dispatcher.Settling.{
  Desk, Reports, Scan, note_held, report_one, reconcile_one, reconcile_all,
  reconcile_failed_dispatches,
}

-- An order whose latest attempt has failed.
abbrev pub HasFailed : AttemptTable → ℕ → Type 0
HasFailed t order =
    (latest : BroadcastAttempt) × (latest_for_order order t ≡ done latest)
    × (is_failed latest.status ≡ true)

-- An order that is given up: its latest attempt has failed, the ledger said that it is dispatching, and
-- the ledger has taken the report of a row of it.
pub record GivenUp (r : Reports) (t : AttemptTable) (order : ℕ) : Type 0 where
  pub failed_latest : HasFailed t order
  pub local : DispatchAttempt
  pub of_it : local.order_id ≡ order
  pub dispatching : r.is_dispatching local.external_id ≡ some true
  pub taken : r.report_failure local.external_id local.conversion_entry_key ≡ true

abbrev pub ToReport : Reports → AttemptTable → DispatchAttempt → Type 0
ToReport r t local = HasFailed t local.order_id × (r.is_dispatching local.external_id ≡ some true)

abbrev pub is_some {ℓ} : {A : Type ℓ} → Option A → Bool
is_some none = false
is_some (some a) = true

-- The scan so far, from a desk with attempts `t` and states `before`.
pub record Scanned (r : Reports) (t : AttemptTable) (before : States) (s : Scan) : Type 0 where
  pub attempts : s.desk.attempts ≡ t
  pub reported : All (ToReport r t) s.reported
  pub rows : Closed (GivenUp r t) before s.desk.states
  pub count :
      (length s.reported ≡ s.closed)
      ⊎ ((length s.reported ≡ suc s.closed) × (is_some s.stopped ≡ true))

length-last :
    (xs : List DispatchAttempt) (x : DispatchAttempt) → length (xs ++ (x ∷ [])) ≡ suc (length xs)
length-last xs x = omega (arith, length-append xs (x ∷ []))

module _ (r : Reports) (t : AttemptTable) (before : States) where
  note_held-Scanned :
      (local : DispatchAttempt) (m : Answer (Unit {0}) × States) (s : Scan)
      → s.stopped ≡ none
      → length s.reported ≡ s.closed
      → Scanned r t before s
      → ToReport r t local
      → Closed (GivenUp r t) before m.1
      → Scanned r t before (note_held m (record s { reported = s.reported ++ (local ∷ []) }))
  unfolding note_held
  note_held-Scanned local (failed f, states) s go n v h c = record {
    attempts = v.attempts;
    reported = All-append (ToReport r t) s.reported (local ∷ []) v.reported (h, tt);
    rows = c;
    count = inr (length-last s.reported local ∙ ap suc n, refl);
  }
  note_held-Scanned local (done u, states) s go n v h c = record {
    attempts = v.attempts;
    reported = All-append (ToReport r t) s.reported (local ∷ []) v.reported (h, tt);
    rows = c;
    count = inl (length-last s.reported local ∙ ap suc n);
  }

  report_one-Scanned :
      (local : DispatchAttempt) (o : Option Bool) (s : Scan)
      → r.is_dispatching local.external_id ≡ o
      → s.stopped ≡ none
      → length s.reported ≡ s.closed
      → Scanned r t before s
      → HasFailed t local.order_id
      → Scanned r t before (report_one r local o s)
  unfolding report_one
  report_one-Scanned local none s e go n v f = record {
    attempts = v.attempts;
    reported = v.reported;
    rows = v.rows;
    count = inl n;
  }
  report_one-Scanned local (some false) s e go n v f = v
  report_one-Scanned local (some true) s e go n v f =
      elim (Bool-cases (r.report_failure local.external_id local.conversion_entry_key)) [
        | inr untaken ↦ subst (Scanned r t before) (ground arith) stop
        | inl took ↦ subst (Scanned r t before) (ground arith) (
            note_held-Scanned local (mark_held local.order_id s.desk.states) s go n v (f, e)
              (mark_held-Closed (GivenUp r t) local.order_id before s.desk.states
                (record {
                  failed_latest = f;
                  local = local;
                  of_it = refl;
                  dispatching = e;
                  taken = took;
                })
                v.rows))
      ]
    where
      stop :
          Scanned r t before
            (record s { reported = s.reported ++ (local ∷ []); stopped = some ledger })
      stop = record {
        attempts = v.attempts;
        reported = All-append (ToReport r t) s.reported (local ∷ []) v.reported ((f, e), tt);
        rows = v.rows;
        count = inr (length-last s.reported local ∙ ap suc n, refl);
      }

  reconcile_one-Scanned :
      (local : DispatchAttempt) (s : Scan)
      → s.stopped ≡ none
      → Scanned r t before s
      → Scanned r t before (reconcile_one r local s)
  unfolding reconcile_one
  reconcile_one-Scanned local s go v =
      of_latest (latest_for_order local.order_id s.desk.attempts) refl
    where
      counted :
          (length s.reported ≡ s.closed)
            ⊎ ((length s.reported ≡ suc s.closed) × (is_some s.stopped ≡ true))
          → length s.reported ≡ s.closed
      counted (inl e) = e
      counted (inr (e, some_)) = absurd (running s.stopped go some_)
        where
          running : (o : Option Failure) → o ≡ none → is_some o ≡ true → ⊥
          running none e h = cc
          running (some f) e h = cc

      of_latest :
          (a : Answer BroadcastAttempt)
          → latest_for_order local.order_id s.desk.attempts ≡ a
          → Scanned r t before (reconcile_one r local s)
      of_latest (failed f) e = subst (Scanned r t before) (ground arith) v
      of_latest (done latest) e = elim (Bool-cases (is_failed latest.status)) [
        | inr n ↦ subst (Scanned r t before) (ground arith) v
        | inl y ↦ subst (Scanned r t before) (ground arith) (
            report_one-Scanned local (r.is_dispatching local.external_id) s refl go
              (counted v.count) v
              (latest, ap (latest_for_order local.order_id) (sym v.attempts) ∙ e, y))
      ]

  reconcile_all-Scanned :
      (states : States) (s : Scan)
      → Scanned r t before s
      → Scanned r t before (reconcile_all r states s)
  unfolding reconcile_all
  reconcile_all-Scanned [] s v = v
  reconcile_all-Scanned (local ∷ rest) s v = elim (Option-cases s.stopped) [
    | inr (f, e) ↦ subst (Scanned r t before) (ground arith) v
    | inl e ↦
        subst (Scanned r t before) (ground arith)
          (reconcile_all-Scanned rest (reconcile_one r local s) (reconcile_one-Scanned local s e v))
  ]

-- ReconcileFailedDispatches, also where an error ends it early: it leaves the attempts as they are; each
-- order that it reports to the ledger has a latest attempt that is FAILED and was dispatching there;
-- each row of dispatch_state is as it was, or was DISPATCHING and is HELD now, and then its order is one
-- whose report the ledger has taken; and the count that it returns is the number of reports, or
-- one less, and then it has ended with an error.
pub reconcile_closed_failed :
    (r : Reports) (d : Desk) → Scanned r d.attempts d.states (reconcile_failed_dispatches r d)
unfolding reconcile_failed_dispatches
reconcile_closed_failed r d =
    reconcile_all-Scanned r d.attempts d.states (list_dispatching d.states)
      (record { closed = 0; reported = []; stopped = none; desk = d })
      (record {
        attempts = refl;
        reported = tt;
        rows = Closed-refl (GivenUp r d.attempts) d.states;
        count = inl refl;
      })
