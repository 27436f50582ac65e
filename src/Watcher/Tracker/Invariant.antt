-- ===== src/Watcher/Tracker/Invariant.antt =====
-- What holds of the tracker through any calls of OnLogObserved and CheckFinality.
use usdt_settlement_corridor.Base.{
  ℕ, ◌+◌, ◌≤◌, ◌≡◌, sym, ap, subst, Bool, true, false, ◌&&◌, ◌||◌, List, [], ◌∷◌, ◌++◌, none, some,
  arith, Bool-cases, Option-cases, inl, inr, leb,
}
use usdt_settlement_corridor.Base.Table.{exists_by}
use usdt_settlement_corridor.Base.Count.{
  count_by, count_by-last, count_by-select, count_by_le, exists_by-count_by,
}
use usdt_settlement_corridor.Watcher.Classify.{Classification, is_zero_value}
use usdt_settlement_corridor.Watcher.Tracker.{
  Key, same_key, ObservedLog, Candidate, detected, Tracker, new_tracker, Outside, Config, has_key,
  on_log_observed, check_stale_pending, check_post_final_reorgs, check_finality,
  deposit_final_idempotency_key,
}
use usdt_settlement_corridor.Watcher.Tracker.Counts.{
  count_key, eq_of_same_key, is_accepted, is_withdrawn,
}
use usdt_settlement_corridor.Watcher.Tracker.Ticks.{newly, gone, undone}
use usdt_settlement_corridor.Watcher.Tracker.Steps.{accepts, leaves}
use usdt_settlement_corridor.Watcher.Tracker.Ticks.{confirmed, missing}
use usdt_settlement_corridor.Watcher.Tracker.Sums.{
  ready_in, after_verify, stale_same, newly_final, no_longer, verify_counts, recheck_counts,
}

-- Under each key at most one candidate is watched, pending or finalized; and as often as `OnFinal` has
-- accepted the key its reorg has been reported, once less while it is finalized.
pub record IsTracker (t : Tracker) : Type 0 where
  pub once : (k : Key) → count_key k t.pending + count_key k t.finalized ≤ 1
  pub paid :
      (k : Key)
      → count_by (is_accepted k) t.events
        ≡ count_by (is_withdrawn k) t.events + count_key k t.finalized

-- A candidate that becomes final is under the key and no longer pending.
pub newly_bounds :
    (k : Key) (cfg : Config) (out : Outside) (now final : ℕ) (t : Tracker)
    → (newly_final k cfg out now final t ≤ no_longer k cfg out now final t)
      × (newly_final k cfg out now final t ≤ count_key k (check_stale_pending cfg now t).pending)
newly_bounds k cfg out now final t = (
  count_by_le (λ c. newly k out (out.logs_at c.log.height) c)
      (λ c. gone k out (out.logs_at c.log.height) c) (ready_in cfg now final t)
      (λ c.
        leaves_then (has_key k c) (missing (out.logs_at c.log.height) c)
          (confirmed (out.logs_at c.log.height) c) c),
  few,
)
  where
    leaves_then :
        (a b d : Bool) (c : Candidate)
        → a && (d && accepts out c) ≡ true
        → a && (b || (d && leaves out c)) ≡ true
    leaves_then a b d c = ground arith

    fits : (a b : Bool) → a && b ≡ true → a ≡ true
    fits a b = ground arith

    few : newly_final k cfg out now final t ≤ count_key k (check_stale_pending cfg now t).pending
    few =
        let pending = (check_stale_pending cfg now t).pending in
        omega (
          arith,
          count_by_le (λ c. newly k out (out.logs_at c.log.height) c) (has_key k)
              (ready_in cfg now final t)
              (λ c. fits (has_key k c) (confirmed (out.logs_at c.log.height) c && accepts out c)),
          count_by-select (has_key k) (λ c. leb c.log.height final) pending,
          count_by_le (λ c. has_key k c && leb c.log.height final) (has_key k) pending
              (λ c. fits (has_key k c) (leb c.log.height final)),
        )

pub check_finality-some :
    (cfg : Config) (out : Outside) (now final : ℕ) (t : Tracker)
    → out.latest_finalized ≡ some final
    → (check_finality cfg out now t).1
      ≡ check_post_final_reorgs out (after_verify cfg out now final t)
unfolding check_finality
check_finality-some cfg out now final t e = ground arith

pub check_finality-none :
    (cfg : Config) (out : Outside) (now : ℕ) (t : Tracker)
    → out.latest_finalized ≡ none
    → (check_finality cfg out now t).1 ≡ t
unfolding check_finality
check_finality-none cfg out now t e = ground arith

check_finality-IsTracker :
    (cfg : Config) (out : Outside) (now : ℕ) (t : Tracker)
    → IsTracker t
    → IsTracker (check_finality cfg out now t).1
check_finality-IsTracker cfg out now t v = elim (Option-cases out.latest_finalized) [
  | inl e ↦ subst IsTracker (sym (check_finality-none cfg out now t e)) v
  | inr (final, e) ↦
      subst IsTracker (sym (check_finality-some cfg out now final t e))
        (record { once = λ k. (counts k final).0; paid = λ k. (counts k final).1 })
]
  where
    counts :
        (k : Key) (final : ℕ)
        → (count_key k (check_post_final_reorgs out (after_verify cfg out now final t)).pending
              + count_key k
                  (check_post_final_reorgs out (after_verify cfg out now final t)).finalized
            ≤ 1)
          × (count_by
                (is_accepted k)
                (check_post_final_reorgs out (after_verify cfg out now final t)).events
              ≡ count_by
                  (is_withdrawn k)
                  (check_post_final_reorgs out (after_verify cfg out now final t)).events
                + count_key k
                    (check_post_final_reorgs out (after_verify cfg out now final t)).finalized)
    counts k final =
        let a = stale_same k cfg now t in
        let b = verify_counts k cfg out now final t in
        let c = recheck_counts k out (after_verify cfg out now final t) in
        let few = newly_bounds k cfg out now final t in
        let some_undone =
          count_by_le (λ c. undone k out (out.logs_again c.log.height) c) (has_key k)
            (after_verify cfg out now final t).finalized
            (λ c.
              fits (has_key k c) (missing (out.logs_again c.log.height) c)
                (out.report_reorg c.log.external_id (deposit_final_idempotency_key c.log.key))) in
        ground (
          arith,
          v.once k,
          v.paid k,
          a.accepted,
          a.withdrawn,
          a.pending,
          a.finalized,
          b.accepted,
          b.withdrawn,
          b.pending,
          b.finalized,
          c.accepted,
          c.withdrawn,
          ap (count_key k) c.pending,
          c.finalized,
          few.0,
          few.1,
          some_undone,
        )
      where
        fits : (a b d : Bool) → a && (b && d) ≡ true → a ≡ true
        fits a b d = ground arith

on_log_observed-IsTracker :
    (now : ℕ) (log : ObservedLog) (kind : Classification) (t : Tracker)
    → IsTracker t
    → IsTracker (on_log_observed now log kind t)
unfolding on_log_observed is_accepted is_withdrawn
on_log_observed-IsTracker now log kind t v =
    elim (Bool-cases (exists_by (has_key log.key) t.finalized)) [
      | inl e ↦ rw e v
      | inr fresh ↦ elim (Bool-cases (exists_by (has_key log.key) t.pending)) [
        | inl e ↦ rw (fresh, e) v
        | inr new ↦ elim (Bool-cases (is_zero_value kind)) [
          | inl z ↦ rw (fresh, new, z) v
          | inr z ↦
              rw (fresh, new, z)
                (record { once = λ k. (counts k fresh new).0; paid = λ k. (counts k fresh new).1 })
        ]
      ]
    ]
  where
    candidate : Candidate
    candidate = record {
      log = log;
      classification = kind;
      detected_at = now;
      alerted_stale = false;
      contradicted = false;
    }

    none_of :
        (k : Key) (cs : List Candidate)
        → exists_by (has_key log.key) cs ≡ false
        → same_key log.key k ≡ true
        → count_key k cs ≡ 0
    none_of k cs h e =
        subst (λ j. count_key j cs ≡ 0) (eq_of_same_key log.key k e)
          (exists_by-count_by (has_key log.key) cs h)

    counts :
        (k : Key)
        → exists_by (has_key log.key) t.finalized ≡ false
        → exists_by (has_key log.key) t.pending ≡ false
        → (count_key k (t.pending ++ (candidate ∷ [])) + count_key k t.finalized ≤ 1)
          × (count_by (is_accepted k) (t.events ++ (detected log.key ∷ []))
              ≡ count_by (is_withdrawn k) (t.events ++ (detected log.key ∷ []))
                + count_key k t.finalized)
    counts k fresh new = ground (
      arith,
      v.once k,
      v.paid k,
      none_of k t.pending new,
      none_of k t.finalized fresh,
      count_by-last (has_key k) t.pending candidate,
      count_by-last (is_accepted k) t.events (detected log.key),
      count_by-last (is_withdrawn k) t.events (detected log.key),
    )

-- One call of the tracker, and any number of them.
pub data Call (t : Tracker) : Tracker → Type 0 where
  observed :
      (now : ℕ) (log : ObservedLog) (kind : Classification)
      → Call t (on_log_observed now log kind t)
  ticked : (cfg : Config) (out : Outside) (now : ℕ) → Call t (check_finality cfg out now t).1

pub data Calls (t : Tracker) : Tracker → Type 0 where
  none_yet : Calls t t
  one_more : (t₁ t₂ : Tracker) → Calls t t₁ → Call t₁ t₂ → Calls t t₂

Call-IsTracker : (t t' : Tracker) → IsTracker t → Call t t' → IsTracker t'
Call-IsTracker t t' v (observed now log kind) = on_log_observed-IsTracker now log kind t v
Call-IsTracker t t' v (ticked cfg out now) = check_finality-IsTracker cfg out now t v

Calls-IsTracker : (t t' : Tracker) → IsTracker t → Calls t t' → IsTracker t'
Calls-IsTracker t t' v none_yet = v
Calls-IsTracker t t' v (one_more t₁ t₂ before last) =
    Call-IsTracker t₁ t' (Calls-IsTracker t t₁ v before) last

-- However often logs are observed and finality is checked, whatever the providers, the ledger and the
-- recorder answer, a new tracker watches a key at most once, as pending or as finalized, and the
-- times that the ledger has accepted a deposit are the times that its reorg was reported with
-- success, plus one while it is held as finalized.
pub Calls-new_tracker : (t : Tracker) → Calls new_tracker t → IsTracker t
unfolding count_by
Calls-new_tracker t calls =
    Calls-IsTracker new_tracker t (record { once = λ k. omega arith; paid = λ k. omega arith })
      calls
