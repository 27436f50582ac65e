-- ===== src/Dispatcher/Settling/Found.antt =====
-- Statements on the row of an attempt that is there.
use usdt_settlement_corridor.Base.{
  ℕ, ◌≡◌, ap, ◌∙◌, Bool, true, ◌&&◌, some, arith, Option-cases, inl, inr,
}
use usdt_settlement_corridor.Base.{◌==◌}
use usdt_settlement_corridor.Base.Table.{
  find_by, find_by-true, find_by_both, find_by-update_by, update_by,
}
use usdt_settlement_corridor.Dispatcher.Answer.{failed, done, broadcast_attempt_not_found}
use usdt_settlement_corridor.Dispatcher.Attempts.{
  BroadcastAttempt, AttemptTable, has_id, get, update_returning,
}

pub get_found :
    (i : ℕ) (t : AttemptTable) (a : BroadcastAttempt)
    → get i t ≡ done a
    → find_by (has_id i) t.rows ≡ some a
unfolding get
get_found i t a h = elim (Option-cases (find_by (has_id i) t.rows)) [
  | inl e ↦ absurd (never (ground arith))
  | inr (b, e) ↦ e ∙ ap some (same b a (ground arith))
]
  where
    never : failed broadcast_attempt_not_found ≡ done a → ⊥
    never e = cc

    same : (b a : BroadcastAttempt) → done b ≡ done a → b ≡ a
    same b a e = cc

pub found_get :
    (i : ℕ) (t : AttemptTable) (a : BroadcastAttempt)
    → find_by (has_id i) t.rows ≡ some a
    → get i t ≡ done a
unfolding get
found_get i t a e = ground arith

-- A statement on the row of an attempt, when that row fits it.
pub returning_found :
    (q : BroadcastAttempt → Bool) (f : BroadcastAttempt → BroadcastAttempt) (i : ℕ)
    (t : AttemptTable) (a : BroadcastAttempt)
    → ((x : BroadcastAttempt) → (f x).id ≡ x.id)
    → get i t ≡ done a
    → q a ≡ true
    → (update_returning (λ x. has_id i x && q x) f i t
        ≡ (done (f a), record t { rows = update_by (λ x. has_id i x && q x) f t.rows }))
      × (get i (record t { rows = update_by (λ x. has_id i x && q x) f t.rows }) ≡ done (f a))
unfolding update_returning
returning_found q f i t a same e h =
    let there = get_found i t a e in
    let hit = find_by-true (has_id i) t.rows a there in
    let after =
      find_by-update_by (λ x. has_id i x && q x) f (has_id i) t.rows a
        (λ x. ap (λ n. n == i) (same x)) there in
    (
      ground (arith, find_by_both (has_id i) q t.rows a there h),
      found_get i (record t { rows = update_by (λ x. has_id i x && q x) f t.rows }) (f a)
          (after ∙ ground (arith, hit, h)),
    )
