-- ===== src/Watcher/Tracker/Effect.antt =====
-- What one call of CheckFinality does to a deposit that is pending, or that is finalized.
use usdt_settlement_corridor.Base.{
  ℕ, ◌+◌, ◌≤◌, ◌≡◌, sym, ap, subst, ◌∙◌, Bool, true, ◌&&◌, ◌||◌, some, arith, if◌then◌else◌, leb,
}
use usdt_settlement_corridor.Base.Count.{count_by, count_by-select}
use usdt_settlement_corridor.Watcher.Tracker.{
  Key, Candidate, Tracker, Outside, Config, has_key, check_stale_pending, check_finality,
}
use usdt_settlement_corridor.Watcher.Tracker.Counts.{count_key, is_accepted, is_withdrawn}
use usdt_settlement_corridor.Watcher.Tracker.Ticks.{newly, gone, undone}
use usdt_settlement_corridor.Watcher.Tracker.Steps.{accepts, leaves}
use usdt_settlement_corridor.Watcher.Tracker.Ticks.{confirmed, missing}
use usdt_settlement_corridor.Base.Table.{find_by, find_by-true}
use usdt_settlement_corridor.Base.Count.{find_by-count_by}
use usdt_settlement_corridor.Watcher.Tracker.Sums.{
  after_verify, stale_same, newly_final, no_longer, verify_counts, recheck_counts,
}
use usdt_settlement_corridor.Watcher.Tracker.Steps.{reports}
use usdt_settlement_corridor.Watcher.Tracker.Invariant.{
  newly_bounds, IsTracker, check_finality-some,
}
use usdt_settlement_corridor.Base.Count.{count_by_ext, count_by_unique}

-- The deposits under a key that a tick makes final, and those that it stops tracking.
abbrev pub finalizes : Outside → ℕ → Candidate → Bool
finalizes out final c =
    leb c.log.height final && (confirmed (out.logs_at c.log.height) c && accepts out c)

abbrev pub untracks : Outside → ℕ → Candidate → Bool
untracks out final c =
    leb c.log.height final
    && (missing (out.logs_at c.log.height) c
        || (confirmed (out.logs_at c.log.height) c && leaves out c))

module _ (k : Key) (cfg : Config) (out : Outside) (now final : ℕ) (t : Tracker) where
  newly_is :
      newly_final k cfg out now final t
      ≡ count_by (λ c. has_key k c && finalizes out final c) (check_stale_pending cfg now t).pending
  newly_is =
      count_by-select (λ c. newly k out (out.logs_at c.log.height) c) (λ c. leb c.log.height final)
        (check_stale_pending cfg now t).pending
      ∙ count_by_ext (λ c. newly k out (out.logs_at c.log.height) c && leb c.log.height final)
          (λ c. has_key k c && finalizes out final c) (check_stale_pending cfg now t).pending
          (λ c.
            turn (has_key k c) (confirmed (out.logs_at c.log.height) c && accepts out c)
              (leb c.log.height final))
    where
      turn : (a b d : Bool) → (a && b) && d ≡ a && (d && b)
      turn a b d = ground arith

  gone_is :
      no_longer k cfg out now final t
      ≡ count_by (λ c. has_key k c && untracks out final c) (check_stale_pending cfg now t).pending
  gone_is =
      count_by-select (λ c. gone k out (out.logs_at c.log.height) c) (λ c. leb c.log.height final)
        (check_stale_pending cfg now t).pending
      ∙ count_by_ext (λ c. gone k out (out.logs_at c.log.height) c && leb c.log.height final)
          (λ c. has_key k c && untracks out final c) (check_stale_pending cfg now t).pending
          (λ c.
            turn (has_key k c)
              (missing (out.logs_at c.log.height) c
                || (confirmed (out.logs_at c.log.height) c && leaves out c))
              (leb c.log.height final))
    where
      turn : (a b d : Bool) → (a && b) && d ≡ a && (d && b)
      turn a b d = ground arith

  -- In a well-formed tracker, a tick in which the providers agree on a finalized height reports a
  -- pending deposit to the ledger with success exactly if its height is not above that one, the
  -- providers agree that its log is at its height, and the ledger accepts it; it stops tracking the
  -- deposit exactly if the height is final and either the providers agree that the log is not there,
  -- or it is there and the ledger accepts it, or refuses it for good and, where the order is no
  -- longer open, the orphan has been recorded. In all other cases the deposit stays pending.
  pub check_finality_pending :
      (c : Candidate)
      → IsTracker t
      → out.latest_finalized ≡ some final
      → find_by (has_key k) (check_stale_pending cfg now t).pending ≡ some c
      → (count_by (is_accepted k) (check_finality cfg out now t).1.events
          ≡ count_by (is_accepted k) t.events + (if finalizes out final c then 1 else 0))
        × (count_key k (check_finality cfg out now t).1.pending
            ≡ (if untracks out final c then 0 else 1))
  check_finality_pending c v e found =
      let a = stale_same k cfg now t in
      let b = verify_counts k cfg out now final t in
      let r = recheck_counts k out (after_verify cfg out now final t) in
      let some_pending =
        find_by-count_by (has_key k) (check_stale_pending cfg now t).pending c found in
      let few : count_key k (check_stale_pending cfg now t).pending ≤ 1 =
        omega (arith, v.once k, a.pending) in
      let hit = find_by-true (has_key k) (check_stale_pending cfg now t).pending c found in
      let n =
        count_by_unique (has_key k) (λ c. has_key k c && finalizes out final c)
          (check_stale_pending cfg now t).pending c few found
          (λ x. fits (has_key k x) (finalizes out final x)) in
      let g =
        count_by_unique (has_key k) (λ c. has_key k c && untracks out final c)
          (check_stale_pending cfg now t).pending c few found
          (λ x. fits (has_key k x) (untracks out final x)) in
      subst
        (λ (x : Tracker).
          (count_by (is_accepted k) x.events
            ≡ count_by (is_accepted k) t.events + (if finalizes out final c then 1 else 0))
          × (count_key k x.pending ≡ (if untracks out final c then 0 else 1)))
        (sym (check_finality-some cfg out now final t e))
        (
          ground (arith, r.accepted, b.accepted, a.accepted, newly_is, n, hit),
          ground (arith, ap (count_key k) r.pending, b.pending, gone_is, g, hit, few, some_pending),
        )
    where
      fits : (a b : Bool) → a && b ≡ true → a ≡ true
      fits a b = ground arith

  -- A deposit that is not pending under a key is not reported under it, whatever the providers say.
  pub check_finality_unwatched :
      out.latest_finalized ≡ some final
      → count_key k t.pending ≡ 0
      → (count_by (is_accepted k) (check_finality cfg out now t).1.events
          ≡ count_by (is_accepted k) t.events)
        × (count_key k (check_finality cfg out now t).1.pending ≡ 0)
  check_finality_unwatched e none_there =
      let a = stale_same k cfg now t in
      let b = verify_counts k cfg out now final t in
      let r = recheck_counts k out (after_verify cfg out now final t) in
      let few = newly_bounds k cfg out now final t in
      subst
        (λ (x : Tracker).
          (count_by (is_accepted k) x.events ≡ count_by (is_accepted k) t.events)
          × (count_key k x.pending ≡ 0))
        (sym (check_finality-some cfg out now final t e))
        (
          omega (arith, r.accepted, b.accepted, a.accepted, few.1, a.pending, none_there),
          ground (arith, ap (count_key k) r.pending, b.pending, a.pending, none_there),
        )

  -- In a well-formed tracker, a deposit that is held as finalized when a tick comes to look for reorgs
  -- has a reorg reported to the ledger with success exactly if the providers agree that its log is
  -- not at its height and the report is accepted; it is then forgotten, and else it is kept.
  pub check_finality_finalized :
      (c : Candidate)
      → IsTracker t
      → out.latest_finalized ≡ some final
      → find_by (has_key k) (after_verify cfg out now final t).finalized ≡ some c
      → (count_by (is_withdrawn k) (check_finality cfg out now t).1.events
          ≡ count_by (is_withdrawn k) t.events
            + (if missing (out.logs_again c.log.height) c && reports out c then 1 else 0))
        × (count_key k (check_finality cfg out now t).1.finalized
            ≡ (if missing (out.logs_again c.log.height) c && reports out c then 0 else 1))
  check_finality_finalized c v e found =
      let a = stale_same k cfg now t in
      let b = verify_counts k cfg out now final t in
      let r = recheck_counts k out (after_verify cfg out now final t) in
      let held = (after_verify cfg out now final t).finalized in
      let some_there = find_by-count_by (has_key k) held c found in
      let few : count_key k held ≤ 1 = ground (arith, v.once k, a.finalized, b.finalized) in
      let hit = find_by-true (has_key k) held c found in
      let n =
        count_by_unique (has_key k) (λ c. undone k out (out.logs_again c.log.height) c) held c few
          found
          (λ x. fits (has_key k x) (missing (out.logs_again x.log.height) x && reports out x)) in
      subst
        (λ (x : Tracker).
          (count_by (is_withdrawn k) x.events
            ≡ count_by (is_withdrawn k) t.events
              + (if missing (out.logs_again c.log.height) c && reports out c then 1 else 0))
          × (count_key k x.finalized
              ≡ (if missing (out.logs_again c.log.height) c && reports out c then 0 else 1)))
        (sym (check_finality-some cfg out now final t e))
        (
          ground (arith, r.withdrawn, b.withdrawn, a.withdrawn, n, hit),
          ground (arith, r.finalized, n, hit, few, some_there),
        )
    where
      fits : (a b : Bool) → a && b ≡ true → a ≡ true
      fits a b = ground arith
