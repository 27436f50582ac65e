-- ===== src/Watcher/Tracker/Steps.antt =====
-- What finalize, the drop and the report of a reorg do to the numbers under a key.
use usdt_settlement_corridor.Base.{
  ◌+◌, ◌≡◌, refl, Bool, true, false, ◌&&◌, ◌||◌, not, none, some, arith, if◌then◌else◌,
}
use usdt_settlement_corridor.Base.Count.{count_by, count_by-last, count_by-update_by}
use usdt_settlement_corridor.Watcher.Tracker.{
  Key, Candidate, Tracker, Outside, has_key, without, finalize, not_accepted, handle_unreportable,
  drop_candidate, handle_post_final_reorg, deposit_final_idempotency_key,
}
use usdt_settlement_corridor.Watcher.Tracker.Counts.{
  count_key, count_key-without, is_accepted, is_withdrawn,
}

abbrev pub accepts : Outside → Candidate → Bool
accepts out c = elim (out.on_final c) [ none ↦ true | some e ↦ false ]

-- Whether finalize stops tracking a candidate.
abbrev pub leaves : Outside → Candidate → Bool
leaves out c = elim (out.on_final c) [
  | none ↦ true
  | some e ↦ e.permanent && (not e.orphaned || out.record_orphaned c)
]

abbrev pub reports : Outside → Candidate → Bool
reports out c = out.report_reorg c.log.external_id (deposit_final_idempotency_key c.log.key)

module _ (k : Key) (out : Outside) (c : Candidate) (t : Tracker) where
  pub finalize_accepted :
      count_by (is_accepted k) (finalize out c t).events
      ≡ count_by (is_accepted k) t.events + (if has_key k c && accepts out c then 1 else 0)
  unfolding finalize not_accepted handle_unreportable drop_candidate is_accepted
  finalize_accepted = grind (arith, count_by-last (is_accepted k))

  pub finalize_withdrawn :
      count_by (is_withdrawn k) (finalize out c t).events ≡ count_by (is_withdrawn k) t.events
  unfolding finalize not_accepted handle_unreportable drop_candidate is_withdrawn
  finalize_withdrawn = grind (arith, count_by-last (is_withdrawn k))

  pub finalize_pending :
      count_key k (finalize out c t).pending
      ≡ (if has_key k c && leaves out c then 0 else count_key k t.pending)
  unfolding finalize not_accepted handle_unreportable drop_candidate
  finalize_pending = ground (arith, count_key-without k c.log.key t.pending)

  pub finalize_finalized :
      count_key k (finalize out c t).finalized
      ≡ (if has_key k c && accepts out c then 1 else count_key k t.finalized)
  unfolding finalize not_accepted handle_unreportable drop_candidate
  finalize_finalized = ground (
    arith,
    count_key-without k c.log.key t.finalized,
    count_by-last (has_key k) (without c.log.key t.finalized) c,
  )

  pub drop_pending :
      count_key k (drop_candidate c.log.key t).pending
      ≡ (if has_key k c then 0 else count_key k t.pending)
  unfolding drop_candidate
  drop_pending = count_key-without k c.log.key t.pending

  pub reorg_withdrawn :
      count_by (is_withdrawn k) (handle_post_final_reorg out c t).events
      ≡ count_by (is_withdrawn k) t.events + (if has_key k c && reports out c then 1 else 0)
  unfolding handle_post_final_reorg is_withdrawn
  reorg_withdrawn = grind (arith, count_by-last (is_withdrawn k))

  pub reorg_accepted :
      count_by (is_accepted k) (handle_post_final_reorg out c t).events
      ≡ count_by (is_accepted k) t.events
  unfolding handle_post_final_reorg is_accepted
  reorg_accepted = grind (arith, count_by-last (is_accepted k))

  pub reorg_finalized :
      count_key k (handle_post_final_reorg out c t).finalized
      ≡ (if has_key k c && reports out c then 0 else count_key k t.finalized)
  unfolding handle_post_final_reorg
  reorg_finalized = ground (
    arith,
    count_key-without k c.log.key t.finalized,
    count_by-update_by (has_key k) (has_key c.log.key) (λ x. record x { contradicted = true })
        t.finalized (λ x. refl),
  )

  pub reorg_pending : (handle_post_final_reorg out c t).pending ≡ t.pending
  unfolding handle_post_final_reorg
  reorg_pending = ground arith
