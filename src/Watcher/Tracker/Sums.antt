-- ===== src/Watcher/Tracker/Sums.antt =====
-- CheckFinality as a sum over the candidates: the grouping by height is gone.
use usdt_settlement_corridor.Base.{
  ℕ, ◌≡◌, refl, subst, true, List, [], ◌∷◌, arith, Bool-cases, inl, inr,
}
use usdt_settlement_corridor.Base.Table.{select}
use usdt_settlement_corridor.Base.Count.{count_by, count_by-append, count_by-update_by}
use usdt_settlement_corridor.Watcher.Tracker.{
  Key, Candidate, Tracker, Outside, Config, has_key, heights, is_stale, alert_all, ready_candidates,
  check_stale_pending, verify_heights, recheck_heights, check_post_final_reorgs,
}
use usdt_settlement_corridor.Watcher.Tracker.Counts.{count_key, is_accepted, is_withdrawn}
use usdt_settlement_corridor.Watcher.Tracker.Heights.{sum_at, sum_at-heights}
use usdt_settlement_corridor.Watcher.Tracker.Ticks.{
  newly, gone, undone, Verified, Verified-heights, Rechecked, Rechecked-heights,
}

-- The candidates that are ready, and the tracker after they are verified.
abbrev pub ready_in : Config → ℕ → ℕ → Tracker → List Candidate
ready_in cfg now final t = ready_candidates final (check_stale_pending cfg now t)

abbrev pub after_verify : Config → Outside → ℕ → ℕ → Tracker → Tracker
after_verify cfg out now final t =
    verify_heights out (ready_in cfg now final t) (heights (ready_in cfg now final t))
      (check_stale_pending cfg now t)

module _ (k : Key) where
  alerts_silent :
      (cs : List Candidate)
      → (count_by (is_accepted k) (alert_all cs) ≡ 0)
        × (count_by (is_withdrawn k) (alert_all cs) ≡ 0)
  unfolding count_by is_accepted is_withdrawn
  alerts_silent [] = (refl, refl)
  alerts_silent (c ∷ cs) = alerts_silent cs

  pub record SameCounts (t t' : Tracker) : Type 0 where
    pub accepted : count_by (is_accepted k) t'.events ≡ count_by (is_accepted k) t.events
    pub withdrawn : count_by (is_withdrawn k) t'.events ≡ count_by (is_withdrawn k) t.events
    pub pending : count_key k t'.pending ≡ count_key k t.pending
    pub finalized : count_key k t'.finalized ≡ count_key k t.finalized

  pub stale_same :
      (cfg : Config) (now : ℕ) (t : Tracker) → SameCounts t (check_stale_pending cfg now t)
  unfolding check_stale_pending
  stale_same cfg now t = elim (Bool-cases cfg.alerts_stale) [
    | inr f ↦ rw f (record { accepted = refl; withdrawn = refl; pending = refl; finalized = refl })
    | inl a ↦
        let alerts = alert_all (select (is_stale cfg now) t.pending) in
        let silent = alerts_silent (select (is_stale cfg now) t.pending) in
        rw a (record {
          accepted = omega (arith, count_by-append (is_accepted k) t.events alerts, silent.0);
          withdrawn = omega (arith, count_by-append (is_withdrawn k) t.events alerts, silent.1);
          pending =
              count_by-update_by (has_key k) (is_stale cfg now)
                (λ c. record c { alerted_stale = true }) t.pending (λ c. refl);
          finalized = refl;
        })
  ]

  abbrev pub newly_final : Config → Outside → ℕ → ℕ → Tracker → ℕ
  newly_final cfg out now final t =
      count_by (λ c. newly k out (out.logs_at c.log.height) c) (ready_in cfg now final t)

  abbrev pub no_longer : Config → Outside → ℕ → ℕ → Tracker → ℕ
  no_longer cfg out now final t =
      count_by (λ c. gone k out (out.logs_at c.log.height) c) (ready_in cfg now final t)

  abbrev pub undone_again : Config → Outside → ℕ → ℕ → Tracker → ℕ
  undone_again cfg out now final t =
      count_by (λ c. undone k out (out.logs_again c.log.height) c)
        (after_verify cfg out now final t).finalized

  pub verify_counts :
      (cfg : Config) (out : Outside) (now final : ℕ) (t : Tracker)
      → Verified k out
          (newly_final cfg out now final t)
          (no_longer cfg out now final t)
          (check_stale_pending cfg now t)
          (after_verify cfg out now final t)
  verify_counts cfg out now final t =
      let ready = ready_in cfg now final t in
      subst
        (λ n.
          Verified k out n (no_longer cfg out now final t) (check_stale_pending cfg now t)
            (after_verify cfg out now final t))
        (sum_at-heights (λ h. newly k out (out.logs_at h)) ready)
        (subst
          (λ g.
            Verified k out (sum_at (λ h. newly k out (out.logs_at h)) ready (heights ready)) g
              (check_stale_pending cfg now t) (after_verify cfg out now final t))
          (sum_at-heights (λ h. gone k out (out.logs_at h)) ready)
          (Verified-heights k out ready (heights ready) (check_stale_pending cfg now t)))

  pub recheck_counts :
      (out : Outside) (t : Tracker)
      → Rechecked k out
          (count_by (λ c. undone k out (out.logs_again c.log.height) c) t.finalized)
          t
          (check_post_final_reorgs out t)
  unfolding check_post_final_reorgs
  recheck_counts out t =
      subst (λ n. Rechecked k out n t (recheck_heights out t.finalized (heights t.finalized) t))
        (sum_at-heights (λ h. undone k out (out.logs_again h)) t.finalized)
        (Rechecked-heights k out t.finalized (heights t.finalized) t)
