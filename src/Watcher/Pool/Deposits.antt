-- ===== src/Watcher/Pool/Deposits.antt =====
-- CheckFinality (depositwatcher/internal/finality) with the height that the pool's providers agree on.
use usdt_settlement_corridor.Base.{
  ℕ, ◌+◌, ◌≤◌, ◌<◌, ◌≡◌, refl, ap, inl, inr, Bool, take, All, true, false, ◌&&◌, Option, none, some,
  arith, leb, if◌then◌else◌, Bool-cases, Option-cases,
}
use usdt_settlement_corridor.Base.Text.{Text}
use usdt_settlement_corridor.Base.Table.{find_by}
use usdt_settlement_corridor.Base.Count.{count_by, count_by_le}
use usdt_settlement_corridor.Watcher.Tracker.{
  Key, Candidate, Tracker, Outside, Config, has_key, check_stale_pending, check_finality,
}
use usdt_settlement_corridor.Watcher.Tracker.Counts.{is_accepted}
use usdt_settlement_corridor.Watcher.Tracker.Invariant.{IsTracker}
use usdt_settlement_corridor.Watcher.Tracker.Effect.{finalizes, check_finality_pending}
use usdt_settlement_corridor.Watcher.Pool.{Provider, Pool}
use usdt_settlement_corridor.Watcher.Pool.Round.{
  FinalizedAnswer, no_agreement, ambiguous_agreement, agreed, latest_finalized,
}
use usdt_settlement_corridor.Watcher.Tracker.Ticks.{confirmed}
use usdt_settlement_corridor.Watcher.Tracker.Steps.{accepts}
use usdt_settlement_corridor.Watcher.Pool.Logs.{logs_at}
use usdt_settlement_corridor.Watcher.Pool.Shown.{keys_of, shows, logs_at-shows}
use usdt_settlement_corridor.Watcher.Pool.Names.{IsPool}
use usdt_settlement_corridor.Watcher.Pool.Agreement.{latest_finalized_confirmed}
use usdt_settlement_corridor.Watcher.Pool.Votes.{confirms}

-- The height alone is used, and an error ends the tick.
unfoldable pub final_height : FinalizedAnswer → Option ℕ
final_height no_agreement = none
final_height ambiguous_agreement = none
final_height (agreed h x) = some h

-- One tick's questions to the pool before the finalized deposits are looked at again.
abbrev pub asking : ℕ → Pool → Outside → Outside
asking now p out = record out {
  latest_finalized = final_height (latest_finalized now p).0;
  logs_at = λ h. keys_of (logs_at now h h p).0;
}

-- Whether a provider has reported a finalized height not below the given one.
unfoldable pub reaches : ℕ → Provider → Bool
reaches n q = elim q.finalized [ none ↦ false | some b ↦ leb n b.height ]

confirms-reaches :
    (n h : ℕ) (x : Text) → n ≤ h → (q : Provider) → confirms h x q ≡ true → reaches n q ≡ true
unfolding confirms reaches
confirms-reaches n h x l q c = elim (Option-cases q.finalized) [
  | inl e ↦ absurd (no_confirm (rw (confirms, e) at c))
  | inr (b, e) ↦ rw (reaches, e) (higher (leb h b.height) _ b.height refl (rw (confirms, e) at c))
]
  where
    no_confirm : false ≡ true → ⊥
    no_confirm u = cc

    higher : (d r : Bool) (m : ℕ) → leb h m ≡ d → d && r ≡ true → leb n m ≡ true
    higher d r m u v = ground arith

final_height-some :
    (a : FinalizedAnswer) (h : ℕ) → final_height a ≡ some h → (x : Text) × (a ≡ agreed h x)
unfolding final_height
final_height-some no_agreement h e = absurd (cc (e))
final_height-some ambiguous_agreement h e = absurd (cc (e))
final_height-some (agreed h' x) h e = (x, cc (e))

check_finality-none :
    (cfg : Config) (out : Outside) (now : ℕ) (t : Tracker)
    → out.latest_finalized ≡ none
    → (check_finality cfg out now t).1 ≡ t
unfolding check_finality
check_finality-none cfg out now t e = rw (check_finality, e) refl

finalizes-parts :
    (out : Outside) (h : ℕ) (c : Candidate)
    → finalizes out h c ≡ true
    → (c.log.height ≤ h) × (confirmed (out.logs_at c.log.height) c ≡ true)
finalizes-parts out h c f =
    let parts =
      two_true (leb c.log.height h) (confirmed (out.logs_at c.log.height) c) (accepts out c) f in
    (ground (arith, parts.0), parts.1)
  where
    two_true : (a b d : Bool) → a && (b && d) ≡ true → (a ≡ true) × (b ≡ true)
    two_true a b d e = ground arith

confirmed-shows :
    (now : ℕ) (p : Pool) (out : Outside) (c : Candidate)
    → confirmed ((asking now p out).logs_at c.log.height) c ≡ true
    → All (λ q. shows c.log.height c.log.key q ≡ true) (take 2 p.providers)
confirmed-shows now p out c s = elim (Option-cases ((asking now p out).logs_at c.log.height)) [
  | inl n ↦ absurd (not_confirmed (rw n at s))
  | inr (keys, e) ↦ logs_at-shows now c.log.height p keys c.log.key e (rw e at s)
]
  where
    not_confirmed : false ≡ true → ⊥
    not_confirmed e = cc

module _ (k : Key) (cfg : Config) (out : Outside) (now : ℕ) (t : Tracker) where
  -- A tick reports a pending deposit only with a height that it takes for final.
  accepted-finalizes :
      (c : Candidate)
      → IsTracker t
      → find_by (has_key k) (check_stale_pending cfg now t).pending ≡ some c
      → count_by (is_accepted k) t.events
        < count_by (is_accepted k) (check_finality cfg out now t).1.events
      → (h : ℕ) × (out.latest_finalized ≡ some h) × (finalizes out h c ≡ true)
  accepted-finalizes c v found more = elim (Option-cases out.latest_finalized) [
    | inl e ↦
        absurd (unmoved (check_finality cfg out now t).1 (check_finality-none cfg out now t e) more)
    | inr (h, e) ↦ (h, e, counted h (check_finality_pending k cfg out now h t c v e found).0)
  ]
    where
      unmoved :
          (t' : Tracker)
          → t' ≡ t
          → count_by (is_accepted k) t.events < count_by (is_accepted k) t'.events
          → ⊥
      unmoved t' e l = ground (arith, ap (λ (x : Tracker). count_by (is_accepted k) x.events) e)

      counted :
          (h : ℕ)
          → count_by (is_accepted k) (check_finality cfg out now t).1.events
            ≡ count_by (is_accepted k) t.events + (if finalizes out h c then 1 else 0)
          → finalizes out h c ≡ true
      counted h e = elim (Bool-cases (finalizes out h c)) [
        | inl y ↦ y
        | inr n ↦ absurd (ground (arith, more))
      ]

-- In a pool whose names are distinct and a well-formed tracker, when a tick that asks the pool reports a
-- deposit that is pending to the ledger with success, at least as many providers as must agree have
-- reported a finalized height that is not below the deposit's, and the first two providers both report
-- a log with the deposit's key at its height.
pub check_finality_confirmed :
    (k : Key) (cfg : Config) (out : Outside) (now : ℕ) (p : Pool) (t : Tracker) (c : Candidate)
    → IsPool p
    → IsTracker t
    → find_by (has_key k) (check_stale_pending cfg now t).pending ≡ some c
    → count_by (is_accepted k) t.events
      < count_by (is_accepted k) (check_finality cfg (asking now p out) now t).1.events
    → (p.min_agreement ≤ count_by (reaches c.log.height) p.providers)
      × All (λ q. shows c.log.height c.log.key q ≡ true) (take 2 p.providers)
check_finality_confirmed k cfg out now p t c m v found more =
    let (h, e, f) = accepted-finalizes k cfg (asking now p out) now t c v found more in
    let (x, a) = final_height-some (latest_finalized now p).0 h e in
    let (l, seen) = finalizes-parts (asking now p out) h c f in
    (
      omega (
        arith,
        latest_finalized_confirmed now p h x m a,
        count_by_le (confirms h x) (reaches c.log.height) p.providers
            (confirms-reaches c.log.height h x l),
      ),
      confirmed-shows now p out c seen,
    )
