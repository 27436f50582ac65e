-- ===== src/Watcher/Pool/Agreement.antt =====
-- What LatestFinalized answers, in terms of the providers.
use usdt_settlement_corridor.Base.{
  ℕ, ◌≤◌, ◌<◌, ◌≡◌, ◌↔◌, subst, ◌∙◌, ◌⊎◌, inl, inr, false, arith, ◌==◌, Bool-cases,
}
use usdt_settlement_corridor.Base.Text.{Text, text_eq, text_eq_refl, eq_of_text_eq}
use usdt_settlement_corridor.Base.Count.{count_by}
use usdt_settlement_corridor.Watcher.Pool.{Pool}
use usdt_settlement_corridor.Watcher.Pool.Round.{
  ref_height, groups, Winner, winner, no_agreement, ambiguous_agreement, agreed, answer,
  latest_finalized,
}
use usdt_settlement_corridor.Watcher.Pool.Contest.{IsWinner, final-IsLeading, won, wins}
use usdt_settlement_corridor.Watcher.Pool.Names.{IsPool}
use usdt_settlement_corridor.Watcher.Pool.Confirmed.{votes-confirms}
use usdt_settlement_corridor.Watcher.Pool.Votes.{confirms, votes, groups-IsGrouped, backers-votes}

-- The agreed hash: enough providers vote for it, and more than for any other.
unfoldable pub IsAgreed : Pool → Text → Type 0
IsAgreed p x = (p.min_agreement ≤ votes p x) × ((y : Text) → (x ≡ y) ⊎ (votes p y < votes p x))

answer_agreed :
    (ref height : ℕ) (w : Winner) (x : Text)
    → answer ref w ≡ agreed height x
    → (w.ambiguous ≡ false) × (0 < w.count) × (w.hash ≡ x) × (ref ≡ height)
unfolding answer
answer_agreed ref height w x e = elim (Bool-cases w.ambiguous) [
  | inl t ↦ absurd (ambiguous_other height x (rw t at e))
  | inr f ↦ elim (Bool-cases (w.count == 0)) [
    | inl z ↦ absurd (none_other height x (rw (f, z) at e))
    | inr n ↦
        let same : agreed ref w.hash ≡ agreed height x = rw (f, n) at e in
        (
          f,
          ground arith,
          agreed_hash ref height w.hash x same,
          agreed_height ref height w.hash x same,
        )
  ]
]
  where
    ambiguous_other : (h : ℕ) (y : Text) → ambiguous_agreement ≡ agreed h y → ⊥
    ambiguous_other h y u = cc

    none_other : (h : ℕ) (y : Text) → no_agreement ≡ agreed h y → ⊥
    none_other h y u = cc

    agreed_hash : (h h' : ℕ) (y y' : Text) → agreed h y ≡ agreed h' y' → y ≡ y'
    agreed_hash h h' y y' u = cc

    agreed_height : (h h' : ℕ) (y y' : Text) → agreed h y ≡ agreed h' y' → h ≡ h'
    agreed_height h h' y y' u = cc

agreed_answer :
    (ref : ℕ) (w : Winner) → w.ambiguous ≡ false → 0 < w.count → answer ref w ≡ agreed ref w.hash
unfolding answer
agreed_answer ref w a c = ground arith

winner-IsAgreed :
    (p : Pool) (x : Text)
    → IsPool p
    → (winner p).ambiguous ≡ false
    → 0 < (winner p).count
    → (winner p).hash ≡ x
    → IsAgreed p x
unfolding IsAgreed IsPool IsWinner
winner-IsAgreed p x k a c e =
    let won_by : IsWinner p.min_agreement (groups p) x =
      won p.min_agreement (groups p) k.0 (groups-IsGrouped p) (winner p) x
        (final-IsLeading p.min_agreement (groups p) k.0 (groups-IsGrouped p)) a c e in
    (
      ground (arith, backers-votes p x k.1, won_by.0),
      λ y. elim (Bool-cases (text_eq x y)) [
        | inl t ↦ inl (eq_of_text_eq x y t)
        | inr f ↦ inr (ground (arith, won_by.1 y f, backers-votes p x k.1, backers-votes p y k.1))
      ],
    )

IsAgreed-winner :
    (p : Pool) (x : Text)
    → IsPool p
    → IsAgreed p x
    → ((winner p).ambiguous ≡ false) × (0 < (winner p).count) × ((winner p).hash ≡ x)
unfolding IsAgreed IsPool IsWinner
IsAgreed-winner p x k h =
    wins p.min_agreement (groups p) k.0 (groups-IsGrouped p) (winner p) x
      (final-IsLeading p.min_agreement (groups p) k.0 (groups-IsGrouped p))
      (
        ground (arith, backers-votes p x k.1, h.0),
        λ y f. elim (h.1 y) [
          | inl e ↦ absurd (cc (text_eq_refl x, e, f))
          | inr l ↦ ground (arith, backers-votes p x k.1, backers-votes p y k.1)
        ],
      )

-- In a pool whose names are distinct and in which one provider at least must agree, a block is answered
-- exactly when it stands at the reference height and its hash has enough votes of providers and more
-- than any other hash has.
pub latest_finalized_iff :
    (now : ℕ) (p : Pool) (height : ℕ) (x : Text)
    → IsPool p
    → ((latest_finalized now p).0 ≡ agreed height x) ↔ ((ref_height p ≡ height) × IsAgreed p x)
unfolding latest_finalized
latest_finalized_iff now p height x k = (
  λ e.
      let w = answer_agreed (ref_height p) height (winner p) x e in
      (w.3, winner-IsAgreed p x k w.0 w.1 w.2),
  λ h.
      let w = IsAgreed-winner p x k h.1 in
      agreed_answer (ref_height p) (winner p) w.0 w.1 ∙ cc (w.2, h.0),
)

-- A block that is answered as final is confirmed by the least number of providers at least: each has
-- reported a height not below it, and its own hash at that height is the block's.
pub latest_finalized_confirmed :
    (now : ℕ) (p : Pool) (height : ℕ) (x : Text)
    → IsPool p
    → (latest_finalized now p).0 ≡ agreed height x
    → p.min_agreement ≤ count_by (confirms height x) p.providers
unfolding IsAgreed IsPool
latest_finalized_confirmed now p height x k e =
    let both = (latest_finalized_iff now p height x k).0 e in
    ground (
      arith,
      both.1.0,
      subst (λ m. votes p x ≤ count_by (confirms m x) p.providers) both.0 (votes-confirms p x k.1),
    )
