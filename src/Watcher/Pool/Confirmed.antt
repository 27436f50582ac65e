-- ===== src/Watcher/Pool/Confirmed.antt =====
-- A vote for a hash is a confirmation of the block.
use usdt_settlement_corridor.Base.{
  ℕ, ◌≤◌, ◌≡◌, refl, inl, inr, Bool, true, false, ◌&&◌, none, some, arith, leb, ◌==◌, if◌then◌else◌,
  Option-cases, All-map,
}
use usdt_settlement_corridor.Base.Text.{Text, text_eq}
use usdt_settlement_corridor.Base.Table.{find_by}
use usdt_settlement_corridor.Base.Count.{count_by, count_by-All_ext, count_by-All_le}
use usdt_settlement_corridor.Watcher.Pool.{Block, Provider, Pool, called}
use usdt_settlement_corridor.Watcher.Pool.Round.{
  ProviderResult, query_finalized, answered, successes, max_height, in_tolerance, ref_height,
}
use usdt_settlement_corridor.Watcher.Pool.Names.{IsNamed}
use usdt_settlement_corridor.Watcher.Pool.Votes.{
  confirms, votes, backers-votes, reports, near, in_tolerance-count, lowest_le, result, query_some,
  query_none, asked, backers-reports,
}

high : Pool → ProviderResult → Bool
high p r = leb (ref_height p) r.height

and_leb : (a b : Bool) → b ≡ true → a ≡ a && b
and_leb a b e = ground arith

reported_high :
    (p : Pool) (x : Text)
    → count_by (reports p.providers (ref_height p) x) (in_tolerance p)
      ≡ count_by (λ r. reports p.providers (ref_height p) x r && high p r) (in_tolerance p)
unfolding high
reported_high p x = count_by-All_ext _ _ (in_tolerance p) (
    All-map _ _ (in_tolerance p)
      (λ r e. and_leb (reports p.providers (ref_height p) x r) (high p r) e)
      (lowest_le (max_height (successes p)) (in_tolerance p)))

all_true : (a b c d : Bool) → (((a && b) && c) && d) ≡ true → (a ≡ true) × (b ≡ true) × (d ≡ true)
all_true true true true true h = (refl, refl, refl)
all_true true true true false h = absurd (cc (h))
all_true true true false d h = absurd (cc (h))
all_true true false c d h = absurd (cc (h))
all_true false b c d h = absurd (cc (h))

confirms-some :
    (height : ℕ) (x : Text) (q : Provider) (b : Block)
    → q.finalized ≡ some b
    → confirms height x q ≡ (
        leb height b.height && elim (if b.height == height then some b.hash else q.hash_at height) [
          | none ↦ false
          | some y ↦ text_eq y x
        ])
unfolding confirms
confirms-some height x q b e = rw (confirms, e) refl

-- The report that counts is the provider's own confirmation.
confirmed_by :
    (p : Pool) (x : Text) (q : Provider)
    → find_by (called q.name) p.providers ≡ some q
    → (((reports p.providers (ref_height p) x (query_finalized q) && high p (query_finalized q))
          && near p (query_finalized q))
        && answered (query_finalized q))
      ≡ true
    → confirms (ref_height p) x q ≡ true
unfolding reports result high
confirmed_by p x q e h =
    let t =
      all_true (reports p.providers (ref_height p) x (query_finalized q))
        (high p (query_finalized q)) (near p (query_finalized q)) (answered (query_finalized q))
        h in
    elim (Option-cases q.finalized) [
      | inl n ↦ absurd (cc (query_none q n, t.2))
      | inr (b, n) ↦
          let r : reports p.providers (ref_height p) x (result q b) ≡ true =
            rw (query_some q b n) at t.0 in
          let g : leb (ref_height p) b.height ≡ true = rw (query_some q b n) at t.1 in
          rw (confirms-some (ref_height p) x q b n, g)
            (rw (reports, asked p.providers (ref_height p) q b e) at r)
    ]

pub votes-confirms :
    (p : Pool) (x : Text)
    → IsNamed p.providers
    → votes p x ≤ count_by (confirms (ref_height p) x) p.providers
unfolding IsNamed
votes-confirms p x k = ground (
  arith,
  backers-votes p x k,
  backers-reports p x,
  reported_high p x,
  in_tolerance-count p (λ r. reports p.providers (ref_height p) x r && high p r),
  count_by-All_le _ (confirms (ref_height p) x) p.providers (
      All-map (λ q. find_by (called q.name) p.providers ≡ some q) _ p.providers (confirmed_by p x)
        k),
)
