-- ===== src/Watcher/Pool/Votes.antt =====
-- What the groups of hashes count, in terms of the providers.
use usdt_settlement_corridor.Base.{
  ℕ, ◌+◌, ◌%◌, ◌^◌, ◌≤◌, ◌≡◌, refl, ◌∙◌, inl, inr, Bool, true, false, ◌&&◌, not, List, [], ◌∷◌, map,
  none, some, arith, ltb, leb, ◌==◌, if◌then◌else◌, Option-cases, All, All-map,
}
use usdt_settlement_corridor.Base.Text.{Text, text_eq}
use usdt_settlement_corridor.Base.Table.{find_by, select}
use usdt_settlement_corridor.Base.Count.{count_by, count_by-select, count_by-map, count_by-All_ext}
use usdt_settlement_corridor.Watcher.Pool.{Block, Provider, Pool, called}
use usdt_settlement_corridor.Watcher.Pool.Round.{
  ProviderResult, query_finalized, answered, successes, max_height, is_behind, in_tolerance, lowest,
  ref_height, hash_at_ref, Group, add_name, group_all, groups,
}
use usdt_settlement_corridor.Watcher.Pool.Groups.{
  backers, IsGrouped, backers-nil, IsGrouped-nil, backers-add_name, add_name-IsGrouped,
}
use usdt_settlement_corridor.Watcher.Pool.Names.{IsNamed}

-- Whether a provider holds a block to be final: it reports a height not below the block's, and its own
-- hash at that height is the block's.
unfoldable pub confirms : ℕ → Text → Provider → Bool
confirms height h q = elim q.finalized [
  | none ↦ false
  | some b ↦
      leb height b.height && elim (if b.height == height then some b.hash else q.hash_at height) [
        | none ↦ false
        | some x ↦ text_eq x h
      ]
]

-- Whether a provider votes for a hash: it is not too far behind, and holds the hash at the reference
-- height.
unfoldable pub votes_for : Pool → Text → Provider → Bool
votes_for p h q = elim q.finalized [
  | none ↦ false
  | some b ↦
      not (ltb ((b.height + p.finality_tolerance) % 2 ^ 64) (max_height (successes p)))
      && elim (if b.height == ref_height p then some b.hash else q.hash_at (ref_height p)) [
        | none ↦ false
        | some x ↦ text_eq x h
      ]
]

unfoldable pub votes : Pool → Text → ℕ
votes p h = count_by (votes_for p h) p.providers

unfoldable pub reports : List Provider → ℕ → Text → ProviderResult → Bool
reports ps ref h r = elim (hash_at_ref ps ref r) [ none ↦ false | some x ↦ text_eq x h ]

reports-none :
    (ps : List Provider) (ref : ℕ) (h : Text) (r : ProviderResult)
    → hash_at_ref ps ref r ≡ none
    → reports ps ref h r ≡ false
unfolding reports
reports-none ps ref h r e = rw (reports, e) refl

reports-some :
    (ps : List Provider) (ref : ℕ) (h : Text) (r : ProviderResult) (x : Text)
    → hash_at_ref ps ref r ≡ some x
    → reports ps ref h r ≡ text_eq x h
unfolding reports
reports-some ps ref h r x e = rw (reports, e) refl

group_all-backers :
    (ps : List Provider) (ref : ℕ) (h : Text) (rs : List ProviderResult) (gs : List Group)
    → backers h (group_all ps ref rs gs) ≡ backers h gs + count_by (reports ps ref h) rs
unfolding group_all count_by
group_all-backers ps ref h [] gs = omega arith
group_all-backers ps ref h (r ∷ rs) gs = elim (Option-cases (hash_at_ref ps ref r)) [
  | inl n ↦ rw (n, reports-none ps ref h r n) (group_all-backers ps ref h rs gs)
  | inr (x, e) ↦
      rw (e, reports-some ps ref h r x e)
        (ground (
          arith,
          group_all-backers ps ref h rs (add_name x r.name gs),
          backers-add_name x r.name h gs,
        ))
]

group_all-IsGrouped :
    (ps : List Provider) (ref : ℕ) (rs : List ProviderResult) (gs : List Group)
    → IsGrouped gs
    → IsGrouped (group_all ps ref rs gs)
unfolding group_all
group_all-IsGrouped ps ref [] gs k = k
group_all-IsGrouped ps ref (r ∷ rs) gs k = elim (Option-cases (hash_at_ref ps ref r)) [
  | inl n ↦ rw n (group_all-IsGrouped ps ref rs gs k)
  | inr (x, e) ↦
      rw e (group_all-IsGrouped ps ref rs (add_name x r.name gs) (add_name-IsGrouped x r.name gs k))
]

unfoldable pub near : Pool → ProviderResult → Bool
near p r = not (is_behind p.finality_tolerance (max_height (successes p)) r)

-- A count of the results in tolerance is a count of the providers.
pub in_tolerance-count :
    (p : Pool) (t : ProviderResult → Bool)
    → count_by t (in_tolerance p)
      ≡ count_by
          (λ q.
            (t (query_finalized q) && near p (query_finalized q)) && answered (query_finalized q))
          p.providers
unfolding near
in_tolerance-count p t =
    let close : ProviderResult → Bool = near p in
    let all : List ProviderResult = map query_finalized p.providers in
    count_by-select t close (select answered all)
    ∙ count_by-select (λ r. t r && close r) answered all
    ∙ count_by-map query_finalized (λ r. (t r && close r) && answered r) p.providers

lowest_le_start : (h : ℕ) (rs : List ProviderResult) → lowest h rs ≤ h
unfolding lowest
lowest_le_start h [] = omega arith
lowest_le_start h (r ∷ rs) =
    ground (arith, lowest_le_start (if ltb r.height h then r.height else h) rs)

pub lowest_le : (h : ℕ) (rs : List ProviderResult) → All (λ r. leb (lowest h rs) r.height ≡ true) rs
unfolding lowest
lowest_le h [] = tt
lowest_le h (r ∷ rs) =
    let next : ℕ = if ltb r.height h then r.height else h in
    (ground (arith, lowest_le_start next rs), lowest_le next rs)

unfoldable pub result : Provider → Block → ProviderResult
result q b = record { name = q.name; height = b.height; hash = b.hash; failed = false }

pub query_some : (q : Provider) (b : Block) → q.finalized ≡ some b → query_finalized q ≡ result q b
unfolding query_finalized result
query_some q b e = rw (query_finalized, e) refl

pub query_none : (q : Provider) → q.finalized ≡ none → answered (query_finalized q) ≡ false
unfolding query_finalized
query_none q e = rw (query_finalized, e) refl

votes_some :
    (p : Pool) (h : Text) (q : Provider) (b : Block)
    → q.finalized ≡ some b
    → votes_for p h q ≡ (
        near p (result q b)
        && elim (if b.height == ref_height p then some b.hash else q.hash_at (ref_height p)) [
          | none ↦ false
          | some x ↦ text_eq x h
        ])
unfolding votes_for result near is_behind
votes_some p h q b e = rw (votes_for, e) refl

votes_none : (p : Pool) (h : Text) (q : Provider) → q.finalized ≡ none → votes_for p h q ≡ false
unfolding votes_for
votes_none p h q e = rw (votes_for, e) refl

pub asked :
    (ps : List Provider) (ref : ℕ) (q : Provider) (b : Block)
    → find_by (called q.name) ps ≡ some q
    → hash_at_ref ps ref (result q b) ≡ (if b.height == ref then some b.hash else q.hash_at ref)
unfolding hash_at_ref result
asked ps ref q b e = rw (hash_at_ref, e) refl

and_false : (b : Bool) → b && false ≡ false
and_false true = refl
and_false false = refl

and_swap : (a b : Bool) → (a && b) && true ≡ b && a
and_swap true true = refl
and_swap true false = refl
and_swap false true = refl
and_swap false false = refl

-- A provider's vote is the report of its result.
vote_of :
    (p : Pool) (h : Text) (q : Provider)
    → find_by (called q.name) p.providers ≡ some q
    → ((reports p.providers (ref_height p) h (query_finalized q) && near p (query_finalized q))
        && answered (query_finalized q))
      ≡ votes_for p h q
unfolding reports result
vote_of p h q e = elim (Option-cases q.finalized) [
  | inl n ↦ rw (query_none q n, votes_none p h q n) (and_false _)
  | inr (b, n) ↦
      rw (query_some q b n, votes_some p h q b n, reports, asked p.providers (ref_height p) q b e)
        (and_swap _ (near p (result q b)))
]

pub groups-IsGrouped : (p : Pool) → IsGrouped (groups p)
groups-IsGrouped p =
    group_all-IsGrouped p.providers (ref_height p) (in_tolerance p) [] IsGrouped-nil

pub backers-reports :
    (p : Pool) (h : Text)
    → backers h (groups p) ≡ count_by (reports p.providers (ref_height p) h) (in_tolerance p)
backers-reports p h =
    ground
      (arith, group_all-backers p.providers (ref_height p) h (in_tolerance p) [], backers-nil h)

pub backers-votes : (p : Pool) (h : Text) → IsNamed p.providers → backers h (groups p) ≡ votes p h
unfolding votes IsNamed
backers-votes p h k =
    backers-reports p h
    ∙ in_tolerance-count p (reports p.providers (ref_height p) h)
    ∙ count_by-All_ext _ (votes_for p h) p.providers
        (All-map (λ q. find_by (called q.name) p.providers ≡ some q) _ p.providers (vote_of p h) k)
