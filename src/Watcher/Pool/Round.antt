-- ===== src/Watcher/Pool/Round.antt =====
-- depositwatcher/internal/chain/finality.go: the block that enough providers hold to be final.
use usdt_settlement_corridor.Base.{
  ℕ, ◌+◌, ◌%◌, ◌^◌, Bool, true, false, ◌&&◌, ◌||◌, not, List, [], ◌∷◌, ◌++◌, map, Option, none,
  some, ltb, ◌==◌, if◌then◌else◌, length,
}
use usdt_settlement_corridor.Base.Text.{Text, text_eq}
use usdt_settlement_corridor.Base.Table.{find_by, select}
use usdt_settlement_corridor.Watcher.Pool.{
  Provider, Pool, called, record_success, record_failure, not_answered, too_far_behind, no_hash,
  not_agreed,
}

pub record ProviderResult : Type 0 where
  pub name : Text
  pub height : ℕ
  pub hash : Text
  pub failed : Bool

unfoldable pub query_finalized : Provider → ProviderResult
query_finalized p = elim p.finalized [
  | none ↦ record { name = p.name; height = 0; hash = []; failed = true }
  | some b ↦ record { name = p.name; height = b.height; hash = b.hash; failed = false }
]

abbrev pub answered : ProviderResult → Bool
answered r = not r.failed

abbrev pub successes : Pool → List ProviderResult
successes p = select answered (map query_finalized p.providers)

-- The loop for `maxHeight`.
unfoldable pub highest : ℕ → List ProviderResult → ℕ
highest h [] = h
highest h (r ∷ rs) = highest (if ltb h r.height then r.height else h) rs

abbrev pub max_height : List ProviderResult → ℕ
max_height [] = 0
max_height (r ∷ rs) = highest r.height rs

-- The sum is a uint64, and wraps.
unfoldable pub is_behind : ℕ → ℕ → ProviderResult → Bool
is_behind tolerance most r = ltb ((r.height + tolerance) % 2 ^ 64) most

abbrev pub in_tolerance : Pool → List ProviderResult
in_tolerance p =
    select (λ r. not (is_behind p.finality_tolerance (max_height (successes p)) r)) (successes p)

-- The loop for `refHeight`.
unfoldable pub lowest : ℕ → List ProviderResult → ℕ
lowest h [] = h
lowest h (r ∷ rs) = lowest (if ltb r.height h then r.height else h) rs

abbrev pub ref_height : Pool → ℕ
ref_height p = lowest (max_height (successes p)) (in_tolerance p)

-- The hash at the reference height. A name that no provider has would panic: names come from the pool.
unfoldable pub hash_at_ref : List Provider → ℕ → ProviderResult → Option Text
hash_at_ref ps ref r =
    if r.height == ref
    then some r.hash
    else elim (find_by (called r.name) ps) [ none ↦ none | some p ↦ p.hash_at ref ]

-- The providers that report a hash: an entry of the map `groups`.
pub record Group : Type 0 where
  pub hash : Text
  pub names : List Text

unfoldable pub add_name : Text → Text → List Group → List Group
add_name h n [] = record { hash = h; names = n ∷ [] } ∷ []
add_name h n (g ∷ gs) =
    if text_eq g.hash h then record g { names = g.names ++ (n ∷ []) } ∷ gs else g ∷ add_name h n gs

unfoldable pub group_all : List Provider → ℕ → List ProviderResult → List Group → List Group
group_all ps ref [] gs = gs
group_all ps ref (r ∷ rs) gs =
    group_all ps ref rs (elim (hash_at_ref ps ref r) [ none ↦ gs | some h ↦ add_name h r.name gs ])

abbrev pub groups : Pool → List Group
groups p = group_all p.providers (ref_height p) (in_tolerance p) []

-- `winnerHash`, `winnerCount` and `ambiguous`.
pub record Winner : Type 0 where
  pub hash : Text
  pub count : ℕ
  pub ambiguous : Bool

unfoldable pub contend : ℕ → Winner → Group → Winner
contend least w g =
    if ltb (length g.names) least
    then w
    else if w.count == 0
    then record w { hash = g.hash; count = length g.names }
    else if length g.names == w.count
    then record w { ambiguous = true }
    else if ltb w.count (length g.names)
    then record { hash = g.hash; count = length g.names; ambiguous = false }
    else w

unfoldable pub contend_all : ℕ → Winner → List Group → Winner
contend_all least w [] = w
contend_all least w (g ∷ gs) = contend_all least (contend least w g) gs

abbrev pub no_winner : Winner
no_winner = record { hash = []; count = 0; ambiguous = false }

abbrev pub winner : Pool → Winner
winner p = contend_all p.min_agreement no_winner (groups p)

unfoldable pub record_each : (Text → Pool → Pool) → List Text → Pool → Pool
record_each f [] p = p
record_each f (n ∷ ns) p = record_each f ns (f n p)

-- The failures of the round before the hashes are compared: no answer, too far behind, no hash.
unfoldable pub record_round : Pool → Pool → Pool
record_round q p =
    let behind : ProviderResult → Bool =
      is_behind q.finality_tolerance (max_height (successes q)) in
    let lost : ProviderResult → Bool =
      λ r. elim (hash_at_ref q.providers (ref_height q) r) [ none ↦ true | some h ↦ false ] in
    let name_of : ProviderResult → Text = λ r. r.name in
    let failed = select (λ r. r.failed) (map query_finalized q.providers) in
    let p1 = record_each (record_failure not_answered) (map name_of failed) p in
    let p2 =
      record_each (record_failure too_far_behind) (map name_of (select behind (successes q))) p1 in
    record_each (record_failure no_hash) (map name_of (select lost (in_tolerance q))) p2

unfoldable pub record_groups : ℕ → Winner → List Group → Pool → Pool
record_groups now w [] p = p
record_groups now w (g ∷ gs) p = record_groups now w gs (
    if ltb 0 w.count && not w.ambiguous && text_eq g.hash w.hash
    then record_each (record_success now) g.names p
    else record_each (record_failure not_agreed) g.names p)

-- One group below the threshold is not penalised.
unfoldable pub record_agreement : ℕ → Winner → List Group → Pool → Pool
record_agreement now w gs p =
    if ltb 1 (length gs) || ltb 0 w.count then record_groups now w gs p else p

pub data FinalizedAnswer : Type 0 where
  no_agreement ambiguous_agreement : FinalizedAnswer
  agreed : ℕ → Text → FinalizedAnswer

unfoldable pub answer : ℕ → Winner → FinalizedAnswer
answer ref w =
    if w.ambiguous
    then ambiguous_agreement
    else if w.count == 0
    then no_agreement
    else agreed ref w.hash

-- `LatestFinalized`: the answer, and the pool with the health of the round.
unfoldable pub latest_finalized : ℕ → Pool → FinalizedAnswer × Pool
latest_finalized now p = (
  answer (ref_height p) (winner p),
  record_agreement now (winner p) (groups p) (record_round p p),
)
