-- ===== src/Watcher/Pool.antt =====
-- depositwatcher/internal/chain/pool.go and health.go: the providers and the health of each.
use usdt_settlement_corridor.Base.{
  ℕ, zero, suc, ◌+◌, ◌%◌, ◌^◌, Bool, true, false, ◌&&◌, ◌||◌, not, List, [], ◌∷◌, ◌++◌, map, Option,
  none, some, ◌⊎◌, inl, inr, ltb, leb, ◌==◌, if◌then◌else◌, length,
}
use usdt_settlement_corridor.Base.Int.{ℤ, pos, negsuc}
use usdt_settlement_corridor.Base.Text.{Text, text_eq, is_empty}
use usdt_settlement_corridor.Watcher.Transfers.{Log}
use usdt_settlement_corridor.Base.Table.{find_by, exists_by, select, update_by}
pub mod Logs
pub mod Round
pub mod Copies
pub mod Groups
pub mod Leading
pub mod Contest
pub mod Names
pub mod Votes
pub mod Confirmed
pub mod Agreement
pub mod Shown
pub mod Deposits

-- A block that a provider reports.
pub record Block : Type 0 where
  pub height : ℕ
  pub hash : Text

-- A configured provider, with what it answers in this round to `queryFinalized`, `queryBlockHashAt` and
-- `FilterLogs` (the contract's transfers in a range of blocks), where none is any error.
pub record Provider : Type 0 where
  pub name : Text
  pub has_client : Bool
  pub finalized : Option Block
  pub hash_at : ℕ → Option Text
  pub filter_logs : ℕ → ℕ → Option (List Log)

-- What the code passes to recordFailure.
pub data Failure : Type 0 where
  not_answered too_far_behind no_hash not_agreed : Failure

pub record Health : Type 0 where
  pub name : Text
  pub consecutive_failures : ℕ
  pub total_rounds : ℕ
  pub total_failures : ℕ
  pub last_error : Option Failure
  pub last_success_at : ℕ

-- A nonpositive value stands for the default.
pub record PoolConfig : Type 0 where
  pub min_agreement : ℤ
  pub unhealthy_after : ℤ
  pub finality_tolerance : ℕ

pub record Pool : Type 0 where
  pub providers : List Provider
  pub min_agreement : ℕ
  pub unhealthy_after : ℕ
  pub finality_tolerance : ℕ
  pub health : List Health

pub data PoolError : Type 0 where
  too_few_providers empty_name nil_client duplicate_name agreement_unreachable : PoolError

abbrev pub called : Text → Provider → Bool
called n p = text_eq p.name n

unfoldable pub check_providers : List Provider → List Provider → Option PoolError
check_providers seen [] = none
check_providers seen (p ∷ ps) =
    if is_empty p.name
    then some empty_name
    else if not p.has_client
    then some nil_client
    else if exists_by (called p.name) seen
    then some duplicate_name
    else check_providers (p ∷ seen) ps

unfoldable pub positive_or : ℕ → ℤ → ℕ
positive_or d (pos zero) = d
positive_or d (pos (suc n)) = suc n
positive_or d (negsuc n) = d

abbrev pub no_rounds : Provider → Health
no_rounds p = record {
  name = p.name;
  consecutive_failures = 0;
  total_rounds = 0;
  total_failures = 0;
  last_error = none;
  last_success_at = 0;
}

-- `NewPool`.
unfoldable pub new_pool : List Provider → PoolConfig → PoolError ⊎ Pool
new_pool ps cfg =
    if ltb (length ps) 2 then inl too_few_providers else elim (check_providers [] ps) [
      | some e ↦ inl e
      | none ↦
          let least = positive_or 2 cfg.min_agreement in
          if ltb (length ps) least
          then inl agreement_unreachable
          else inr record {
            providers = ps;
            min_agreement = least;
            unhealthy_after = positive_or 3 cfg.unhealthy_after;
            finality_tolerance = positive_or 5 (pos cfg.finality_tolerance);
            health = map no_rounds ps;
          }
    ]

abbrev pub health_of : Text → Health → Bool
health_of n h = text_eq h.name n

unfoldable pub record_success : ℕ → Text → Pool → Pool
record_success now n p = record p {
  health =
      update_by (health_of n)
        (λ h. record h {
          consecutive_failures = 0;
          total_rounds = suc h.total_rounds;
          last_success_at = now;
        })
        p.health;
}

unfoldable pub record_failure : Failure → Text → Pool → Pool
record_failure e n p = record p {
  health =
      update_by (health_of n)
        (λ h. record h {
          consecutive_failures = suc h.consecutive_failures;
          total_rounds = suc h.total_rounds;
          total_failures = suc h.total_failures;
          last_error = some e;
        })
        p.health;
}

-- `Healthy` of a provider's snapshot.
abbrev pub is_healthy : Pool → Health → Bool
is_healthy p h = ltb h.consecutive_failures p.unhealthy_after
