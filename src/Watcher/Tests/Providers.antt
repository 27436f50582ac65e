-- ===== src/Watcher/Tests/Providers.antt =====
-- Runs of the provider pool at fixed inputs: two providers agree, one holds another block, one is
-- behind, one does not answer.
use usdt_settlement_corridor.Base.{
  All, take, length, false, ◌<◌, ℕ, ◌≤◌, ◌≡◌, ◌↔◌, refl, true, [], ◌∷◌, List, none, some, inl, inr,
  arith,
}
use usdt_settlement_corridor.Base.Int.{pos}
use usdt_settlement_corridor.Base.Text.{Text, bytes, text_eq}
use usdt_settlement_corridor.Base.Table.{find_by, exists_by, select, update_by}
use usdt_settlement_corridor.Base.Count.{count_by}
use usdt_settlement_corridor.Watcher.Tracker.{
  same_key, check_stale_pending, check_finality, verify_heights, heights, verify_answer,
  verify_pending, finalize, check_post_final_reorgs, recheck_heights, recheck_answer,
  verify_finalized,
}
use usdt_settlement_corridor.Watcher.Tracker.Counts.{is_accepted}
use usdt_settlement_corridor.Watcher.Tracker.Invariant.{Calls-new_tracker}
use usdt_settlement_corridor.Watcher.Tests.{
  first_key, candidate, final, config, watching, watching-Calls,
}
use usdt_settlement_corridor.Watcher.Pool.{
  Provider, Pool, PoolConfig, duplicate_name, agreement_unreachable, check_providers, positive_or,
  new_pool, no_rounds,
}
use usdt_settlement_corridor.Watcher.Pool.Round.{
  no_agreement, ambiguous_agreement, agreed, query_finalized, highest, is_behind, lowest,
  ref_height, hash_at_ref, add_name, group_all, contend, contend_all, answer, latest_finalized,
}
use usdt_settlement_corridor.Base.Sort.{insert_by, sort_by}
use usdt_settlement_corridor.Watcher.Transfers.{Log}
use usdt_settlement_corridor.Watcher.Pool.Logs.{
  topics_equal, log_before, log_equal, pairs_equal, logs_equal, compare_logs, logs_of, logs_at,
  secondary_failed, log_mismatch,
}
use usdt_settlement_corridor.Watcher.Pool.Copies.{copies, logs_at_copies}
use usdt_settlement_corridor.Watcher.Pool.Shown.{keys_of, shows}
use usdt_settlement_corridor.Watcher.Pool.Names.{new_pool-IsPool}
use usdt_settlement_corridor.Watcher.Pool.Agreement.{IsAgreed, latest_finalized_iff}
use usdt_settlement_corridor.Watcher.Pool.Deposits.{
  final_height, asking, reaches, check_finality_confirmed,
}

abbrev seen_log : Log
seen_log = record {
  address = bytes "usdt";
  topics = bytes "transfer" ∷ [];
  payload = bytes "5";
  block_number = 10;
  tx_hash = 7 ∷ 255 ∷ [];
  tx_index = 2;
  log_index = 3;
  block_hash = 170 ∷ [];
  removed = false;
}

abbrev other_log : Log
other_log = record seen_log { tx_index = 1; log_index = 1 }

abbrev provider : Text → ℕ → Text → Provider
provider n h x = record {
  name = n;
  has_client = true;
  finalized = some record { height = h; hash = x };
  hash_at = λ i. some x;
  filter_logs = λ i j. some (seen_log ∷ other_log ∷ []);
}

abbrev silent : Provider
silent = record {
  name = bytes "e";
  has_client = true;
  finalized = none;
  hash_at = λ i. none;
  filter_logs = λ i j. none;
}

abbrev providers : List Provider
providers =
    provider (bytes "a") 12 (170 ∷ [])
    ∷ provider (bytes "b") 13 (170 ∷ [])
    ∷ provider (bytes "c") 12 (187 ∷ [])
    ∷ provider (bytes "d") 3 (170 ∷ [])
    ∷ silent
    ∷ []

abbrev defaults : PoolConfig
defaults = record { min_agreement = pos 0; unhealthy_after = pos 0; finality_tolerance = 0 }

abbrev pool : Pool
pool = record {
  providers = providers;
  min_agreement = 2;
  unhealthy_after = 3;
  finality_tolerance = 5;
  health =
      no_rounds (provider (bytes "a") 12 (170 ∷ []))
      ∷ no_rounds (provider (bytes "b") 13 (170 ∷ []))
      ∷ no_rounds (provider (bytes "c") 12 (187 ∷ []))
      ∷ no_rounds (provider (bytes "d") 3 (170 ∷ []))
      ∷ no_rounds silent
      ∷ [];
}

-- The second provider sends the logs in another order and knows another hash of the block.
abbrev shuffled : Provider
shuffled = record (provider (bytes "b") 13 (170 ∷ [])) {
  filter_logs = λ i j. some (other_log ∷ record seen_log { block_hash = 187 ∷ [] } ∷ []);
}

abbrev two : Pool
two = record pool { providers = provider (bytes "a") 12 (170 ∷ []) ∷ shuffled ∷ [] }

logs :
    ((logs_at 9 10 10 two).0 ≡ inr (other_log ∷ seen_log ∷ []))
    × ((logs_at 9 10 10 (record two { providers = shuffled ∷ silent ∷ [] })).0
        ≡ inl secondary_failed)
    × ((logs_at 9 10 10 (record two {
      providers = record shuffled { filter_logs = λ i j. some (other_log ∷ []) } ∷ shuffled ∷ [];
    })).0
        ≡ inl log_mismatch)
unfolding logs_at logs_of compare_logs logs_equal pairs_equal log_equal topics_equal log_before
    sort_by insert_by text_eq
logs = (refl, refl, refl)

logs_at_copies_example :
    (1 < length two.providers)
    × All
        (λ q.
          copies 10 10 seen_log q
          ≡ some (count_by (log_equal seen_log) (other_log ∷ seen_log ∷ [])))
        (take 2 two.providers)
logs_at_copies_example = logs_at_copies 9 10 10 two (other_log ∷ seen_log ∷ []) seen_log logs.0

built : new_pool providers defaults ≡ inr pool
unfolding new_pool check_providers positive_or text_eq exists_by
built = refl

refused :
    (new_pool (silent ∷ silent ∷ []) defaults ≡ inl duplicate_name)
    × (new_pool providers (record defaults { min_agreement = pos 6 }) ≡ inl agreement_unreachable)
unfolding new_pool check_providers positive_or text_eq exists_by
refused = (refl, refl)

answers :
    ((latest_finalized 9 pool).0 ≡ agreed 12 (170 ∷ []))
    × ((latest_finalized 9 (record pool { min_agreement = 3 })).0 ≡ no_agreement)
    × ((latest_finalized 9 (record pool { min_agreement = 1 })).0 ≡ agreed 12 (170 ∷ []))
    × ((latest_finalized 9 (record pool {
      providers = provider (bytes "a") 12 (170 ∷ []) ∷ provider (bytes "c") 12 (187 ∷ []) ∷ [];
      min_agreement = 1;
    })).0
        ≡ ambiguous_agreement)
unfolding latest_finalized answer contend_all contend group_all hash_at_ref add_name lowest highest
    is_behind select query_finalized find_by text_eq
answers = (refl, refl, refl, refl)

latest_finalized_iff_example :
    ((latest_finalized 9 pool).0 ≡ agreed 12 (170 ∷ []))
    ↔ ((ref_height pool ≡ 12) × IsAgreed pool (170 ∷ []))
latest_finalized_iff_example =
    latest_finalized_iff 9 pool 12 (170 ∷ []) (new_pool-IsPool providers defaults pool built)

accepted_now :
    (count_by (is_accepted first_key) watching.events ≡ 0)
    × (count_by
          (is_accepted first_key)
          (check_finality config (asking 9 pool final) 9 watching).1.events
        ≡ 1)
unfolding latest_finalized answer contend_all contend group_all hash_at_ref add_name lowest highest
    is_behind select query_finalized find_by text_eq check_stale_pending update_by same_key
    final_height check_finality verify_heights keys_of logs_at logs_of compare_logs logs_equal
    pairs_equal log_equal topics_equal log_before sort_by insert_by heights verify_answer
    verify_pending finalize check_post_final_reorgs recheck_heights recheck_answer verify_finalized
    count_by exists_by is_accepted
accepted_now = (refl, refl)

check_finality_confirmed_example :
    (2 ≤ count_by (reaches 10) providers)
    × All (λ q. shows 10 first_key q ≡ true) (take 2 providers)
unfolding latest_finalized answer contend_all contend group_all hash_at_ref add_name lowest highest
    is_behind select query_finalized find_by text_eq check_stale_pending update_by same_key
check_finality_confirmed_example =
    check_finality_confirmed first_key config final 9 pool watching candidate
      (new_pool-IsPool providers defaults pool built) (Calls-new_tracker watching watching-Calls)
      refl (omega (arith, accepted_now))
