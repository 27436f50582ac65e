-- ===== src/Watcher/Tests.antt =====
-- Runs of the tracker at fixed inputs: a deposit that becomes final, and one that is reorged out after.
use usdt_settlement_corridor.Base.{
  ◌+◌, ◌≡◌, refl, true, false, ◌&&◌, [], ◌∷◌, none, some, arith, if◌then◌else◌,
}
use usdt_settlement_corridor.Base.Int.{pos}
use usdt_settlement_corridor.Base.Text.{bytes, text_eq}
use usdt_settlement_corridor.Base.Hex.{hex}
use usdt_settlement_corridor.Base.Table.{find_by, exists_by, select, update_by}
use usdt_settlement_corridor.Base.Count.{count_by}
use usdt_settlement_corridor.Ledger.Money.Decimal.{format_nat}
use usdt_settlement_corridor.Watcher.Classify.{
  exact, overpay, dust, zero_value, default_dust_floor, classify_against_order,
}
use usdt_settlement_corridor.Watcher.Tracker.{
  Key, same_key, ObservedLog, Candidate, detected, accepted, contradiction, withdrawn, Tracker,
  new_tracker, Outside, Config, on_log_observed, check_stale_pending, finalize, verify_pending,
  verify_answer, verify_heights, heights, handle_post_final_reorg, verify_finalized, recheck_answer,
  recheck_heights, check_post_final_reorgs, check_finality, deposit_final_idempotency_key,
  oldest_from, oldest_pending_detected_at,
}
use usdt_settlement_corridor.Watcher.Tracker.Counts.{count_key, is_accepted, is_withdrawn}
use usdt_settlement_corridor.Watcher.Tracker.Steps.{reports}
use usdt_settlement_corridor.Watcher.Tracker.Ticks.{missing}
use usdt_settlement_corridor.Watcher.Tracker.Invariant.{
  IsTracker, Calls, none_yet, one_more, observed, ticked, Calls-new_tracker,
}
use usdt_settlement_corridor.Watcher.Tracker.Effect.{
  finalizes, untracks, check_finality_pending, check_finality_finalized,
}
use usdt_settlement_corridor.Watcher.Tracker.Keys.{deposit_final_idempotency_key_inj}
mod Providers
mod Amounts

abbrev pub first_key : Key
first_key = record { tx_hash = 7 ∷ 255 ∷ []; log_index = 3 }

abbrev second_key : Key
second_key = record { tx_hash = 7 ∷ 255 ∷ []; log_index = 3 }

abbrev pub deposit : ObservedLog
deposit = record {
  key = first_key;
  height = 10;
  block_time = 100;
  order_id = 1;
  external_id = bytes "order-1";
  customer_id = bytes "c1";
  amount = pos 5_000_000;
  sender_address = bytes "0xab";
}

abbrev pub candidate : Candidate
candidate = record {
  log = deposit;
  classification = exact;
  detected_at = 1;
  alerted_stale = false;
  contradicted = false;
}

-- The providers agree on height 12 and on the log, and the ledger takes the deposit.
abbrev pub final : Outside
final = record {
  latest_finalized = some 12;
  logs_at = λ h. some (first_key ∷ []);
  logs_again = λ h. some (first_key ∷ []);
  on_final = λ c. none;
  record_orphaned = λ c. true;
  report_reorg = λ order key. true;
}

-- Later the log is gone.
abbrev reorged : Outside
reorged = record final { logs_again = λ h. some [] }

abbrev pub config : Config
config = record { alerts_stale = true; stale_pending_ceiling = 300 }

abbrev pub watching : Tracker
watching = record { pending = candidate ∷ []; finalized = []; events = detected first_key ∷ [] }

abbrev finalized : Tracker
finalized = record {
  pending = [];
  finalized = candidate ∷ [];
  events = detected first_key ∷ accepted first_key ∷ [];
}

runs :
    (classify_against_order (pos 5_000_000) (pos 5_000_000) default_dust_floor ≡ exact)
    × (classify_against_order (pos 0) (pos 0) default_dust_floor ≡ zero_value)
    × (classify_against_order (pos 999_999) (pos 5_000_000) default_dust_floor ≡ dust)
    × (on_log_observed 1 deposit exact new_tracker ≡ watching)
    × (on_log_observed 2 deposit overpay watching ≡ watching)
    × (oldest_pending_detected_at watching ≡ some 1)
    × (check_finality config final 5 watching ≡ (true, finalized))
    × (check_finality config reorged 9 finalized ≡ (
      true,
      record {
        pending = [];
        finalized = [];
        events =
            detected first_key
            ∷ accepted first_key
            ∷ contradiction first_key
            ∷ withdrawn first_key
            ∷ [];
      },
    ))
    × (deposit_final_idempotency_key first_key ≡ bytes "watcher:deposit_final:0x07ff:3")
unfolding classify_against_order on_log_observed same_key text_eq exists_by check_finality
    check_stale_pending select update_by verify_heights heights verify_answer verify_pending
    finalize check_post_final_reorgs recheck_heights recheck_answer verify_finalized
    handle_post_final_reorg deposit_final_idempotency_key hex format_nat oldest_from
runs = (refl, refl, refl, refl, refl, refl, refl, refl, refl)

pub watching-Calls : Calls new_tracker watching
unfolding on_log_observed same_key text_eq exists_by
watching-Calls = one_more new_tracker watching none_yet (observed 1 deposit exact)

finalized-Calls : Calls new_tracker finalized
unfolding same_key text_eq exists_by check_finality check_stale_pending select update_by
    verify_heights heights verify_answer verify_pending finalize check_post_final_reorgs
    recheck_heights recheck_answer verify_finalized
finalized-Calls = one_more watching finalized watching-Calls (ticked config final 5)

Calls-new_tracker_example : IsTracker finalized
Calls-new_tracker_example = Calls-new_tracker finalized finalized-Calls

check_finality_pending_example :
    (count_by (is_accepted first_key) (check_finality config final 5 watching).1.events
      ≡ count_by (is_accepted first_key) watching.events
        + (if finalizes final 12 candidate then 1 else 0))
    × (count_key first_key (check_finality config final 5 watching).1.pending
        ≡ (if untracks final 12 candidate then 0 else 1))
unfolding check_stale_pending select update_by find_by same_key text_eq
check_finality_pending_example =
    check_finality_pending first_key config final 5 12 watching candidate
      (Calls-new_tracker watching watching-Calls) refl refl

check_finality_finalized_example :
    (count_by (is_withdrawn first_key) (check_finality config reorged 9 finalized).1.events
      ≡ count_by (is_withdrawn first_key) finalized.events
        + (if missing (some []) candidate && reports reorged candidate then 1 else 0))
    × (count_key first_key (check_finality config reorged 9 finalized).1.finalized
        ≡ (if missing (some []) candidate && reports reorged candidate then 0 else 1))
unfolding check_stale_pending select update_by find_by same_key text_eq verify_heights heights
check_finality_finalized_example =
    check_finality_finalized first_key config reorged 9 12 finalized candidate
      (Calls-new_tracker finalized finalized-Calls) refl refl

deposit_final_idempotency_key_inj_example : first_key ≡ second_key
unfolding deposit_final_idempotency_key
deposit_final_idempotency_key_inj_example =
    deposit_final_idempotency_key_inj first_key second_key (omega arith, (omega arith, tt))
      (omega arith, (omega arith, tt)) refl (omega arith) (omega arith) refl
