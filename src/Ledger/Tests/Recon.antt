-- ===== src/Ledger/Tests/Recon.antt =====
-- Runs of the reconciliation: a drift that halts, one that wraps, a sound and an unsound ledger.
use usdt_settlement_corridor.Base.{
  ◌≡◌, ◌≢◌, refl, true, false, ◌||◌, List, [], ◌∷◌, none, All, arith,
}
use usdt_settlement_corridor.Base.Text.{bytes, text_eq, text_lt}
use usdt_settlement_corridor.Base.Int.{
  pos, negsuc, ◌-ℤ◌, ◌+ℤ◌, sub64, neg64, wrap64, min_int64, IsInt64,
}
use usdt_settlement_corridor.Base.Table.{find_by, select}
use usdt_settlement_corridor.Base.Sort.{sort_by, insert_by}
use usdt_settlement_corridor.Ledger.Error.{Result, ok, err}
use usdt_settlement_corridor.Ledger.Money.{usdt_bep20}
use usdt_settlement_corridor.Ledger.Database.{Store, empty_store}
use usdt_settlement_corridor.Ledger.Accounts.{get_by_code}
use usdt_settlement_corridor.Ledger.Halt.{is_halted, set_halt}
use usdt_settlement_corridor.Ledger.Journal.Balances.{
  Discrepancy, account_total, cached_units, scan_int64, scan_discrepancies, balance_as_of,
  verify_balances,
}
use usdt_settlement_corridor.Ledger.Journal.SelfCheck.{Agrees}
use usdt_settlement_corridor.Ledger.Recon.{
  Config, SnapshotParams, SnapshotResult, validate_snapshot, abs64, judge_drift, ingest_snapshot,
  run_once,
}
use usdt_settlement_corridor.Ledger.Recon.Drift.{outside, ingest_snapshot_drift}
use usdt_settlement_corridor.Ledger.Recon.SelfCheck.{run_once_detects}
use usdt_settlement_corridor.Ledger.Tests.Data.{hot, owed, deposited}

abbrev ledger_store : Store
ledger_store = record empty_store { books = deposited }

abbrev strict : Config
strict = record { trx_tolerance_units = pos 0; corridor_ceilings = λ asset. none }

abbrev too_much : SnapshotParams
too_much = record {
  account_code = bytes "asset:hot";
  observed_units = pos 7;
  chain_ref = bytes "block-1";
  watermark = pos 1;
  observed_at = 5;
}

-- The customer's account stands at -5.
abbrev far_off : SnapshotParams
far_off = record too_much {
  account_code = bytes "liability:customer";
  observed_units = pos 9_223_372_036_854_775_803;
}

abbrev result_of : Result (SnapshotResult × Store) → SnapshotResult × Store
result_of (ok r) = r
result_of (err e) = (record { drift_units = pos 0; halted = false }, empty_store)

snapshot_runs :
    (ingest_snapshot strict too_much ledger_store
      ≡ ok (result_of (ingest_snapshot strict too_much ledger_store)))
    × (ingest_snapshot strict far_off ledger_store
        ≡ ok (result_of (ingest_snapshot strict far_off ledger_store)))
    × (validate_snapshot too_much ≡ ok 1)
    × (validate_snapshot far_off ≡ ok 1)
    × (get_by_code deposited.accounts (bytes "asset:hot") ≡ ok hot)
    × (get_by_code deposited.accounts (bytes "liability:customer") ≡ ok owed)
    × (balance_as_of deposited (bytes "asset:hot") 1
        ≡ ok (record { asset = usdt_bep20; units = pos 5 }))
    × (balance_as_of deposited (bytes "liability:customer") 1
        ≡ ok (record { asset = usdt_bep20; units = negsuc 4 }))
    × (sub64 (pos 9_223_372_036_854_775_803) (negsuc 4) ≡ min_int64)
unfolding ingest_snapshot validate_snapshot get_by_code find_by text_eq balance_as_of scan_int64
    account_total select ◌+ℤ◌ ◌-ℤ◌ sub64 wrap64 judge_drift abs64 neg64 set_halt
snapshot_runs = (refl, refl, refl, refl, refl, refl, refl, refl, refl)

drift_fits : IsInt64 (pos 7 -ℤ pos 5) × (pos 7 -ℤ pos 5 ≢ min_int64)
unfolding ◌-ℤ◌
drift_fits = ((omega arith, omega arith), λ h. cc)

ingest_snapshot_drift_example :
    ((result_of (ingest_snapshot strict too_much ledger_store)).0.drift_units ≡ pos 7 -ℤ pos 5)
    × ((result_of (ingest_snapshot strict too_much ledger_store)).0.halted
        ≡ outside (pos 0) (pos 7 -ℤ pos 5))
    × (is_halted (result_of (ingest_snapshot strict too_much ledger_store)).1
        ≡ (is_halted ledger_store || outside (pos 0) (pos 7 -ℤ pos 5)))
ingest_snapshot_drift_example =
    ingest_snapshot_drift strict too_much ledger_store
      (result_of (ingest_snapshot strict too_much ledger_store)).0
      (result_of (ingest_snapshot strict too_much ledger_store)).1 1 0 hot
      (record { asset = usdt_bep20; units = pos 5 }) snapshot_runs.0 snapshot_runs.2 snapshot_runs.4
      snapshot_runs.6 refl drift_fits.0 drift_fits.1

abbrev unsound : Store
unsound = record ledger_store { books = record deposited { balances = [] } }

abbrev discrepancies : List Discrepancy
discrepancies =
    record {
      account_id = 1;
      account_code = bytes "asset:hot";
      asset = usdt_bep20;
      cached = pos 0;
      computed = pos 5;
    }
    ∷ record {
      account_id = 2;
      account_code = bytes "liability:customer";
      asset = usdt_bep20;
      cached = pos 0;
      computed = negsuc 4;
    }
    ∷ []

unsound_found :
    (verify_balances unsound.books ≡ ok discrepancies)
    × ¬ (All (Agrees unsound.books) unsound.books.accounts)
unfolding verify_balances sort_by insert_by text_lt select cached_units account_total
    scan_discrepancies scan_int64 ◌+ℤ◌
unsound_found = (refl, λ h. five h.0)
  where
    five : pos 0 ≡ pos 5 → ⊥
    five e = cc

run_once_detects_example : is_halted (run_once unsound) ≡ true
run_once_detects_example = run_once_detects unsound discrepancies unsound_found.0 unsound_found.1
