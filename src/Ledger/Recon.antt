-- ===== src/Ledger/Recon.antt =====
-- ledger/internal/recon: snapshots of what the chain holds, and the periodic self-check. The interval,
-- the log lines and the JSON detail of a halt are left out.
pub mod Drift
pub mod SelfCheck
use usdt_settlement_corridor.Base.{
  ℕ, zero, suc, Bool, true, false, ◌||◌, not, List, [], ◌∷◌, ◌++◌, Option, none, some, ◌==◌,
  if◌then◌else◌,
}
use usdt_settlement_corridor.Base.Text.{Text, bytes, is_empty}
use usdt_settlement_corridor.Base.Int.{ℤ, pos, negsuc, eqb_ℤ, ltb_ℤ, sub64, neg64}
use usdt_settlement_corridor.Ledger.Error.{
  invalid_snapshot_params, Result, ok, err, ◌>>=◌, ◌>>◌, fail_if, or_fail,
}
use usdt_settlement_corridor.Ledger.Money.{Asset, trx, asset_eq}
use usdt_settlement_corridor.Ledger.Database.{SnapshotRow, Store}
use usdt_settlement_corridor.Ledger.Accounts.{get_by_code}
use usdt_settlement_corridor.Ledger.Journal.Balances.{
  balance, balance_as_of, verify_balances, trial_balance,
}
use usdt_settlement_corridor.Ledger.Halt.{
  reason_trial_balance_broken, reason_cache_divergence, reason_balance_drift, set_halt, is_halted,
}

-- `Config`; a ceiling that is not set is `none`.
pub record Config : Type 0 where
  pub trx_tolerance_units : ℤ
  pub corridor_ceilings : Asset → Option ℤ

abbrev pub tolerance_for : Config → Asset → ℤ
tolerance_for cfg asset = if asset_eq asset trx then cfg.trx_tolerance_units else pos 0

pub record SnapshotParams : Type 0 where
  pub account_code : Text
  pub observed_units : ℤ
  pub chain_ref : Text
  pub watermark : ℤ
  pub observed_at : ℕ

pub record SnapshotResult : Type 0 where
  pub drift_units : ℤ
  pub halted : Bool

-- A watermark that is positive.
abbrev pub entry_id_of : ℤ → Option ℕ
entry_id_of (pos zero) = none
entry_id_of (pos (suc n)) = some (suc n)
entry_id_of (negsuc n) = none

unfoldable pub validate_snapshot : SnapshotParams → Result ℕ
validate_snapshot p = do
  fail_if (is_empty p.account_code) invalid_snapshot_params
  fail_if (is_empty p.chain_ref) invalid_snapshot_params
  watermark ← or_fail (entry_id_of p.watermark) invalid_snapshot_params
  fail_if (p.observed_at == 0) invalid_snapshot_params
  ok watermark

-- `absDrift := drift; if absDrift < 0 { absDrift = -absDrift }`.
unfoldable pub abs64 : ℤ → ℤ
abs64 n = if ltb_ℤ n (pos 0) then neg64 n else n

abbrev pub snapshot_actor : Text
snapshot_actor = bytes "recon:snapshot_ingestion"

abbrev pub self_check_actor : Text
self_check_actor = bytes "recon:self_check"

-- The halt that ends IngestSnapshot, unless the drift is within the tolerance.
unfoldable pub judge_drift : ℤ → ℤ → Store → SnapshotResult × Store
judge_drift tolerance drift s =
    if not (ltb_ℤ tolerance (abs64 drift))
    then (record { drift_units = drift; halted = false }, s)
    else (
      record { drift_units = drift; halted = true },
      set_halt reason_balance_drift snapshot_actor s,
    )

unfoldable pub ingest_snapshot : Config → SnapshotParams → Store → Result (SnapshotResult × Store)
ingest_snapshot cfg p s = do
  watermark ← validate_snapshot p
  account ← get_by_code s.books.accounts p.account_code
  ledger ← balance_as_of s.books p.account_code watermark
  let drift = sub64 p.observed_units ledger.units
  let row : SnapshotRow = record {
    account_id = account.id;
    asset = account.asset;
    observed_units = p.observed_units;
    chain_ref = p.chain_ref;
    ledger_units = ledger.units;
    watermark = watermark;
    drift_units = drift;
  }
  ok (
      judge_drift (tolerance_for cfg account.asset) drift
        (record s { snapshots = s.snapshots ++ (row ∷ []) }))

unfoldable pub any_nonzero : List (Asset × ℤ) → Bool
any_nonzero [] = false
any_nonzero ((asset, total) ∷ rest) = if eqb_ℤ total (pos 0) then any_nonzero rest else true

-- Whether the check fails; a check that cannot be computed does not.
unfoldable pub trial_balance_broken : Store → Bool
trial_balance_broken s = elim (trial_balance s.books) [
  | err _ ↦ false
  | ok trial ↦ any_nonzero trial
]

abbrev pub is_cons {ℓ} : {A : Type ℓ} → List A → Bool
is_cons [] = false
is_cons (x ∷ xs) = true

unfoldable pub cache_diverged : Store → Bool
cache_diverged s = elim (verify_balances s.books) [
  | err _ ↦ false
  | ok discrepancies ↦ is_cons discrepancies
]

-- `RunOnce`, but for the tick that it stores and the ceilings, which are only logged.
unfoldable pub run_once : Store → Store
run_once s =
    if is_halted s
    then s
    else if trial_balance_broken s
    then set_halt reason_trial_balance_broken self_check_actor s
    else if cache_diverged s
    then set_halt reason_cache_divergence self_check_actor s
    else s

-- Whether `checkCorridorCeiling` logs a warning for an asset, by the code of its account.
unfoldable pub corridor_alert : Config → Store → Asset → Text → Bool
corridor_alert cfg s asset code = elim (cfg.corridor_ceilings asset) [
  | none ↦ false
  | some ceiling ↦ elim (balance s.books code) [
    | err _ ↦ false
    | ok bal ↦ ltb_ℤ ceiling (abs64 bal.units)
  ]
]
