-- ===== src/Ledger/Halt.antt =====
-- ledger/internal/halt: whether the ledger is halted, the log of halts, and the cached flag. The JSON
-- detail of a halt is left out.
use usdt_settlement_corridor.Base.{
  ℕ, ◌-◌, Bool, true, false, ◌||◌, [], ◌∷◌, ◌++◌, some, ltb, if◌then◌else◌,
}
use usdt_settlement_corridor.Base.Text.{Text, bytes, is_empty}
use usdt_settlement_corridor.Ledger.Error.{clear_requires_operator, Result, ok, ◌>>◌, fail_if}
use usdt_settlement_corridor.Ledger.Database.{set_row, clear_row, Store}

abbrev pub reason_post_settlement_reorg : Text
reason_post_settlement_reorg = bytes "POST_SETTLEMENT_REORG"

abbrev pub reason_trial_balance_broken : Text
reason_trial_balance_broken = bytes "TRIAL_BALANCE_BROKEN"

abbrev pub reason_cache_divergence : Text
reason_cache_divergence = bytes "CACHE_DIVERGENCE"

abbrev pub reason_balance_drift : Text
reason_balance_drift = bytes "BALANCE_DRIFT"

unfoldable pub set_halt : Text → Text → Store → Store
set_halt reason actor s = record s {
  system = record {
    halted = true;
    halt_reason = some reason;
    halted_by = some actor;
    cleared_by = s.system.cleared_by;
  };
  halt_log = s.halt_log ++ (set_row reason actor ∷ []);
}

unfoldable pub clear_halt : Text → Text → Store → Result Store
clear_halt actor note s = do
  fail_if (is_empty actor || is_empty note) clear_requires_operator
  ok (record s {
    system = record {
      halted = false;
      halt_reason = s.system.halt_reason;
      halted_by = s.system.halted_by;
      cleared_by = some actor;
    };
    halt_log = s.halt_log ++ (clear_row note actor ∷ []);
  })

-- The authoritative read.
unfoldable pub is_halted : Store → Bool
is_halted s = s.system.halted

-- `Cache`: the flag as last read and when, in nanoseconds.
pub record Cache : Type 0 where
  pub halted : Bool
  pub updated_at : ℕ

abbrev pub max_cache_age : ℕ
max_cache_age = 1_000_000_000

-- `Cache.IsHalted` at time `now`: the cached flag while it is younger than a second, else a fresh one.
unfoldable pub cached_is_halted : Store → ℕ → Cache → Bool × Cache
unfolding is_halted
cached_is_halted s now c =
    if ltb (now - c.updated_at) max_cache_age
    then (c.halted, c)
    else (is_halted s, record { halted = is_halted s; updated_at = now })
