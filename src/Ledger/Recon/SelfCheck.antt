-- ===== src/Ledger/Recon/SelfCheck.antt =====
-- What the periodic self-check finds (ledger/internal/recon/reconciler.go).
use usdt_settlement_corridor.Base.{◌≡◌, refl, true, false, List, [], ◌∷◌, All, arith}
use usdt_settlement_corridor.Base.Int.{ℤ, pos}
use usdt_settlement_corridor.Ledger.Error.{ok}
use usdt_settlement_corridor.Ledger.Money.{Asset}
use usdt_settlement_corridor.Ledger.Database.{Store}
use usdt_settlement_corridor.Ledger.Halt.{set_halt, is_halted}
use usdt_settlement_corridor.Ledger.Journal.Balances.{Discrepancy, verify_balances}
use usdt_settlement_corridor.Ledger.Journal.Invariant.{IsBooks}
use usdt_settlement_corridor.Ledger.Journal.SelfCheck.{
  Agrees, verify_balances_exact, self_checks_pass,
}
use usdt_settlement_corridor.Ledger.Recon.{
  any_nonzero, trial_balance_broken, cache_diverged, run_once,
}

totals_vanish :
    (ts : List (Asset × ℤ)) → All (λ (t : Asset × ℤ). t.1 ≡ pos 0) ts → any_nonzero ts ≡ false
unfolding any_nonzero
totals_vanish [] h = refl
totals_vanish ((a, n) ∷ ts) h = rw h.0 (totals_vanish ts h.1)

not_broken : (s : Store) → IsBooks s.books → trial_balance_broken s ≡ false
unfolding trial_balance_broken
not_broken s v =
    let (ts, summed, zeros) = (self_checks_pass s.books v).1 in
    rw (trial_balance_broken, summed) (totals_vanish ts zeros)

not_diverged : (s : Store) → IsBooks s.books → cache_diverged s ≡ false
unfolding cache_diverged
not_diverged s v = rw (cache_diverged, (self_checks_pass s.books v).0) refl

-- On well-formed books the self-check changes nothing: it never halts a sound ledger.
pub run_once_sound : (s : Store) → IsBooks s.books → run_once s ≡ s
unfolding run_once
run_once_sound s v = ground (arith, not_broken s v, not_diverged s v)

diverged :
    (s : Store) (d : Discrepancy) (ds : List Discrepancy)
    → verify_balances s.books ≡ ok (d ∷ ds)
    → is_halted (run_once s) ≡ true
unfolding run_once cache_diverged set_halt is_halted
diverged s d ds h = ground (arith, h)

-- Whenever the cached balance of some account is not the sum of its lines, the ledger is halted after
-- the self-check, provided that VerifyBalances can be computed.
pub run_once_detects :
    (s : Store) (ds : List Discrepancy)
    → verify_balances s.books ≡ ok ds
    → ¬ (All (Agrees s.books) s.books.accounts)
    → is_halted (run_once s) ≡ true
run_once_detects s [] h differ = absurd (differ ((verify_balances_exact s.books).0 h))
run_once_detects s (d ∷ ds) h differ = diverged s d ds h
