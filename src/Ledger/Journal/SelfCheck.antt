-- ===== src/Ledger/Journal/SelfCheck.antt =====
-- What the checks of balance.go find (ledger/internal/journal).
use usdt_settlement_corridor.Base.{
  ℕ, ◌+◌, ◌<◌, ◌≡◌, ◌≢◌, ◌↔◌, refl, true, false, List, [], ◌∷◌, leb, arith, All, All-map,
  Bool-cases, inl, inr,
}
use usdt_settlement_corridor.Base.Text.{Text}
use usdt_settlement_corridor.Base.Sort.{insert_by, sort_by}
use usdt_settlement_corridor.Base.Table.{select, select-All-true, select-All-false}
use usdt_settlement_corridor.Base.Int.{ℤ, pos, eqb_ℤ_iff}
use usdt_settlement_corridor.Ledger.Error.{ok, bind_ok}
use usdt_settlement_corridor.Ledger.Money.{Asset}
use usdt_settlement_corridor.Ledger.Database.{Account, LineRow, Books}
use usdt_settlement_corridor.Ledger.Journal.Balances.{
  account_total, asset_total, cached_units, scan_int64, balance, balance_computed, balance_as_of,
  differs, scan_discrepancies, by_code, verify_balances, line_assets, scan_totals, trial_balance,
}
use usdt_settlement_corridor.Ledger.Journal.Invariant.{IsLineOf, IsBooks}

-- The cache of an account is the sum of its lines.
abbrev pub Agrees : Books → Account → Type 0
Agrees b a = cached_units a.id b.balances ≡ account_total a.id b.lines

no_difference : (b : Books) (a : Account) → Agrees b a → differs b a ≡ false
no_difference b a e =
    ground (arith, (eqb_ℤ_iff (cached_units a.id b.balances) (account_total a.id b.lines)).1 e)

agree_of_none : (b : Books) (xs : List Account) → select (differs b) xs ≡ [] → All (Agrees b) xs
unfolding select
agree_of_none b [] h = tt
agree_of_none b (a ∷ xs) h = elim (Bool-cases (differs b a)) [
  | inl t ↦ absurd (ground arith)
  | inr f ↦ (
    (eqb_ℤ_iff (cached_units a.id b.balances) (account_total a.id b.lines)).0 (ground arith),
    agree_of_none b xs (ground arith),
  )
]

insert_by_nonempty : (x : Account) (xs : List Account) → insert_by by_code x xs ≢ []
unfolding insert_by
insert_by_nonempty x [] h = cc
insert_by_nonempty x (y ∷ ys) h = ground arith

sort_by_nil : (xs : List Account) → sort_by by_code xs ≡ [] → xs ≡ []
unfolding sort_by
sort_by_nil [] h = refl
sort_by_nil (x ∷ xs) h = absurd (insert_by_nonempty x (sort_by by_code xs) h)

scan_discrepancies_nil : (b : Books) (xs : List Account) → scan_discrepancies b xs ≡ ok [] → xs ≡ []
unfolding scan_discrepancies
scan_discrepancies_nil b [] h = refl
scan_discrepancies_nil b (a ∷ xs) h =
    let (cached, _, h₁) = bind_ok (scan_int64 (cached_units a.id b.balances)) _ h in
    let (computed, _, h₂) = bind_ok (scan_int64 (account_total a.id b.lines)) _ h₁ in
    let (rest, _, h₃) = bind_ok (scan_discrepancies b xs) _ h₂ in absurd (ground arith)

verify_none : (b : Books) → select (differs b) b.accounts ≡ [] → verify_balances b ≡ ok []
unfolding verify_balances sort_by scan_discrepancies
verify_none b h = rw h

-- VerifyBalances reports nothing exactly when the cache of every account is the sum of its lines.
pub verify_balances_exact : (b : Books) → (verify_balances b ≡ ok []) ↔ All (Agrees b) b.accounts
unfolding verify_balances
verify_balances_exact b = (
  λ h. agree_of_none b b.accounts (sort_by_nil _ (scan_discrepancies_nil b _ h)),
  λ h. verify_none b (
      select-All-false (differs b) b.accounts
        (All-map (Agrees b) _ b.accounts (no_difference b) h)),
)

scan_totals_zero :
    (lines : List LineRow) (assets : List Asset)
    → ((a : Asset) → asset_total a lines ≡ pos 0)
    → (ts : List (Asset × ℤ)) × (scan_totals lines assets ≡ ok ts)
      × All (λ (t : Asset × ℤ). t.1 ≡ pos 0) ts
unfolding scan_totals scan_int64
scan_totals_zero lines [] z = ([], refl, tt)
scan_totals_zero lines (a ∷ assets) z =
    let (ts, e, h) = scan_totals_zero lines assets z in
    ((a, pos 0) ∷ ts, ground (arith, z a), (refl, h))

All-Agrees : (b : Books) (xs : List Account) → IsBooks b → All (Agrees b) xs
All-Agrees b [] v = tt
All-Agrees b (a ∷ xs) v = (v.cache a.id, All-Agrees b xs v)

-- On well-formed books no self-check finds anything: VerifyBalances has no discrepancy, and
-- TrialBalance succeeds with zero for every asset.
pub self_checks_pass :
    (b : Books)
    → IsBooks b
    → (verify_balances b ≡ ok [])
      × ((ts : List (Asset × ℤ)) × (trial_balance b ≡ ok ts)
          × All (λ (t : Asset × ℤ). t.1 ≡ pos 0) ts)
unfolding trial_balance
self_checks_pass b v = (
  (verify_balances_exact b).1 (All-Agrees b b.accounts v),
  scan_totals_zero b.lines (line_assets b.lines) v.closed,
)

all_lines :
    (b : Books) (last : ℕ)
    → IsBooks b
    → b.next_entry < last + 2
    → select (λ (r : LineRow). leb r.entry_id last) b.lines ≡ b.lines
all_lines b last v h =
    select-All-true _ b.lines
      (All-map (IsLineOf b.accounts b.next_entry) _ b.lines (λ r k. within r k.below) v.lines)
  where
    within : (r : LineRow) → r.entry_id < b.next_entry → leb r.entry_id last ≡ true
    within r l = ground arith

-- On well-formed books the cached balance, the computed one and the one as of the last entry are the
-- same result, errors included.
pub balance_reads_agree :
    (b : Books) (code : Text) (last : ℕ)
    → IsBooks b
    → b.next_entry < last + 2
    → (balance b code ≡ balance_computed b code) × (balance_as_of b code last ≡ balance b code)
unfolding balance balance_computed balance_as_of
balance_reads_agree b code last v h = (simp v.cache, simp (v.cache, all_lines b last v h))
