-- ===== src/Ledger/Recon/Drift.antt =====
-- When a snapshot halts the ledger (ledger/internal/recon/snapshot.go).
use usdt_settlement_corridor.Base.{
  ℕ, suc, ◌≡◌, ◌≢◌, ◌<◌, ◌-◌, ◌^◌, ◌==◌, ==_iff, refl, sym, ap, subst, ◌∙◌, Bool, false, ◌||◌, List,
  [], ◌∷◌, ◌++◌, arith, Bool-cases, inl, inr, ◌⊎◌,
}
use usdt_settlement_corridor.Base.Int.{
  ℤ, pos, negsuc, ◌-ℤ◌, ltb_ℤ, IsInt64, min_int64, wrap64, wrap64_fits, sub64, neg64,
}
use usdt_settlement_corridor.Ledger.Error.{ok, bind_ok}
use usdt_settlement_corridor.Ledger.Money.{Amount}
use usdt_settlement_corridor.Ledger.Database.{Account, SnapshotRow, Store}
use usdt_settlement_corridor.Ledger.Accounts.{get_by_code}
use usdt_settlement_corridor.Ledger.Journal.Balances.{balance_as_of}
use usdt_settlement_corridor.Ledger.Halt.{set_halt, is_halted, reason_balance_drift}
use usdt_settlement_corridor.Ledger.Recon.{
  Config, tolerance_for, SnapshotParams, SnapshotResult, validate_snapshot, abs64, judge_drift,
  ingest_snapshot, snapshot_actor,
}

-- The integer drift lies outside the tolerance, on either side.
abbrev pub outside : ℤ → ℤ → Bool
outside tolerance drift = ltb_ℤ tolerance drift || ltb_ℤ tolerance (pos 0 -ℤ drift)

-- For a tolerance that is not negative, |drift| is compared as it should be, but for the least int64.
below_least : (n : ℕ) → IsInt64 (negsuc n) → negsuc n ≢ min_int64 → n < 2 ^ 63 - 1
below_least n h m = elim (Bool-cases (n == 2 ^ 63 - 1)) [
  | inl e ↦ absurd (m (ap negsuc ((==_iff n (2 ^ 63 - 1)).0 e)))
  | inr e ↦ ground arith
]

abs64_negsuc : (n : ℕ) → n < 2 ^ 63 - 1 → abs64 (negsuc n) ≡ pos (suc n)
unfolding abs64 neg64 wrap64 ◌-ℤ◌
abs64_negsuc n l = ground arith

abs64_exact :
    (t : ℕ) (drift : ℤ)
    → IsInt64 drift
    → drift ≢ min_int64
    → ltb_ℤ (pos t) (abs64 drift) ≡ outside (pos t) drift
unfolding abs64 neg64 wrap64 ◌-ℤ◌
abs64_exact t (pos n) h m = ground arith
abs64_exact t (negsuc n) h m = rw (abs64_negsuc n (below_least n h m)) (ground arith)

abs64_min : abs64 min_int64 ≡ min_int64
unfolding abs64 neg64 wrap64 ◌-ℤ◌
abs64_min = refl

sub64_exact : (a b : ℤ) → IsInt64 (a -ℤ b) → sub64 a b ≡ a -ℤ b
unfolding sub64
sub64_exact a b h = wrap64_fits (a -ℤ b) h

judged :
    (t : ℕ) (drift : ℤ) (s : Store)
    → let done = judge_drift (pos t) drift s in
      (done.0.drift_units ≡ drift)
      × (done.0.halted ≡ ltb_ℤ (pos t) (abs64 drift))
      × (is_halted done.1 ≡ (is_halted s || ltb_ℤ (pos t) (abs64 drift)))
      × (done.1.snapshots ≡ s.snapshots)
unfolding judge_drift is_halted set_halt
judged t drift s = elim (Bool-cases (ltb_ℤ (pos t) (abs64 drift))) [
  | inl e ↦ rw e (refl, refl, ground arith, refl)
  | inr e ↦ rw e (refl, refl, ground arith, refl)
]

-- What a snapshot may change beside its own table: it may raise the halt, with one row in the log.
pub judge_drift_rest :
    (tolerance drift : ℤ) (s : Store)
    → ((judge_drift tolerance drift s).1 ≡ s)
      ⊎ ((judge_drift tolerance drift s).1 ≡ set_halt reason_balance_drift snapshot_actor s)
unfolding judge_drift
judge_drift_rest tolerance drift s = elim (Bool-cases (ltb_ℤ tolerance (abs64 drift))) [
  | inl e ↦ inr (rw e refl)
  | inr e ↦ inl (rw e refl)
]

-- The row that IngestSnapshot records and what it judges.
record Ingested (cfg : Config) (p : SnapshotParams) (s : Store) (r : SnapshotResult) (s' : Store)
    : Type 0 where
  watermark : ℕ
  account : Account
  ledger : Amount
  row : SnapshotRow
  asked : validate_snapshot p ≡ ok watermark
  named : get_by_code s.books.accounts p.account_code ≡ ok account
  read : balance_as_of s.books p.account_code watermark ≡ ok ledger
  drifted : row.drift_units ≡ sub64 p.observed_units ledger.units
  judged_to :
      (r, s')
      ≡ judge_drift
          (tolerance_for cfg account.asset)
          (sub64 p.observed_units ledger.units)
          (record s { snapshots = s.snapshots ++ (row ∷ []) })

ingested :
    (cfg : Config) (p : SnapshotParams) (s : Store) (r : SnapshotResult) (s' : Store)
    → ingest_snapshot cfg p s ≡ ok (r, s')
    → Ingested cfg p s r s'
unfolding ingest_snapshot
ingested cfg p s r s' h =
    let (watermark, asked, h₁) = bind_ok (validate_snapshot p) _ h in
    let (account, named, h₂) = bind_ok (get_by_code s.books.accounts p.account_code) _ h₁ in
    let (ledger, read, h₃) = bind_ok (balance_as_of s.books p.account_code watermark) _ h₂ in
    record {
      watermark = watermark;
      account = account;
      ledger = ledger;
      row = record {
        account_id = account.id;
        asset = account.asset;
        observed_units = p.observed_units;
        chain_ref = p.chain_ref;
        ledger_units = ledger.units;
        watermark = watermark;
        drift_units = sub64 p.observed_units ledger.units;
      };
      asked = asked;
      named = named;
      read = read;
      drifted = refl;
      judged_to = same_ok _ _ (sym h₃);
    }
  where
    same_ok : (a b : SnapshotResult × Store) → ok a ≡ ok b → a ≡ b
    same_ok a b e = cc

pub ingest_snapshot_rest :
    (cfg : Config) (p : SnapshotParams) (s : Store) (r : SnapshotResult) (s' : Store)
    → ingest_snapshot cfg p s ≡ ok (r, s')
    → (xs : List SnapshotRow) × ((s' ≡ record s { snapshots = xs })
        ⊎ (s' ≡ set_halt reason_balance_drift snapshot_actor (record s { snapshots = xs })))
ingest_snapshot_rest cfg p s r s' h =
    let i = ingested cfg p s r s' h in
    let tolerance = tolerance_for cfg i.account.asset in
    let drift = sub64 p.observed_units i.ledger.units in
    let xs = s.snapshots ++ (i.row ∷ []) in
    let is : s' ≡ (judge_drift tolerance drift (record s { snapshots = xs })).1 =
      ap (λ (x : SnapshotResult × Store). x.1) i.judged_to in
    (
      xs,
      elim (judge_drift_rest tolerance drift (record s { snapshots = xs })) [
        | inl e ↦ inl (is ∙ e)
        | inr e ↦ inr (is ∙ e)
      ],
    )

halted_aside :
    (s : Store) (xs : List SnapshotRow) → is_halted (record s { snapshots = xs }) ≡ is_halted s
unfolding is_halted
halted_aside s xs = refl

not_above : (t : ℕ) → ltb_ℤ (pos t) min_int64 ≡ false
not_above t = ground arith

or_false : (b : Bool) → (b || false) ≡ b
or_false b = ground arith

abbrev Judged : ℕ → ℤ → Store → SnapshotResult × Store → Type 0
Judged t drift s done =
    (done.0.drift_units ≡ drift)
    × (done.0.halted ≡ ltb_ℤ (pos t) (abs64 drift))
    × (is_halted done.1 ≡ (is_halted s || ltb_ℤ (pos t) (abs64 drift)))

module _ (cfg : Config) (p : SnapshotParams) (s : Store) (r : SnapshotResult) (s' : Store)
    (watermark t : ℕ) (account : Account) (ledger : Amount)
    (h : ingest_snapshot cfg p s ≡ ok (r, s')) (asked : validate_snapshot p ≡ ok watermark)
    (named : get_by_code s.books.accounts p.account_code ≡ ok account)
    (read : balance_as_of s.books p.account_code watermark ≡ ok ledger)
    (tolerated : tolerance_for cfg account.asset ≡ pos t) where
  same {ℓ} : {A : Type ℓ} (a b : A) → ok a ≡ ok b → a ≡ b
  same a b e = cc

  by_judge : Judged t (sub64 p.observed_units ledger.units) s (r, s')
  by_judge =
      let i = ingested cfg p s r s' h in
      let a = same i.account account (sym i.named ∙ named) in
      let w = same i.watermark watermark (sym i.asked ∙ asked) in
      let l =
        same i.ledger ledger (sym i.read ∙ ap (balance_as_of s.books p.account_code) w ∙ read) in
      let s₁ : Store = record s { snapshots = s.snapshots ++ (i.row ∷ []) } in
      let drift = sub64 p.observed_units ledger.units in
      let j = judged t drift s₁ in
      let e =
        i.judged_to
        ∙ ap
            (λ (x : Account).
              judge_drift (tolerance_for cfg x.asset) (sub64 p.observed_units i.ledger.units) s₁)
            a
        ∙ ap
            (λ (x : Amount).
              judge_drift (tolerance_for cfg account.asset) (sub64 p.observed_units x.units) s₁)
            l
        ∙ ap (λ z. judge_drift z drift s₁) tolerated in
      subst (Judged t drift s) (sym e) (
        j.0,
        j.1,
        j.2
            ∙ ap (λ x. x || ltb_ℤ (pos t) (abs64 drift))
                (halted_aside s (s.snapshots ++ (i.row ∷ []))),
      )

  -- With a tolerance that is not negative, a snapshot that is ingested reports the integer
  -- difference between what was observed and the ledger's balance at the watermark, and halts the
  -- ledger exactly when that lies outside the tolerance on either side, provided that the
  -- difference fits an int64 and is not the least one. A halt that stands is never cleared.
  pub ingest_snapshot_drift :
      IsInt64 (p.observed_units -ℤ ledger.units)
      → p.observed_units -ℤ ledger.units ≢ min_int64
      → (r.drift_units ≡ p.observed_units -ℤ ledger.units)
        × (r.halted ≡ outside (pos t) (p.observed_units -ℤ ledger.units))
        × (is_halted s' ≡ (is_halted s || outside (pos t) (p.observed_units -ℤ ledger.units)))
  ingest_snapshot_drift fits most =
      let e = sub64_exact p.observed_units ledger.units fits in
      let x = abs64_exact t (p.observed_units -ℤ ledger.units) fits most in
      let (drift, stopped, after) = by_judge in
      (
        drift ∙ e,
        stopped ∙ ap (λ d. ltb_ℤ (pos t) (abs64 d)) e ∙ x,
        after ∙ ap (λ d. is_halted s || ltb_ℤ (pos t) (abs64 d)) e ∙ ap (λ b. is_halted s || b) x,
      )

  -- Where the wrapped difference is the least int64, a snapshot passes as if there were no drift,
  -- whatever the tolerance from zero up: the ledger is not halted by it.
  pub ingest_snapshot_least :
      sub64 p.observed_units ledger.units ≡ min_int64
      → (r.halted ≡ false) × (is_halted s' ≡ is_halted s)
  ingest_snapshot_least least =
      let (drift, stopped, after) = by_judge in
      let none_outside =
        ap (λ d. ltb_ℤ (pos t) (abs64 d)) least ∙ ap (ltb_ℤ (pos t)) abs64_min ∙ not_above t in
      (
        stopped ∙ none_outside,
        after ∙ ap (λ b. is_halted s || b) none_outside ∙ or_false (is_halted s),
      )
