-- ===== src/Ledger/Error.antt =====
-- The ledger's sentinel errors, one constructor each, and the result of a fallible call.
-- Messages that a call wraps round a sentinel are left out: callers test with `errors.Is`.
use usdt_settlement_corridor.Base.{◌≡◌, refl, Bool, true, false, Option, none, some}

pub data Error : Type 0 where
  -- money
  zero_value_amount asset_mismatch overflow unknown_asset : Error
  invalid_decimal too_many_decimals : Error
  -- accounts
  unknown_account_type account_not_found invalid_code : Error
  -- journal
  too_few_lines too_many_lines zero_amount_line line_asset_mismatch unbalanced : Error
  invalid_idempotency_key idempotency_conflict : Error
  entry_not_found already_reversed cannot_reverse_a_reversal invalid_reverse_params : Error
  -- halt
  clear_requires_operator : Error
  -- orders
  order_not_found illegal_transition version_conflict entry_required entry_not_allowed : Error
  invalid_params halt_cache_not_configured system_halted unexpected_state : Error
  -- recon
  invalid_snapshot_params : Error
  -- an error that the database or its driver raises: a constraint, a value out of a column's range
  database : Error

pub data Result {ℓ} (A : Type ℓ) : Type ℓ where
  err : Error → Result A
  ok : A → Result A

-- `if bad { return err }`.
abbrev pub fail_if : Bool → Error → Result (Unit {0})
fail_if true e = err e
fail_if false e = ok tt

-- The error where a row is missing.
abbrev pub or_fail {ℓ} : {A : Type ℓ} → Option A → Error → Result A
or_fail none e = err e
or_fail (some a) e = ok a

-- `if err != nil { return err }`, with and without a value.
infixl 5 ◌>>=◌
abbrev pub ◌>>=◌ {ℓ μ} : {A : Type ℓ} {B : Type μ} → Result A → (A → Result B) → Result B
err stop >>= rest = err stop
ok value >>= rest = rest value

infixl 5 ◌>>◌
abbrev pub ◌>>◌ {μ} : {B : Type μ} → Result (Unit {0}) → Result B → Result B
check >> rest = check >>= (λ nothing. rest)

-- Inversion of a chain that ends well.
pub bind_ok {ℓ μ} :
    {A : Type ℓ} {B : Type μ} (call : Result A) (rest : A → Result B) {end : B}
    → (call >>= rest) ≡ ok end
    → (value : A) × (call ≡ ok value) × (rest value ≡ ok end)
bind_ok (err stop) rest h = cc
bind_ok (ok value) rest h = (value, refl, h)

pub fail_if_ok {κ} :
    {B : Type κ} (c : Bool) (e : Error) (f : Unit {0} → Result B) {b : B}
    → (fail_if c e >>= f) ≡ ok b
    → (c ≡ false) × (f tt ≡ ok b)
fail_if_ok true e f h = cc
fail_if_ok false e f h = (refl, h)
