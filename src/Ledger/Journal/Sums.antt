-- ===== src/Ledger/Journal/Sums.antt =====
-- The running sums of validate (ledger/internal/journal/validate.go) against integer totals.
use usdt_settlement_corridor.Base.{
  ℕ, zero, suc, take, ◌≡◌, refl, sym, subst, ◌∙◌, Bool, true, false, not, List, [], ◌∷◌, arith, All,
  if◌then◌else◌, Bool-cases, inl, inr,
}
use usdt_settlement_corridor.Base.Int.{
  ℤ, pos, ◌+ℤ◌, IsInt64, fits_int64, fits_int64_iff, eqb_ℤ, int_laws,
}
use usdt_settlement_corridor.Ledger.Error.{ok, bind_ok, fail_if_ok}
use usdt_settlement_corridor.Ledger.Money.{Asset, asset_eq, Amount, add}
use usdt_settlement_corridor.Ledger.Money.Arithmetic.{
  add-exact, asset_eq_refl, eq_of_asset_eq, fitting, exact,
}
use usdt_settlement_corridor.Ledger.Database.{Account}
use usdt_settlement_corridor.Ledger.Accounts.{get_by_code}
use usdt_settlement_corridor.Ledger.Journal.Entry.{
  Line, ResolvedLine, Sums, sum_or_zero, set_sum, resolve_lines, all_zero, int16,
}

-- The units that resolved lines carry for an asset, as an integer that cannot overflow.
unfoldable pub resolved_total : Asset → List ResolvedLine → ℤ
resolved_total a [] = pos 0
resolved_total a (r ∷ rs) =
    if asset_eq r.amount.asset a then r.amount.units +ℤ resolved_total a rs else resolved_total a rs

-- Every line of a request carries an int64.
abbrev pub LinesFit : List Line → Type 0
LinesFit = All (λ l. IsInt64 l.amount.units)

-- The sums so far are int64 amounts of the asset under which they stand.
abbrev pub SumsFit : Sums → Type 0
SumsFit = All (λ (e : Asset × Amount). IsInt64 e.1.units × (e.1.asset ≡ e.0))

pub exact-fitting :
    (a : Asset) (z : ℤ) (s : Amount)
    → exact a (fitting z) ≡ ok s
    → (s.units ≡ z) × IsInt64 z × (s.asset ≡ a)
exact-fitting a z s e = elim (Bool-cases (fits_int64 z)) [
  | inl t ↦ (ground arith, (fits_int64_iff z).0 t, ground arith)
  | inr f ↦ absurd (ground arith)
]

add_accepts :
    (x y s : Amount)
    → IsInt64 x.units
    → IsInt64 y.units
    → add x y ≡ ok s
    → exact x.asset (fitting (x.units +ℤ y.units)) ≡ ok s
add_accepts x y s p q e = ground (arith, add-exact x y p q)

pub add_sum :
    (x y s : Amount)
    → IsInt64 x.units
    → IsInt64 y.units
    → add x y ≡ ok s
    → (s.units ≡ x.units +ℤ y.units) × IsInt64 s.units × (s.asset ≡ x.asset)
add_sum x y s p q e =
    let (u, fit, a) = exact-fitting x.asset (x.units +ℤ y.units) s (add_accepts x y s p q e) in
    (u, subst IsInt64 (sym u) fit, a)

sum_or_zero_fits :
    (a : Asset) (sums : Sums)
    → SumsFit sums
    → IsInt64 (sum_or_zero a sums).units × ((sum_or_zero a sums).asset ≡ a)
unfolding sum_or_zero
sum_or_zero_fits a [] h = ((omega arith, omega arith), refl)
sum_or_zero_fits a ((b, s) ∷ sums) h =
    ground (arith, eq_of_asset_eq b a, sum_or_zero_fits a sums h.1)

set_sum_fits :
    (a : Asset) (s : Amount) (sums : Sums)
    → IsInt64 s.units
    → s.asset ≡ a
    → SumsFit sums
    → SumsFit (set_sum a s sums)
unfolding set_sum
set_sum_fits a s [] p e h = ((p, e), tt)
set_sum_fits a s ((b, t) ∷ sums) p e h = ground (arith, set_sum_fits a s sums p e h.1)

-- Reading a sum after a write.
sum_or_zero-set_sum :
    (a c : Asset) (s : Amount) (sums : Sums)
    → (sum_or_zero c (set_sum a s sums)).units
      ≡ (if asset_eq a c then s.units else (sum_or_zero c sums).units)
unfolding sum_or_zero set_sum
sum_or_zero-set_sum a c s [] = ground arith
sum_or_zero-set_sum a c s ((b, t) ∷ sums) =
    ground (
      arith,
      eq_of_asset_eq b a,
      eq_of_asset_eq a c,
      asset_eq_refl a,
      sum_or_zero-set_sum a c s sums,
    )

-- What one round of the loop has done, if the loop ends well.
pub record Round (accounts : List Account) (i : ℕ) (sums : Sums) (l : Line) (ls : List Line)
    (rs : List ResolvedLine) (sums' : Sums) : Type 0 where
  pub account : Account
  pub sum : Amount
  pub rest : List ResolvedLine
  pub nonzero : eqb_ℤ l.amount.units (pos 0) ≡ false
  pub found : get_by_code accounts l.account_code ≡ ok account
  pub same_asset : asset_eq l.amount.asset account.asset ≡ true
  pub added : add (sum_or_zero account.asset sums) l.amount ≡ ok sum
  pub tail : resolve_lines accounts (suc i) (set_sum account.asset sum sums) ls ≡ ok (rest, sums')
  pub made : rs ≡ record { seq = int16 i; account = account; amount = l.amount } ∷ rest

pub resolve_lines_nil :
    (accounts : List Account) (i : ℕ) (sums : Sums) (rs : List ResolvedLine) (sums' : Sums)
    → resolve_lines accounts i sums [] ≡ ok (rs, sums')
    → (rs ≡ []) × (sums' ≡ sums)
unfolding resolve_lines
resolve_lines_nil accounts i sums rs sums' e = (ground arith, ground arith)

pub resolve_lines-Round :
    (accounts : List Account) (i : ℕ) (sums : Sums) (l : Line) (ls : List Line)
    (rs : List ResolvedLine) (sums' : Sums)
    → resolve_lines accounts i sums (l ∷ ls) ≡ ok (rs, sums')
    → Round accounts i sums l ls rs sums'
unfolding resolve_lines
resolve_lines-Round accounts i sums l ls rs sums' e =
    let (nonzero, e₁) = fail_if_ok (eqb_ℤ l.amount.units (pos 0)) _ _ e in
    let (account, found, e₂) = bind_ok (get_by_code accounts l.account_code) _ e₁ in
    let (same, e₃) = fail_if_ok (not (asset_eq l.amount.asset account.asset)) _ _ e₂ in
    let (sum, added, e₄) = bind_ok (add (sum_or_zero account.asset sums) l.amount) _ e₃ in
    let (rest, tail, e₅) =
      bind_ok (resolve_lines accounts (suc i) (set_sum account.asset sum sums) ls) _ e₄ in
    record {
      account = account;
      sum = sum;
      rest = rest.0;
      nonzero = nonzero;
      found = found;
      same_asset = ground arith;
      added = added;
      tail = ground arith;
      made = ground arith;
    }

round_total :
    (hit : Bool) (old sum line set final rest : ℤ)
    → set ≡ (if hit then sum else old)
    → final ≡ set +ℤ rest
    → (hit ≡ true → sum ≡ old +ℤ line)
    → final ≡ old +ℤ (if hit then line +ℤ rest else rest)
round_total true old sum line set final rest s f h = rw (f, s, h refl) (omega int_laws)
round_total false old sum line set final rest s f h = rw (f, s)

no_lines_total : (a : Asset) (x : ℤ) → x ≡ x +ℤ resolved_total a []
unfolding resolved_total
no_lines_total a x = omega int_laws

resolved_total_cons :
    (a b : Asset) (r : ResolvedLine) (rs : List ResolvedLine)
    → r.amount.asset ≡ b
    → resolved_total a (r ∷ rs)
      ≡ (if asset_eq b a then r.amount.units +ℤ resolved_total a rs else resolved_total a rs)
unfolding resolved_total
resolved_total_cons a b r rs e = rw e

-- The sum of an asset after the loop is the sum before it and the lines between.
pub resolve_lines_totals :
    (accounts : List Account) (i : ℕ) (sums : Sums) (ls : List Line) (rs : List ResolvedLine)
    (sums' : Sums)
    → LinesFit ls
    → SumsFit sums
    → resolve_lines accounts i sums ls ≡ ok (rs, sums')
    → (a : Asset) → (sum_or_zero a sums').units ≡ (sum_or_zero a sums).units +ℤ resolved_total a rs
resolve_lines_totals accounts i sums [] rs sums' lf sf e a =
    let (no_rows, same) = resolve_lines_nil accounts i sums rs sums' e in
    rw (no_rows, same) (no_lines_total a (sum_or_zero a sums).units)
resolve_lines_totals accounts i sums (l ∷ ls) rs sums' lf sf e a =
    let r = resolve_lines-Round accounts i sums l ls rs sums' e in
    let (fit, named) = sum_or_zero_fits r.account.asset sums sf in
    let (u, sum_fit, sum_asset) =
      add_sum (sum_or_zero r.account.asset sums) l.amount r.sum fit lf.0 r.added in
    let sf' = set_sum_fits r.account.asset r.sum sums sum_fit (sum_asset ∙ named) sf in
    let row : ResolvedLine = record { seq = int16 i; account = r.account; amount = l.amount } in
    rw (r.made, resolved_total_cons a r.account.asset row r.rest (eq_of_asset_eq _ _ r.same_asset))
      (round_total (asset_eq r.account.asset a) (sum_or_zero a sums).units r.sum.units
        l.amount.units _ _ _ (sum_or_zero-set_sum r.account.asset a r.sum sums)
        (resolve_lines_totals accounts (suc i) (set_sum r.account.asset r.sum sums) ls r.rest sums'
          lf.1 sf' r.tail a)
        (λ hit.
          subst (λ b. r.sum.units ≡ (sum_or_zero b sums).units +ℤ l.amount.units)
            (eq_of_asset_eq _ _ hit) u))

first_lines_fit :
    (hit : Bool) (old sum line set rest : ℤ)
    → set ≡ (if hit then sum else old)
    → (hit ≡ true → sum ≡ old +ℤ line)
    → IsInt64 (set +ℤ rest)
    → IsInt64 (old +ℤ (if hit then line +ℤ rest else rest))
first_lines_fit hit old sum line set rest s h f =
    subst IsInt64 (round_total hit old sum line set (set +ℤ rest) rest s refl h) f

no_lines_fit : (a : Asset) (x : ℤ) → IsInt64 x → IsInt64 (x +ℤ resolved_total a [])
no_lines_fit a x f = subst IsInt64 (no_lines_total a x) f

-- The sum of an asset is an int64 after each line.
pub resolve_lines_fits :
    (accounts : List Account) (i : ℕ) (sums : Sums) (ls : List Line) (rs : List ResolvedLine)
    (sums' : Sums)
    → LinesFit ls
    → SumsFit sums
    → resolve_lines accounts i sums ls ≡ ok (rs, sums')
    → (a : Asset) (n : ℕ) → IsInt64 ((sum_or_zero a sums).units +ℤ resolved_total a (take n rs))
resolve_lines_fits accounts i sums ls rs sums' lf sf e a zero =
    no_lines_fit a (sum_or_zero a sums).units (sum_or_zero_fits a sums sf).0
resolve_lines_fits accounts i sums [] rs sums' lf sf e a (suc n) =
    rw ((resolve_lines_nil accounts i sums rs sums' e).0)
      (no_lines_fit a (sum_or_zero a sums).units (sum_or_zero_fits a sums sf).0)
resolve_lines_fits accounts i sums (l ∷ ls) rs sums' lf sf e a (suc n) =
    let r = resolve_lines-Round accounts i sums l ls rs sums' e in
    let (fit, named) = sum_or_zero_fits r.account.asset sums sf in
    let (u, sum_fit, sum_asset) =
      add_sum (sum_or_zero r.account.asset sums) l.amount r.sum fit lf.0 r.added in
    let sf' = set_sum_fits r.account.asset r.sum sums sum_fit (sum_asset ∙ named) sf in
    let row : ResolvedLine = record { seq = int16 i; account = r.account; amount = l.amount } in
    rw
      (
        r.made,
        resolved_total_cons a r.account.asset row (take n r.rest) (eq_of_asset_eq _ _ r.same_asset),
      )
      (first_lines_fit (asset_eq r.account.asset a) (sum_or_zero a sums).units r.sum.units
        l.amount.units _ _ (sum_or_zero-set_sum r.account.asset a r.sum sums)
        (λ hit.
          subst (λ b. r.sum.units ≡ (sum_or_zero b sums).units +ℤ l.amount.units)
            (eq_of_asset_eq _ _ hit) u)
        (resolve_lines_fits accounts (suc i) (set_sum r.account.asset r.sum sums) ls r.rest sums'
          lf.1 sf' r.tail a n))

pub all_zero_lem :
    (a : Asset) (sums : Sums) → all_zero sums ≡ true → (sum_or_zero a sums).units ≡ pos 0
unfolding all_zero sum_or_zero
all_zero_lem a [] h = refl
all_zero_lem a ((b, s) ∷ sums) h = ground (arith, all_zero_lem a sums)
