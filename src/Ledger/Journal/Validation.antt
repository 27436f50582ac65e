-- ===== src/Ledger/Journal/Validation.antt =====
-- What validate guarantees of the lines that it resolves.
use usdt_settlement_corridor.Base.{
  ℕ, suc, ◌+◌, ◌<◌, ◌≤◌, ◌≡◌, ◌≢◌, ◌^◌, refl, sym, subst, ◌∙◌, true, false, not, List, [], ◌∷◌,
  length, take, arith, ltb,
}
use usdt_settlement_corridor.Base.Text.{Text, is_empty}
use usdt_settlement_corridor.Base.Int.{IsInt64, pos, ◌+ℤ◌, eqb_ℤ_iff, zero-add_ℤ}
use usdt_settlement_corridor.Ledger.Error.{ok, bind_ok, fail_if_ok}
use usdt_settlement_corridor.Ledger.Money.{Asset}
use usdt_settlement_corridor.Ledger.Money.Arithmetic.{eq_of_asset_eq}
use usdt_settlement_corridor.Ledger.Database.{Account}
use usdt_settlement_corridor.Ledger.Accounts.{get_by_code}
use usdt_settlement_corridor.Ledger.Journal.Entry.{
  Line, EntryRequest, ResolvedLine, Sums, sum_or_zero, set_sum, resolve_lines, all_zero, int16,
  max_lines, validate_idempotency_key,
}
use usdt_settlement_corridor.Ledger.Journal.Entry
use usdt_settlement_corridor.Ledger.Journal.Sums.{
  resolved_total, LinesFit, resolve_lines_nil, resolve_lines-Round, resolve_lines_totals,
  resolve_lines_fits, all_zero_lem,
}

-- What a resolved line has: the account that its code names, whose asset it carries, an amount that
-- is an int64 and not zero, and the place `i` of the line as its number.
pub record Resolved (accounts : List Account) (i : ℕ) (l : Line) (r : ResolvedLine) : Type 0 where
  pub named : get_by_code accounts l.account_code ≡ ok r.account
  pub amount : r.amount ≡ l.amount
  pub same_asset : r.amount.asset ≡ r.account.asset
  pub nonzero : r.amount.units ≢ pos 0
  pub numbered : r.seq ≡ pos i

-- The resolved lines answer to the request's lines, one by one, from place `i` on.
abbrev pub ResolvedFrom : List Account → ℕ → List Line → List ResolvedLine → Type 0
ResolvedFrom accounts i [] [] = Unit
ResolvedFrom accounts i [] (r ∷ rs) = ⊥
ResolvedFrom accounts i (l ∷ ls) [] = ⊥
ResolvedFrom accounts i (l ∷ ls) (r ∷ rs) =
    Resolved accounts i l r × ResolvedFrom accounts (suc i) ls rs

int16_small : (i : ℕ) → i < 2 ^ 15 → int16 i ≡ pos i
unfolding int16
int16_small i h = ground arith

resolve_lines-ResolvedFrom :
    (accounts : List Account) (i : ℕ) (sums : Sums) (ls : List Line) (rs : List ResolvedLine)
    (sums' : Sums)
    → i + length ls ≤ 2 ^ 15
    → resolve_lines accounts i sums ls ≡ ok (rs, sums')
    → ResolvedFrom accounts i ls rs
resolve_lines-ResolvedFrom accounts i sums [] rs sums' b e =
    rw ((resolve_lines_nil accounts i sums rs sums' e).0) tt
resolve_lines-ResolvedFrom accounts i sums (l ∷ ls) rs sums' b e =
    let r = resolve_lines-Round accounts i sums l ls rs sums' e in
    rw (r.made) (
      record {
        named = r.found;
        amount = refl;
        same_asset = eq_of_asset_eq _ _ r.same_asset;
        nonzero = λ z. absurd (ground (arith, (eqb_ℤ_iff l.amount.units (pos 0)).1 z, r.nonzero));
        numbered = int16_small i (omega arith);
      },
      resolve_lines-ResolvedFrom accounts (suc i) _ ls r.rest sums' (omega arith) r.tail,
    )

-- What validate checks of a request as a whole.
pub record Accepts (accounts : List Account) (req : EntryRequest) (rs : List ResolvedLine)
    : Type 0 where
  pub key_given : is_empty req.idempotency_key ≡ false
  pub key_short : length req.idempotency_key ≤ 255
  pub enough : 2 ≤ length req.lines
  pub few : length req.lines ≤ 32767
  pub resolved : ResolvedFrom accounts 0 req.lines rs
  pub no_overflow : (a : Asset) (n : ℕ) → IsInt64 (resolved_total a (take n rs))
  pub balanced : (a : Asset) → resolved_total a rs ≡ pos 0

key_accepted :
    (key : Text) {u : Unit {0}}
    → validate_idempotency_key key ≡ ok u
    → (is_empty key ≡ false) × (length key ≤ 255)
unfolding validate_idempotency_key
key_accepted key e = ground arith

from_zero :
    (a : Asset) (rs : List ResolvedLine) (n : ℕ)
    → IsInt64 ((sum_or_zero a []).units +ℤ resolved_total a (take n rs))
    → IsInt64 (resolved_total a (take n rs))
unfolding sum_or_zero
from_zero a rs n f = subst IsInt64 (zero-add_ℤ (resolved_total a (take n rs))) f

balanced_total :
    (a : Asset) (rs : List ResolvedLine) (sums : Sums)
    → (sum_or_zero a sums).units ≡ (sum_or_zero a []).units +ℤ resolved_total a rs
    → all_zero sums ≡ true
    → resolved_total a rs ≡ pos 0
unfolding sum_or_zero
balanced_total a rs sums t z =
    sym (zero-add_ℤ (resolved_total a rs)) ∙ sym t ∙ all_zero_lem a sums z

-- A request that validate lets through has a key of 1 to 255 bytes and 2 to 32767 lines; every line is
-- resolved to the account that its code names, carries that account's asset and an amount that is not
-- zero, and is numbered by its place; and for every asset the first lines, however many, add up to an
-- int64, and all of them to exactly zero. The amounts of the request's lines are int64 values.
pub validate_sound :
    (accounts : List Account) (req : EntryRequest) (rs : List ResolvedLine)
    → LinesFit req.lines
    → Entry.validate accounts req ≡ ok rs
    → Accepts accounts req rs
unfolding Entry.validate
validate_sound accounts req rs lf e =
    let (_, keyed, e₁) = bind_ok (validate_idempotency_key req.idempotency_key) _ e in
    let (two, e₂) = fail_if_ok (ltb (length req.lines) 2) _ _ e₁ in
    let (many, e₃) = fail_if_ok (ltb max_lines (length req.lines)) _ _ e₂ in
    let (res, looped, e₄) = bind_ok (resolve_lines accounts 0 [] req.lines) _ e₃ in
    let (zeros, e₅) = fail_if_ok (not (all_zero res.1)) _ _ e₄ in
    let (given, short) = key_accepted req.idempotency_key keyed in
    let same : res.0 ≡ rs = ground arith in
    record {
      key_given = given;
      key_short = short;
      enough = ground arith;
      few = ground arith;
      resolved =
          subst (ResolvedFrom accounts 0 req.lines) same
            (resolve_lines-ResolvedFrom accounts 0 [] req.lines res.0 res.1 (ground arith) looped);
      no_overflow = λ a n.
          subst (λ u. IsInt64 (resolved_total a (take n u))) same
            (from_zero a res.0 n
              (resolve_lines_fits accounts 0 [] req.lines res.0 res.1 lf tt looped a n));
      balanced = λ a.
          subst (λ u. resolved_total a u ≡ pos 0) same
            (balanced_total a res.0 res.1
              (resolve_lines_totals accounts 0 [] req.lines res.0 res.1 lf tt looped a)
              (ground (arith, zeros)));
    }
