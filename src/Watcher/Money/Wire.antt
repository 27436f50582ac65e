-- ===== src/Watcher/Money/Wire.antt =====
-- The decimal strings of depositwatcher/internal/money against those of ledger/internal/money.
use usdt_settlement_corridor.Base.{
  ◌≡◌, refl, sym, ap, subst, ◌∙◌, Bool, true, false, Option, none, some, arith, if◌then◌else◌, ◌⊎◌,
  inl, inr,
}
use usdt_settlement_corridor.Base.Text.{Text}
use usdt_settlement_corridor.Base.Int.{ℤ, IsInt64, neg64, eqb_ℤ, min_int64}
use usdt_settlement_corridor.Ledger.Error.{Error, Result, ok, err, overflow}
use usdt_settlement_corridor.Ledger.Money.{Amount, usdt_bep20, decimals, valid, validate, neg}
use usdt_settlement_corridor.Ledger.Money.Decimal.{
  dot, cut, split_sign, parse_int64, parse_unsigned, parse_decimal, format,
}
use usdt_settlement_corridor.Ledger.Money.RoundTrip.{format-parse}
use usdt_settlement_corridor.Watcher.Money.{read_parts, read_decimal, show_decimal}

-- An amount that was read, and its units.
abbrev pub units_of : Result Amount → Option ℤ
units_of (ok a) = some a.units
units_of (err e) = none

value_of : Result ℤ → Option ℤ
value_of (ok u) = some u
value_of (err e) = none

Result-cases : (r : Result ℤ) → ((e : Error) × (r ≡ err e)) ⊎ ((u : ℤ) × (r ≡ ok u))
Result-cases (err e) = inl (e, refl)
Result-cases (ok u) = inr (u, refl)

parse_unsigned-read : (s : Text) → value_of (parse_unsigned 6 s) ≡ read_parts (cut dot s)
unfolding value_of parse_unsigned read_parts
parse_unsigned-read s = ground arith

-- An amount without its sign is not the least int64.
parse_int64_not_least : (s : Text) (u : ℤ) → parse_int64 s ≡ some u → eqb_ℤ u min_int64 ≡ false
unfolding parse_int64
parse_int64_not_least s u e = ground arith

parse_unsigned_not_least :
    (s : Text) (u : ℤ) → parse_unsigned 6 s ≡ ok u → eqb_ℤ u min_int64 ≡ false
unfolding parse_unsigned
parse_unsigned_not_least s u e = ground arith

neg_fits :
    (u : ℤ)
    → eqb_ℤ u min_int64 ≡ false
    → neg (record { asset = usdt_bep20; units = u })
      ≡ ok (record { asset = usdt_bep20; units = neg64 u })
unfolding neg validate valid decimals
neg_fits u e = ground arith

-- Every string is read alike by the watcher and the ledger: the same amount, or an error in both.
pub read_decimal-parse : (s : Text) → units_of (parse_decimal s usdt_bep20) ≡ read_decimal s
unfolding parse_decimal read_decimal decimals value_of
read_decimal-parse s = elim (Result-cases (parse_unsigned 6 (split_sign s).1)) [
  | inl (e, p) ↦
      let r : none ≡ read_parts (cut dot (split_sign s).1) =
        rw p at (parse_unsigned-read (split_sign s).1) in
      ground (arith, p, r)
  | inr (u, p) ↦
      let r : some u ≡ read_parts (cut dot (split_sign s).1) =
        rw p at (parse_unsigned-read (split_sign s).1) in
      ground (arith, p, r, neg_fits u (parse_unsigned_not_least (split_sign s).1 u p))
]

-- The watcher prints an amount of its asset as the ledger does.
pub show_decimal-format :
    (a : ℤ) → format (record { asset = usdt_bep20; units = a }) ≡ ok (show_decimal a)
unfolding format validate valid decimals show_decimal
show_decimal-format a = refl

ok_inj : (s t : Text) → ◌≡◌ {A = Result Text} (ok s) (ok t) → s ≡ t
ok_inj s t e = cc

bep20_valid : valid usdt_bep20 ≡ true
unfolding valid decimals
bep20_valid = refl

-- An int64 that the watcher prints is read back as itself by the ledger and by the watcher, but for the
-- least one, which both refuse.
pub show_decimal-read :
    (a : ℤ)
    → IsInt64 a
    → (parse_decimal (show_decimal a) usdt_bep20 ≡ (
        if eqb_ℤ a min_int64 then err overflow else ok (record { asset = usdt_bep20; units = a })))
      × (read_decimal (show_decimal a) ≡ (if eqb_ℤ a min_int64 then none else some a))
show_decimal-read a h =
    let (s, shown, parsed) = format-parse usdt_bep20 a bep20_valid h in
    let same : s ≡ show_decimal a = ok_inj s (show_decimal a) (sym shown ∙ show_decimal-format a) in
    let heard =
      subst
        (λ t. parse_decimal t usdt_bep20 ≡ (
          if eqb_ℤ a min_int64
          then err overflow
          else ok (record { asset = usdt_bep20; units = a })))
        same parsed in
    (
      heard,
      sym (read_decimal-parse (show_decimal a))
          ∙ ap units_of heard
          ∙ units_if (eqb_ℤ a min_int64) a,
    )
  where
    units_if :
        (b : Bool) (u : ℤ)
        → units_of (if b then err overflow else ok (record { asset = usdt_bep20; units = u }))
          ≡ (if b then none else some u)
    units_if true u = refl
    units_if false u = refl
