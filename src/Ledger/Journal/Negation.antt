-- ===== src/Ledger/Journal/Negation.antt =====
-- Reading an entry's lines back and negating them (ledger/internal/journal/reversal.go).
use usdt_settlement_corridor.Base.{
  ℕ, ◌≡◌, refl, sym, ap, subst, ◌∙◌, Bool, true, false, List, [], ◌∷◌, some, ◌==◌, arith, All,
  if◌then◌else◌,
}
use usdt_settlement_corridor.Base.Sort.{insert_by, sort_by, sort_by-All}
use usdt_settlement_corridor.Base.Table.{select-All}
use usdt_settlement_corridor.Base.Int.{ℤ, pos, ◌+ℤ◌, ◌-ℤ◌, IsInt64, int_laws}
use usdt_settlement_corridor.Ledger.Error.{ok, bind_ok}
use usdt_settlement_corridor.Ledger.Money.{Asset, asset_eq, Amount, neg}
use usdt_settlement_corridor.Ledger.Money.Arithmetic.{neg-exact}
use usdt_settlement_corridor.Ledger.Database.{Account, LineRow, Books}
use usdt_settlement_corridor.Ledger.Accounts.Chart.{account_by_id}
use usdt_settlement_corridor.Ledger.Journal.Posting.{
  PostedLine, LineToApply, by_seq, joined, join_accounts, load_lines,
}
use usdt_settlement_corridor.Ledger.Journal.Reversing.{with_amount, negate_lines}
use usdt_settlement_corridor.Ledger.Journal.Balances.{account_total, asset_total}
use usdt_settlement_corridor.Ledger.Journal.Sums.{exact-fitting}
use usdt_settlement_corridor.Ledger.Journal.Totals.{applied_total, applied_asset_total}
use usdt_settlement_corridor.Ledger.Journal.Invariant.{IsLineOf, IsBooks, IsWritable, lines_of}

zero-sub_zero : pos 0 -ℤ pos 0 ≡ pos 0
zero-sub_zero = omega int_laws

-- What posted lines carry for an account, and for an asset.
posted_total : ℕ → List PostedLine → ℤ
posted_total j [] = pos 0
posted_total j (p ∷ ps) =
    if p.account_id == j then p.amount.units +ℤ posted_total j ps else posted_total j ps

posted_asset_total : Asset → List PostedLine → ℤ
posted_asset_total a [] = pos 0
posted_asset_total a (p ∷ ps) =
    if asset_eq p.amount.asset a
    then p.amount.units +ℤ posted_asset_total a ps
    else posted_asset_total a ps

posted_total-insert_by :
    (j : ℕ) (x : PostedLine) (ps : List PostedLine)
    → posted_total j (insert_by by_seq x ps) ≡ posted_total j (x ∷ ps)
unfolding posted_total insert_by
posted_total-insert_by j x [] = refl
posted_total-insert_by j x (p ∷ ps) = grind (int_laws, posted_total-insert_by j x ps)

posted_total-sort_by :
    (j : ℕ) (ps : List PostedLine) → posted_total j (sort_by by_seq ps) ≡ posted_total j ps
unfolding posted_total sort_by
posted_total-sort_by j [] = refl
posted_total-sort_by j (p ∷ ps) =
    posted_total-insert_by j p (sort_by by_seq ps) ∙ ground (arith, posted_total-sort_by j ps)

posted_asset_total-insert_by :
    (a : Asset) (x : PostedLine) (ps : List PostedLine)
    → posted_asset_total a (insert_by by_seq x ps) ≡ posted_asset_total a (x ∷ ps)
unfolding posted_asset_total insert_by
posted_asset_total-insert_by a x [] = refl
posted_asset_total-insert_by a x (p ∷ ps) = grind (int_laws, posted_asset_total-insert_by a x ps)

posted_asset_total-sort_by :
    (a : Asset) (ps : List PostedLine)
    → posted_asset_total a (sort_by by_seq ps) ≡ posted_asset_total a ps
unfolding posted_asset_total sort_by
posted_asset_total-sort_by a [] = refl
posted_asset_total-sort_by a (p ∷ ps) =
    posted_asset_total-insert_by a p (sort_by by_seq ps)
    ∙ ground (arith, posted_asset_total-sort_by a ps)

-- The join loses no line, since every line's account is known.
posted_total-join :
    (accounts : List Account) (n j : ℕ) (rs : List LineRow)
    → All (IsLineOf accounts n) rs
    → posted_total j (join_accounts accounts rs) ≡ account_total j rs
unfolding posted_total join_accounts account_total
posted_total-join accounts n j [] h = refl
posted_total-join accounts n j (r ∷ rs) h =
    ground (arith, h.0.known, posted_total-join accounts n j rs h.1)

posted_asset_total-join :
    (accounts : List Account) (n : ℕ) (a : Asset) (rs : List LineRow)
    → All (IsLineOf accounts n) rs
    → posted_asset_total a (join_accounts accounts rs) ≡ asset_total a rs
unfolding posted_asset_total join_accounts asset_total
posted_asset_total-join accounts n a [] h = refl
posted_asset_total-join accounts n a (r ∷ rs) h =
    ground (arith, h.0.known, posted_asset_total-join accounts n a rs h.1)

-- A posted line on a known account, in its asset, whose units are an int64.
record IsPosted (accounts : List Account) (p : PostedLine) : Type 0 where
  account : Account
  known : account_by_id accounts p.account_id ≡ some account
  same_asset : account.asset ≡ p.amount.asset
  fits : IsInt64 p.amount.units

join_accounts-IsPosted :
    (accounts : List Account) (n : ℕ) (rs : List LineRow)
    → All (IsLineOf accounts n) rs
    → All (IsPosted accounts) (join_accounts accounts rs)
unfolding join_accounts
join_accounts-IsPosted accounts n [] h = tt
join_accounts-IsPosted accounts n (r ∷ rs) h =
    rw (h.0.known, join_accounts, joined)
      (
        record {
          account = h.0.account;
          known = h.0.known;
          same_asset = h.0.same_asset;
          fits = h.0.fits;
        },
        join_accounts-IsPosted accounts n rs h.1,
      )

neg_ok :
    (x n : Amount)
    → IsInt64 x.units
    → neg x ≡ ok n
    → (n.units ≡ pos 0 -ℤ x.units) × IsInt64 n.units × (n.asset ≡ x.asset)
neg_ok x n f e =
    let (u, fit, a) = exact-fitting x.asset (pos 0 -ℤ x.units) n (ground (arith, neg-exact x f)) in
    (u, subst IsInt64 (sym u) fit, a)

-- One line negated, and the rest.
negate_lines_cons :
    (p : PostedLine) (ps : List PostedLine) (ls : List LineToApply)
    → negate_lines (p ∷ ps) ≡ ok ls
    → (n : Amount) × (rest : List LineToApply) × (neg p.amount ≡ ok n)
      × (negate_lines ps ≡ ok rest)
      × (ls ≡ with_amount p n ∷ rest)
unfolding negate_lines
negate_lines_cons p ps ls e =
    let (n, negated, e₁) = bind_ok (neg p.amount) _ e in
    let (rest, tail, e₂) = bind_ok (negate_lines ps) _ e₁ in (n, rest, negated, tail, ground arith)

negate_lines_nil : (ls : List LineToApply) → negate_lines [] ≡ ok ls → ls ≡ []
unfolding negate_lines
negate_lines_nil ls e = ground arith

negated_step :
    (hit : Bool) (x n t u : ℤ)
    → n ≡ pos 0 -ℤ x
    → t ≡ pos 0 -ℤ u
    → (if hit then n +ℤ t else t) ≡ pos 0 -ℤ (if hit then x +ℤ u else u)
negated_step true x n t u e f = rw (e, f) (omega int_laws)
negated_step false x n t u e f = f

negate_lines_total :
    (accounts : List Account) (j : ℕ) (ps : List PostedLine) (ls : List LineToApply)
    → All (IsPosted accounts) ps
    → negate_lines ps ≡ ok ls
    → applied_total j ls ≡ pos 0 -ℤ posted_total j ps
unfolding applied_total posted_total
negate_lines_total accounts j [] ls h e = rw (negate_lines_nil ls e) (omega int_laws)
negate_lines_total accounts j (p ∷ ps) ls h e =
    let (n, rest, negated, tail, made) = negate_lines_cons p ps ls e in
    let (u, fit, a) = neg_ok p.amount n h.0.fits negated in
    rw made (
      negated_step (p.account_id == j) p.amount.units n.units _ _ u
        (negate_lines_total accounts j ps rest h.1 tail))

negate_lines_asset_total :
    (accounts : List Account) (a : Asset) (ps : List PostedLine) (ls : List LineToApply)
    → All (IsPosted accounts) ps
    → negate_lines ps ≡ ok ls
    → applied_asset_total a ls ≡ pos 0 -ℤ posted_asset_total a ps
unfolding applied_asset_total posted_asset_total
negate_lines_asset_total accounts a [] ls h e = rw (negate_lines_nil ls e) (omega int_laws)
negate_lines_asset_total accounts a (p ∷ ps) ls h e =
    let (n, rest, negated, tail, made) = negate_lines_cons p ps ls e in
    let (u, fit, same) = neg_ok p.amount n h.0.fits negated in
    rw (made, same)
      (negated_step (asset_eq p.amount.asset a) p.amount.units n.units _ _ u
        (negate_lines_asset_total accounts a ps rest h.1 tail))

negate_lines-IsWritable :
    (accounts : List Account) (ps : List PostedLine) (ls : List LineToApply)
    → All (IsPosted accounts) ps
    → negate_lines ps ≡ ok ls
    → All (IsWritable accounts) ls
negate_lines-IsWritable accounts [] ls h e = rw (negate_lines_nil ls e) tt
negate_lines-IsWritable accounts (p ∷ ps) ls h e =
    let (n, rest, negated, tail, made) = negate_lines_cons p ps ls e in
    let (u, fit, same) = neg_ok p.amount n h.0.fits negated in
    rw made (
      record {
        account = h.0.account;
        known = h.0.known;
        same_asset = h.0.same_asset ∙ sym same;
        fits = fit;
      },
      negate_lines-IsWritable accounts ps rest h.1 tail,
    )

-- What the negated lines of an entry of well-formed books are.
module _ (b : Books) (v : IsBooks b) (e : ℕ) (ls : List LineToApply)
    (h : negate_lines (load_lines b e) ≡ ok ls) where
  own_lines : All (IsLineOf b.accounts b.next_entry) (lines_of e b.lines)
  own_lines = select-All _ _ b.lines v.lines

  loaded : All (IsPosted b.accounts) (load_lines b e)
  unfolding load_lines
  loaded =
      sort_by-All _ by_seq _
        (join_accounts-IsPosted b.accounts b.next_entry (lines_of e b.lines) own_lines)

  pub reversed-IsWritable : All (IsWritable b.accounts) ls
  reversed-IsWritable = negate_lines-IsWritable b.accounts (load_lines b e) ls loaded h

  loaded_total : (j : ℕ) → posted_total j (load_lines b e) ≡ account_total j (lines_of e b.lines)
  unfolding load_lines
  loaded_total j =
      posted_total-sort_by j _
      ∙ posted_total-join b.accounts b.next_entry j (lines_of e b.lines) own_lines

  loaded_asset_total :
      (a : Asset) → posted_asset_total a (load_lines b e) ≡ asset_total a (lines_of e b.lines)
  unfolding load_lines
  loaded_asset_total a =
      posted_asset_total-sort_by a _
      ∙ posted_asset_total-join b.accounts b.next_entry a (lines_of e b.lines) own_lines

  pub reversed_total : (j : ℕ) → applied_total j ls ≡ pos 0 -ℤ account_total j (lines_of e b.lines)
  reversed_total j =
      negate_lines_total b.accounts j (load_lines b e) ls loaded h
      ∙ ap (λ t. pos 0 -ℤ t) (loaded_total j)

  pub reversed_balanced : (a : Asset) → applied_asset_total a ls ≡ pos 0
  reversed_balanced a =
      negate_lines_asset_total b.accounts a (load_lines b e) ls loaded h
      ∙ ap (λ t. pos 0 -ℤ t) (loaded_asset_total a ∙ v.entry_closed e a)
      ∙ zero-sub_zero
