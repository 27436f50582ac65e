-- ===== src/Ledger/Accounts/Chart.antt =====
-- The chart of accounts as a table: what Create keeps (ledger/internal/accounts/store.go).
use usdt_settlement_corridor.Base.{
  ℕ, suc, ◌<◌, ◌≡◌, refl, true, false, List, [], ◌∷◌, ◌++◌, Option, none, some, ◌==◌, arith, All,
  All-map, All-append, Bool-cases, inl, inr, ==_iff,
}
use usdt_settlement_corridor.Base.Int.{ℤ}
use usdt_settlement_corridor.Base.Text.{Text, text_eq, text_eq_refl}
use usdt_settlement_corridor.Base.Table.{
  find_by, exists_by, exists_by-find_by, find_by-append_some, find_by-append_none, find_by-none-All,
  exists_by-find_by-some,
}
use usdt_settlement_corridor.Ledger.Error.{ok}
use usdt_settlement_corridor.Ledger.Money.{Asset, valid}
use usdt_settlement_corridor.Ledger.Database.{
  AccountType, asset_type, liability, revenue, expense, equity, position, unknown_type, Account,
  Books,
}
use usdt_settlement_corridor.Ledger.Accounts.{
  Code, normal_side_for, type_valid, parse_code, get_by_code, create,
}

abbrev pub account_by_id : List Account → ℕ → Option Account
account_by_id accounts i = find_by (λ a. a.id == i) accounts

abbrev pub account_by_code : List Account → Text → Option Account
account_by_code accounts code = find_by (λ a. text_eq a.code code) accounts

-- What every account of a chart has.
pub record IsAccountOf (accounts : List Account) (next : ℕ) (a : Account) : Type 0 where
  pub below : a.id < next
  pub by_id : account_by_id accounts a.id ≡ some a
  pub by_code : account_by_code accounts a.code ≡ some a
  pub asset_valid : valid a.asset ≡ true
  pub sided : normal_side_for a.kind ≡ ok a.normal_side

-- Ids and codes are unique, ids lie below the next one, assets are known, and the normal side is
-- that of the type.
abbrev pub IsChart : Books → Type 0
IsChart b = All (IsAccountOf b.accounts b.next_account) b.accounts

-- The account that Create stores.
create_new :
    (code : Text) (t : AccountType) (asset : Asset) (b b' : Books) (a : Account)
    → exists_by (λ x. text_eq x.code code) b.accounts ≡ false
    → create code t asset b ≡ ok (a, b')
    → (a.id ≡ b.next_account)
      × (a.code ≡ code)
      × (valid a.asset ≡ true)
      × (normal_side_for a.kind ≡ ok a.normal_side)
      × (b'.accounts ≡ b.accounts ++ (a ∷ []))
      × (b'.next_account ≡ suc b.next_account)
unfolding create
create_new code t asset b b' a new e = ground arith

create_old :
    (code : Text) (t : AccountType) (asset : Asset) (b b' : Books) (a : Account)
    → exists_by (λ x. text_eq x.code code) b.accounts ≡ true
    → create code t asset b ≡ ok (a, b')
    → (get_by_code b.accounts code ≡ ok a) × (b' ≡ b)
unfolding create
create_old code t asset b b' a old e = (ground arith, ground arith)

-- An account keeps its standing when one with a new id and another code is added.
IsAccountOf-extend :
    (xs : List Account) (n : ℕ) (a x : Account)
    → IsAccountOf xs n x
    → IsAccountOf (xs ++ (a ∷ [])) (suc n) x
IsAccountOf-extend xs n a x h = record {
  below = omega (arith, h.below);
  by_id = find_by-append_some _ xs (a ∷ []) x h.by_id;
  by_code = find_by-append_some _ xs (a ∷ []) x h.by_code;
  asset_valid = h.asset_valid;
  sided = h.sided;
}

fresh_id : (b : Books) → IsChart b → account_by_id b.accounts b.next_account ≡ none
fresh_id b h = find_by-none-All _ b.accounts (
    All-map _ _ b.accounts (λ x (k : IsAccountOf b.accounts b.next_account x). below_ne x k.below)
      h)
  where
    below_ne : (x : Account) → x.id < b.next_account → (x.id == b.next_account) ≡ false
    below_ne x l = ground arith

append-IsChart :
    (b b' : Books) (a : Account)
    → IsChart b
    → a.id ≡ b.next_account
    → account_by_code b.accounts a.code ≡ none
    → valid a.asset ≡ true
    → normal_side_for a.kind ≡ ok a.normal_side
    → b'.accounts ≡ b.accounts ++ (a ∷ [])
    → b'.next_account ≡ suc b.next_account
    → IsChart b'
append-IsChart b b' a h i c v s e n =
    rw (e, n)
      (All-append _ b.accounts (a ∷ [])
        (All-map _ _ b.accounts (IsAccountOf-extend b.accounts b.next_account a) h)
        (
          record {
            below = omega (arith, i);
            by_id =
                find_by-append_none _ b.accounts a (rw i (fresh_id b h))
                  ((==_iff a.id a.id).1 refl);
            by_code = find_by-append_none _ b.accounts a c (text_eq_refl a.code);
            asset_valid = v;
            sided = s;
          },
          tt,
        ))

-- The code names the account from then on.
create_found :
    (code : Text) (t : AccountType) (asset : Asset) (b b' : Books) (a : Account)
    → create code t asset b ≡ ok (a, b')
    → account_by_code b'.accounts code ≡ some a
unfolding get_by_code
create_found code t asset b b' a e =
    elim (Bool-cases (exists_by (λ x. text_eq x.code code) b.accounts)) [
      | inl old ↦
          let (found, same) = create_old code t asset b b' a old e in
          rw same (ground (arith, found))
      | inr new ↦
          let (_, c, _, _, added, _) = create_new code t asset b b' a new e in
          rw added (
            find_by-append_none _ b.accounts a (exists_by-find_by _ b.accounts new)
              (rw c (text_eq_refl code)))
    ]

-- Create keeps the chart well formed, and the account that it gives is the one that its code names
-- from then on.
pub create-IsChart :
    (code : Text) (t : AccountType) (asset : Asset) (b b' : Books) (a : Account)
    → IsChart b
    → create code t asset b ≡ ok (a, b')
    → IsChart b' × (get_by_code b'.accounts code ≡ ok a)
unfolding get_by_code
create-IsChart code t asset b b' a h e = (kept, ground (arith, create_found code t asset b b' a e))
  where
    kept : IsChart b'
    kept = elim (Bool-cases (exists_by (λ x. text_eq x.code code) b.accounts)) [
      | inl old ↦ rw ((create_old code t asset b b' a old e).1) h
      | inr new ↦
          let (i, c, v, s, added, next) = create_new code t asset b b' a new e in
          let absent : account_by_code b.accounts code ≡ none =
            exists_by-find_by _ b.accounts new in
          append-IsChart b b' a h i (rw c absent) v s added next
    ]

create_parses :
    (code : Text) (t : AccountType) (asset : Asset) (b b' : Books) (a : Account)
    → create code t asset b ≡ ok (a, b')
    → (c : Code) × (parse_code code ≡ ok c)
unfolding create
create_parses code t asset b b' a e = ground arith

side_of_valid : (u : AccountType) → type_valid u ≡ true → (s : ℤ) × (normal_side_for u ≡ ok s)
unfolding type_valid normal_side_for
side_of_valid asset_type h = (_, refl)
side_of_valid liability h = (_, refl)
side_of_valid revenue h = (_, refl)
side_of_valid expense h = (_, refl)
side_of_valid equity h = (_, refl)
side_of_valid position h = (_, refl)
side_of_valid (unknown_type s) h = cc

-- Create is idempotent on the code: a second call gives the same account and changes nothing,
-- whatever known type and asset it asks for.
pub create_twice :
    (code : Text) (t u : AccountType) (asset asset' : Asset) (b b' : Books) (a : Account)
    → create code t asset b ≡ ok (a, b')
    → type_valid u ≡ true
    → valid asset' ≡ true
    → create code u asset' b' ≡ ok (a, b')
unfolding create get_by_code
create_twice code t u asset asset' b b' a e tv av =
    let found = create_found code t asset b b' a e in
    let (c, parsed) = create_parses code t asset b b' a e in
    let (s, sided) = side_of_valid u tv in
    rw (parsed, tv, av, sided, exists_by-find_by-some _ b'.accounts a found, found)
