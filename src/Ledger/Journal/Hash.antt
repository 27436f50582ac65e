-- ===== src/Ledger/Journal/Hash.antt =====
-- The hash does not depend on the order of the lines, nor on what is below a microsecond
-- (ledger/internal/journal/hash.go).
use mathlib.Core.List.{Perm}
use mathlib.Core.List.Perm
use usdt_settlement_corridor.Base.{ℕ, ◌/◌, ◌≡◌, true, false, List, map, arith}
use usdt_settlement_corridor.Base.Text.{
  text_eq_refl, eq_of_text_eq, text_lt_irrefl, text_lt_trans, text_lt_tri,
}
use usdt_settlement_corridor.Base.Sort.{IsStrictTotal, sort_by-perm}
use usdt_settlement_corridor.Ledger.Journal.Entry.{
  EntryRequest, HashLine, hash_line, hash_line_lt, truncate_to_microsecond, canonical_payload,
}

hash_line_lt_irrefl : (x : HashLine) → hash_line_lt x x ≡ false
unfolding hash_line_lt
hash_line_lt_irrefl x = ground (arith, text_eq_refl x.account_code, text_eq_refl x.asset)

hash_line_lt_trans :
    (x y z : HashLine) → hash_line_lt x y ≡ true → hash_line_lt y z ≡ true → hash_line_lt x z ≡ true
unfolding hash_line_lt
hash_line_lt_trans x y z p q = ground (
  arith,
  eq_of_text_eq x.account_code y.account_code,
  eq_of_text_eq y.account_code z.account_code,
  eq_of_text_eq x.account_code z.account_code,
  eq_of_text_eq x.asset y.asset,
  eq_of_text_eq y.asset z.asset,
  eq_of_text_eq x.asset z.asset,
  text_eq_refl x.account_code,
  text_eq_refl x.asset,
  text_lt_trans x.account_code y.account_code z.account_code,
  text_lt_trans x.asset y.asset z.asset,
  text_lt_irrefl x.account_code,
  text_lt_irrefl x.asset,
  text_lt_trans x.account_code y.account_code x.account_code,
  text_lt_trans x.asset y.asset x.asset,
)

hash_line_lt_tri : (x y : HashLine) → hash_line_lt x y ≡ false → hash_line_lt y x ≡ false → x ≡ y
unfolding hash_line_lt
hash_line_lt_tri x y p q = ground (
  arith,
  eq_of_text_eq x.account_code y.account_code,
  eq_of_text_eq y.account_code x.account_code,
  eq_of_text_eq x.asset y.asset,
  eq_of_text_eq y.asset x.asset,
  text_eq_refl x.account_code,
  text_eq_refl x.asset,
  text_lt_tri x.account_code y.account_code,
  text_lt_tri x.asset y.asset,
)

hash_line_lt-IsStrictTotal : IsStrictTotal hash_line_lt
hash_line_lt-IsStrictTotal = record {
  irrefl = hash_line_lt_irrefl;
  trans = hash_line_lt_trans;
  tri = hash_line_lt_tri;
}

HashLines-set : IsSet (List HashLine)
HashLines-set = hlevel

truncate_to_microsecond_lem :
    (t u : ℕ) → t / 1000 ≡ u / 1000 → truncate_to_microsecond t ≡ truncate_to_microsecond u
unfolding truncate_to_microsecond
truncate_to_microsecond_lem t u h = omega arith

-- Two requests of one type, for one order, whose lines are the same up to their order and whose times
-- lie in the same microsecond have one payload, and so one hash. The key, the actor and the metadata
-- are not part of it.
pub canonical_payload_perm :
    (x y : EntryRequest)
    → x.entry_type ≡ y.entry_type
    → x.order_id ≡ y.order_id
    → Perm x.lines y.lines
    → x.occurred_at / 1000 ≡ y.occurred_at / 1000
    → canonical_payload x ≡ canonical_payload y
unfolding canonical_payload
canonical_payload_perm x y t o p u = ground (
  arith,
  sort_by-perm hash_line_lt-IsStrictTotal HashLines-set (map hash_line x.lines)
      (map hash_line y.lines) (Perm.map hash_line p),
  truncate_to_microsecond_lem x.occurred_at y.occurred_at u,
)
