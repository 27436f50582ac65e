-- ===== src/Ledger/Journal/Reversal.antt =====
-- What Reverse does to the books, and when it refuses (ledger/internal/journal/reversal.go).
use usdt_settlement_corridor.Base.{
  ℕ, suc, ◌<◌, ◌≡◌, ◌≢◌, refl, sym, subst, true, false, List, [], ◌∷◌, ◌++◌, Option, none, some,
  ◌==◌, ==_iff, arith, length,
}
use usdt_settlement_corridor.Base.Text.{Text, text_eq, is_empty}
use usdt_settlement_corridor.Base.Table.{
  find_by, exists_by, exists_by-append_last, exists_by-find_by, find_by-append_none,
  find_by-append_some, find_by-true,
}
use usdt_settlement_corridor.Base.Int.{ℤ, pos, ◌+ℤ◌, ◌-ℤ◌, int_laws}
use usdt_settlement_corridor.Ledger.Error.{
  Error, already_reversed, entry_not_found, cannot_reverse_a_reversal, invalid_idempotency_key, ok,
  err, bind_ok, fail_if_ok, or_fail,
}
use usdt_settlement_corridor.Ledger.Database.{EntryRow, Books}
use usdt_settlement_corridor.Ledger.Journal.Entry.{HashPayload, validate_idempotency_key}
use usdt_settlement_corridor.Ledger.Journal.Posting.{
  Entry, LineToApply, load_lines, get_entry_by_id, insert_lines_and_apply_balances,
}
use usdt_settlement_corridor.Ledger.Journal.Reversing.{
  negate_lines, reverses, is_reversal, reversal_prefix, reversal_row, insert_reversal,
  reverse_entry,
}
use usdt_settlement_corridor.Ledger.Journal.Balances.{account_total}
use usdt_settlement_corridor.Ledger.Journal.Invariant.{IsBooks, IsNew, with_entry, lines_of}
use usdt_settlement_corridor.Ledger.Journal.Append.{
  with_entry-IsBooks, account_total-with_entry, id_free,
}
use usdt_settlement_corridor.Ledger.Journal.Negation.{
  reversed-IsWritable, reversed_total, reversed_balanced,
}

ne_zero_test : (n : ℕ) → n ≢ 0 → (n == 0) ≡ false
ne_zero_test n h = ground arith

undone : (x y t n : ℤ) → t ≡ x +ℤ n → n ≡ pos 0 -ℤ y → t +ℤ y ≡ x
undone x y t n e f = rw (e, f) (omega int_laws)

or_fail_ok {ℓ} : {A : Type ℓ} (o : Option A) (e : Error) (a : A) → or_fail o e ≡ ok a → o ≡ some a
or_fail_ok none e a h = cc
or_fail_ok (some x) e a h = cc

found_append :
    (entries : List EntryRow) (row : EntryRow) (i : ℕ) (o : EntryRow)
    → or_fail (find_by (λ (x : EntryRow). x.id == i) entries) entry_not_found ≡ ok o
    → or_fail (find_by (λ (x : EntryRow). x.id == i) (entries ++ (row ∷ []))) entry_not_found ≡ ok o
found_append entries row i o h =
    ground (arith, find_by-append_some (λ x. x.id == i) entries (row ∷ []) o)

pub id_of_entry : (b : Books) (i : ℕ) (o : EntryRow) → get_entry_by_id b i ≡ ok o → o.id ≡ i
unfolding get_entry_by_id
id_of_entry b i o h =
    (==_iff o.id i).0 (find_by-true (λ x. x.id == i) b.entries o (or_fail_ok _ _ _ h))

module _ (digest : HashPayload → Text) where
  -- What a Reverse that succeeds has found and written.
  pub record Reversed (b : Books) (i : ℕ) (actor reason : Text) (at : ℕ) (e : Entry) (b' : Books)
      : Type 0 where
    pub original : EntryRow
    pub negated : List LineToApply
    pub found : get_entry_by_id b i ≡ ok original
    pub not_reversal : is_reversal original ≡ false
    pub not_reversed : exists_by (reverses i) b.entries ≡ false
    pub lines : negate_lines (load_lines b i) ≡ ok negated
    pub key_free :
        exists_by
          (λ x. text_eq x.idempotency_key (reversal_prefix ++ original.idempotency_key))
          b.entries
        ≡ false
    pub made : e.row ≡ reversal_row digest b original negated actor reason at
    pub after : b' ≡ with_entry b (reversal_row digest b original negated actor reason at) negated

  insert_reversal_inv :
      (b : Books) (row : EntryRow) (ls : List LineToApply) (e : Entry) (b' : Books)
      → insert_reversal digest b row ls ≡ ok (e, b')
      → (exists_by (λ x. text_eq x.idempotency_key row.idempotency_key) b.entries ≡ false)
        × (e.row ≡ row)
        × (b' ≡ record (with_entry b row ls) { next_entry = suc b.next_entry })
  unfolding insert_reversal insert_lines_and_apply_balances
  insert_reversal_inv b row ls e b' h =
      let (free, made) =
        fail_if_ok (exists_by (λ x. text_eq x.idempotency_key row.idempotency_key) b.entries) _ _
          h in
      (free, ground arith, ground arith)

  pub reverse_entry-Reversed :
      (b : Books) (i : ℕ) (actor reason : Text) (at : ℕ) (e : Entry) (b' : Books)
      → reverse_entry digest b i actor reason at ≡ ok (e, b')
      → Reversed b i actor reason at e b'
  unfolding reverse_entry
  reverse_entry-Reversed b i actor reason at e b' h =
      let (_, h₁) = fail_if_ok (is_empty actor) _ _ h in
      let (_, h₂) = fail_if_ok (is_empty reason) _ _ h₁ in
      let (_, h₃) = fail_if_ok (at == 0) _ _ h₂ in
      let (original, found, h₄) = bind_ok (get_entry_by_id b i) _ h₃ in
      let (not_reversal, h₅) = fail_if_ok (is_reversal original) _ _ h₄ in
      let (not_reversed, h₆) = fail_if_ok (exists_by (reverses i) b.entries) _ _ h₅ in
      let (negated, lines, h₇) = bind_ok (negate_lines (load_lines b i)) _ h₆ in
      let (_, _, h₈) =
        bind_ok (validate_idempotency_key (reversal_prefix ++ original.idempotency_key)) _ h₇ in
      let (free, made, after) =
        insert_reversal_inv b (reversal_row digest b original negated actor reason at) negated e b'
          h₈ in
      record {
        original = original;
        negated = negated;
        found = found;
        not_reversal = not_reversal;
        not_reversed = not_reversed;
        lines = lines;
        key_free = free;
        made = made;
        after = after;
      }

  module _ (b : Books) (i : ℕ) (actor reason : Text) (at : ℕ) (e : Entry) (b' : Books)
      (v : IsBooks b) (h : reverse_entry digest b i actor reason at ≡ ok (e, b')) where
    abbrev r : Reversed b i actor reason at e b'
    r = reverse_entry-Reversed b i actor reason at e b' h

    abbrev row : EntryRow
    row = reversal_row digest b r.original r.negated actor reason at

    row-IsNew : IsNew b row r.negated
    row-IsNew = record {
      next = refl;
      key_free = exists_by-find_by _ b.entries r.key_free;
      writable = reversed-IsWritable b v i r.negated r.lines;
      balanced = reversed_balanced b v i r.negated r.lines;
    }

    -- A reversal keeps well-formed books well formed, and takes from every account exactly what the
    -- original entry put there, so that the two entries together move nothing.
    pub reverse_entry_net :
        IsBooks b'
        × ((j : ℕ)
            → account_total j b'.lines +ℤ account_total j (lines_of i b.lines)
              ≡ account_total j b.lines)
    reverse_entry_net = (
      subst IsBooks (sym r.after) (with_entry-IsBooks b row r.negated v row-IsNew),
      λ j.
          subst
            (λ c.
              account_total j (Books.lines c) +ℤ account_total j (lines_of i b.lines)
              ≡ account_total j b.lines)
            (sym r.after)
            (undone (account_total j b.lines) (account_total j (lines_of i b.lines)) _ _
              (account_total-with_entry b row r.negated v row-IsNew j)
              (reversed_total b v i r.negated r.lines j)),
    )

    found_after : get_entry_by_id b' i ≡ ok r.original
    unfolding get_entry_by_id
    found_after = rw (r.after) (found_append b.entries row i r.original r.found)

    id_of_original : r.original.id ≡ i
    id_of_original = id_of_entry b i r.original r.found

    reversed_after : exists_by (reverses i) b'.entries ≡ true
    reversed_after = rw (r.after) (
        exists_by-append_last (reverses i) b.entries row
          ((==_iff r.original.id i).1 id_of_original))

    -- Once an entry of well-formed books is reversed, a second Reverse of it is refused as already
    -- reversed, whatever actor, reason and time it names, if it names them at all.
    pub reverse_entry_twice :
        (actor' reason' : Text) (at' : ℕ)
        → is_empty actor' ≡ false
        → is_empty reason' ≡ false
        → at' ≢ 0
        → reverse_entry digest b' i actor' reason' at' ≡ err already_reversed
    unfolding reverse_entry
    reverse_entry_twice actor' reason' at' p q t =
        rw (p, q, ne_zero_test at' t, found_after, r.not_reversal, reversed_after)

    reversal_found : get_entry_by_id b' e.row.id ≡ ok row
    unfolding get_entry_by_id
    reversal_found = rw (
      r.after,
      r.made,
      find_by-append_none (λ x. x.id == row.id) b.entries row (id_free b row r.negated v row-IsNew)
          ((==_iff row.id row.id).1 refl),
    )

    -- The reversal itself cannot be reversed by a call that names an actor, a reason and a time.
    pub reverse_entry_of_reversal :
        (actor' reason' : Text) (at' : ℕ)
        → is_empty actor' ≡ false
        → is_empty reason' ≡ false
        → at' ≢ 0
        → reverse_entry digest b' e.row.id actor' reason' at' ≡ err cannot_reverse_a_reversal
    unfolding reverse_entry
    reverse_entry_of_reversal actor' reason' at' p q t =
        rw (p, q, ne_zero_test at' t, reversal_found)

  -- An entry whose key is longer than 240 bytes, that exists, is no reversal, is not reversed and
  -- whose lines can be negated, cannot be reversed by a call that names an actor, a reason and a
  -- time, though Post takes keys of up to 255 bytes: the key of the reversal, with its prefix, is
  -- refused.
  pub reverse_entry_long_key :
      (b : Books) (i : ℕ) (actor reason : Text) (at : ℕ) (original : EntryRow)
      (ls : List LineToApply)
      → is_empty actor ≡ false
      → is_empty reason ≡ false
      → at ≢ 0
      → get_entry_by_id b i ≡ ok original
      → is_reversal original ≡ false
      → exists_by (reverses i) b.entries ≡ false
      → negate_lines (load_lines b i) ≡ ok ls
      → 240 < length original.idempotency_key
      → reverse_entry digest b i actor reason at ≡ err invalid_idempotency_key
  unfolding reverse_entry validate_idempotency_key
  reverse_entry_long_key b i actor reason at original ls p q t found no_reversal no_reversed lines
        long =
      rw (p, q, ne_zero_test at t, found, no_reversal, no_reversed, lines) (ground arith)
