-- ===== src/Ledger/Journal/Reversing.antt =====
-- Reversing an entry (ledger/internal/journal/reversal.go).
use usdt_settlement_corridor.Base.{
  ℕ, suc, Bool, true, false, List, [], ◌∷◌, ◌++◌, Option, none, some, map, ◌==◌,
}
use usdt_settlement_corridor.Base.Text.{Text, bytes, text_eq, is_empty}
use usdt_settlement_corridor.Base.Table.{find_by, exists_by}
use usdt_settlement_corridor.Ledger.Error.{
  already_reversed, cannot_reverse_a_reversal, invalid_reverse_params, Result, ok, ◌>>=◌, ◌>>◌,
  fail_if,
}
use usdt_settlement_corridor.Ledger.Money.{Amount, neg}
use usdt_settlement_corridor.Ledger.Database.{EntryRow, Books}
use usdt_settlement_corridor.Ledger.Journal.Entry.{
  Line, HashPayload, validate_idempotency_key, canonical_payload,
}
use usdt_settlement_corridor.Ledger.Journal.Posting.{
  PostedLine, created, Entry, LineToApply, load_lines, get_entry_by_id,
  insert_lines_and_apply_balances,
}

abbrev pub with_amount : PostedLine → Amount → LineToApply
with_amount l a = record {
  seq = l.seq;
  account_id = l.account_id;
  account_code = l.account_code;
  asset = a.asset;
  units = a.units;
}

-- The lines negated, up to the first whose amount has no negation.
unfoldable pub negate_lines : List PostedLine → Result (List LineToApply)
negate_lines [] = ok []
negate_lines (l ∷ ls) = do a ← neg l.amount; rest ← negate_lines ls; ok (with_amount l a ∷ rest)

abbrev pub reverses : ℕ → EntryRow → Bool
reverses i e = elim e.reversal_of [ none ↦ false | some j ↦ j == i ]

abbrev pub is_reversal : EntryRow → Bool
is_reversal e = elim e.reversal_of [ none ↦ false | some _ ↦ true ]

abbrev pub reversal_prefix : Text
reversal_prefix = bytes "ledger:reverse:"

abbrev pub hash_of : LineToApply → Line
hash_of l = record {
  account_code = l.account_code;
  amount = record { asset = l.asset; units = l.units };
}

module _ (digest : HashPayload → Text) where
  abbrev pub reversal_row : Books → EntryRow → List LineToApply → Text → Text → ℕ → EntryRow
  reversal_row b original negated actor reason occurred_at =
      let key = reversal_prefix ++ original.idempotency_key in
      record {
        id = b.next_entry;
        idempotency_key = key;
        payload_hash = digest (
            canonical_payload (record {
              idempotency_key = key;
              entry_type = bytes "reversal";
              actor = actor;
              occurred_at = occurred_at;
              order_id = original.order_id;
              lines = map hash_of negated;
              metadata = none;
            }));
        entry_type = bytes "reversal";
        order_id = original.order_id;
        actor = actor;
        occurred_at = occurred_at;
        reversal_of = some original.id;
        metadata = reason;
      }

  -- The INSERT of the reversal, which the unique keys may refuse, and its lines.
  unfoldable pub insert_reversal : Books → EntryRow → List LineToApply → Result (Entry × Books)
  insert_reversal b row negated = do
    fail_if (exists_by (λ e. text_eq e.idempotency_key row.idempotency_key) b.entries)
        already_reversed
    let written =
        insert_lines_and_apply_balances row.id negated
          (record b { entries = b.entries ++ (row ∷ []); next_entry = suc b.next_entry })
    ok (record { row = row; lines = written.0; outcome = created }, written.1)

  -- `occurred_at` 0 is Go's zero time. Of the metadata of the new entry only the reason is kept; the
  -- key of the original is in the new key already.
  unfoldable pub reverse_entry : Books → ℕ → Text → Text → ℕ → Result (Entry × Books)
  reverse_entry b original_id actor reason occurred_at = do
    fail_if (is_empty actor) invalid_reverse_params
    fail_if (is_empty reason) invalid_reverse_params
    fail_if (occurred_at == 0) invalid_reverse_params
    original ← get_entry_by_id b original_id
    fail_if (is_reversal original) cannot_reverse_a_reversal
    fail_if (exists_by (reverses original_id) b.entries) already_reversed
    negated ← negate_lines (load_lines b original_id)
    validate_idempotency_key (reversal_prefix ++ original.idempotency_key)
    insert_reversal b (reversal_row b original negated actor reason occurred_at) negated

-- `ReversalOf`: the entry that reverses the given one, if there is one.
unfoldable pub reversal_of : Books → ℕ → Option EntryRow
reversal_of b original_id = find_by (reverses original_id) b.entries
