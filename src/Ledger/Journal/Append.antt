-- ===== src/Ledger/Journal/Append.antt =====
-- A balanced entry on known accounts keeps the books well formed.
use usdt_settlement_corridor.Base.{
  ℕ, suc, ◌<◌, ◌≡◌, refl, sym, ap, subst, ◌∙◌, false, List, [], ◌∷◌, ◌++◌, none, map, ◌==◌, ==_iff,
  arith, All, All-map, All-append, Bool-cases, inl, inr,
}
use mathlib.Core.Path.{ap₂}
use usdt_settlement_corridor.Base.Text.{text_eq_refl}
use usdt_settlement_corridor.Base.Sort.{sort_by}
use usdt_settlement_corridor.Base.Table.{
  find_by, find_by-append_some, find_by-append_none, find_by-none-All,
}
use usdt_settlement_corridor.Base.Int.{pos, ◌+ℤ◌, zero-add_ℤ}
use usdt_settlement_corridor.Ledger.Money.{Asset}
use usdt_settlement_corridor.Ledger.Database.{EntryRow, LineRow, Books}
use usdt_settlement_corridor.Ledger.Journal.Posting.{LineToApply, line_row, by_account}
use usdt_settlement_corridor.Ledger.Journal.Balances.{account_total, asset_total, cached_units}
use usdt_settlement_corridor.Ledger.Journal.Totals.{
  applied_total, account_total-append, asset_total-append, account_total-line_row,
  asset_total-line_row, applied_total-sort_by, cached_units-apply_balances,
}
use usdt_settlement_corridor.Ledger.Journal.Invariant.{
  IsLineOf, IsEntryOf, IsBooks, IsWritable, IsNew, with_entry, lines_of, lines_of-with_entry_new,
  lines_of-with_entry_other,
}

module _ (b : Books) (row : EntryRow) (ls : List LineToApply) (v : IsBooks b)
    (w : IsNew b row ls) where
  -- What an account holds grows by the entry's lines on it.
  pub account_total-with_entry :
      (j : ℕ)
      → account_total j (with_entry b row ls).lines ≡ account_total j b.lines +ℤ applied_total j ls
  account_total-with_entry j =
      account_total-append j b.lines (map (line_row row.id) ls)
      ∙ ap (λ t. account_total j b.lines +ℤ t) (account_total-line_row j row.id ls)

  append_cache :
      (j : ℕ)
      → cached_units j (with_entry b row ls).balances ≡ account_total j (with_entry b row ls).lines
  append_cache j =
      cached_units-apply_balances j row.id (sort_by by_account ls) b.balances
      ∙ ap₂ ◌+ℤ◌ (v.cache j) (applied_total-sort_by j ls)
      ∙ sym (account_total-with_entry j)

  append_closed : (a : Asset) → asset_total a (with_entry b row ls).lines ≡ pos 0
  append_closed a =
      asset_total-append a b.lines (map (line_row row.id) ls)
      ∙ ap₂ ◌+ℤ◌ (v.closed a) (asset_total-line_row a row.id ls ∙ w.balanced a)
      ∙ zero-add_ℤ (pos 0)

  append_entry_closed :
      (e : ℕ) (a : Asset) → asset_total a (lines_of e (with_entry b row ls).lines) ≡ pos 0
  append_entry_closed e a = elim (Bool-cases (row.id == e)) [
    | inl t ↦
        subst (λ n. asset_total a (lines_of n (with_entry b row ls).lines) ≡ pos 0)
          ((==_iff row.id e).0 t)
          (ap (asset_total a) (lines_of-with_entry_new b row ls v w.next)
            ∙ asset_total-line_row a row.id ls
            ∙ w.balanced a)
    | inr f ↦ ap (asset_total a) (lines_of-with_entry_other b row ls e f) ∙ v.entry_closed e a
  ]

  line_extend :
      (r : LineRow) → IsLineOf b.accounts b.next_entry r → IsLineOf b.accounts (suc b.next_entry) r
  line_extend r h = record {
    below = omega (arith, h.below);
    account = h.account;
    known = h.known;
    same_asset = h.same_asset;
    fits = h.fits;
  }

  written_lines :
      (ms : List LineToApply)
      → All (IsWritable b.accounts) ms
      → All (IsLineOf b.accounts (suc b.next_entry)) (map (line_row row.id) ms)
  written_lines [] h = tt
  written_lines (m ∷ ms) h = (
    record {
      below = omega (arith, w.next);
      account = h.0.account;
      known = h.0.known;
      same_asset = h.0.same_asset;
      fits = h.0.fits;
    },
    written_lines ms h.1,
  )

  entry_extend :
      (e : EntryRow)
      → IsEntryOf b.entries b.next_entry e
      → IsEntryOf (b.entries ++ (row ∷ [])) (suc b.next_entry) e
  entry_extend e h = record {
    below = omega (arith, h.below);
    by_id = find_by-append_some _ b.entries (row ∷ []) e h.by_id;
    by_key = find_by-append_some _ b.entries (row ∷ []) e h.by_key;
  }

  -- No entry stands under the new id.
  pub id_free : find_by (λ x. x.id == row.id) b.entries ≡ none
  id_free = find_by-none-All _ b.entries (
      All-map _ _ b.entries (λ e (h : IsEntryOf b.entries b.next_entry e). earlier e h.below)
        v.entries)
    where
      earlier : (e : EntryRow) → e.id < b.next_entry → (e.id == row.id) ≡ false
      earlier e l = ground (arith, w.next)

  new_entry : IsEntryOf (b.entries ++ (row ∷ [])) (suc b.next_entry) row
  new_entry = record {
    below = omega (arith, w.next);
    by_id = find_by-append_none _ b.entries row id_free ((==_iff row.id row.id).1 refl);
    by_key = find_by-append_none _ b.entries row w.key_free (text_eq_refl row.idempotency_key);
  }

  -- The books stay well formed.
  pub with_entry-IsBooks : IsBooks (with_entry b row ls)
  with_entry-IsBooks = record {
    chart = v.chart;
    entries =
        All-append _ b.entries (row ∷ []) (All-map _ _ b.entries entry_extend v.entries)
          (new_entry, tt);
    lines =
        All-append _ b.lines (map (line_row row.id) ls) (All-map _ _ b.lines line_extend v.lines)
          (written_lines ls w.writable);
    cache = append_cache;
    entry_closed = append_entry_closed;
    closed = append_closed;
  }
