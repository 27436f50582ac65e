-- ===== src/Ledger/Journal/History.antt =====
-- Balances as of an earlier entry (ledger/internal/journal/balance.go), which later entries leave
-- alone.
use usdt_settlement_corridor.Base.{
  ℕ, ◌<◌, ◌≡◌, ap, ◌∙◌, Bool, false, List, [], ◌∷◌, map, leb, arith, All,
}
use mathlib.Core.List.{append-nil}
use usdt_settlement_corridor.Base.Text.{Text}
use usdt_settlement_corridor.Base.Table.{select, select-append, select-All-false}
use usdt_settlement_corridor.Ledger.Error.{ok}
use usdt_settlement_corridor.Ledger.Database.{LineRow, EntryRow, Books}
use usdt_settlement_corridor.Ledger.Journal.Entry.{EntryRequest, HashPayload}
use usdt_settlement_corridor.Ledger.Journal.Posting.{Entry, LineToApply, line_row, new_row, post}
use usdt_settlement_corridor.Ledger.Journal.Reversing.{reverse_entry}
use usdt_settlement_corridor.Ledger.Journal.Balances.{balance_as_of}
use usdt_settlement_corridor.Ledger.Journal.Invariant.{with_entry}
use usdt_settlement_corridor.Ledger.Journal.Outcomes.{Posted, wrote, found, post-Posted, applied}
use usdt_settlement_corridor.Ledger.Journal.Reversal.{reverse_entry-Reversed}

abbrev up_to : ℕ → List LineRow → List LineRow
up_to last = select (λ r. leb r.entry_id last)

up_to-later :
    (last n : ℕ) (ls : List LineToApply) → last < n → up_to last (map (line_row n) ls) ≡ []
up_to-later last n ls h = select-All-false _ (map (line_row n) ls) (later ls)
  where
    later :
        (ls : List LineToApply)
        → All (λ (r : LineRow). leb r.entry_id last ≡ false) (map (line_row n) ls)
    later [] = tt
    later (l ∷ ls) = (ground arith, later ls)

as_of_with_entry :
    (b : Books) (row : EntryRow) (ls : List LineToApply) (code : Text) (last : ℕ)
    → last < row.id
    → balance_as_of (with_entry b row ls) code last ≡ balance_as_of b code last
unfolding balance_as_of
as_of_with_entry b row ls code last h = simp (
  select-append (λ (r : LineRow). leb r.entry_id last) b.lines (map (line_row row.id) ls),
  up_to-later last row.id ls h,
  append-nil,
)

module _ (digest : HashPayload → Text) (order_known : ℕ → Bool) where
  -- A balance as of an earlier entry is history: no later Post changes it, whatever it writes.
  pub post-balance_as_of :
      (b : Books) (req : EntryRequest) (e : Entry) (b' : Books) (code : Text) (last : ℕ)
      → last < b.next_entry
      → post digest order_known b req ≡ ok (e, b')
      → balance_as_of b' code last ≡ balance_as_of b code last
  post-balance_as_of b req e b' code last l h = kept (post-Posted digest order_known b req e b' h)
    where
      kept :
          Posted digest order_known b req e b'
          → balance_as_of b' code last ≡ balance_as_of b code last
      kept (wrote rs valid free known made after) =
          ap (λ c. balance_as_of c code last) after
          ∙ as_of_with_entry b (new_row digest order_known b req) (applied rs) code last l
      kept (found rs existing valid there same made after) =
          ap (λ c. balance_as_of c code last) after

  -- No later Reverse changes a balance as of an earlier entry either.
  pub reverse_entry-balance_as_of :
      (b : Books) (i : ℕ) (actor reason : Text) (at : ℕ) (e : Entry) (b' : Books) (code : Text)
      (last : ℕ)
      → last < b.next_entry
      → reverse_entry digest b i actor reason at ≡ ok (e, b')
      → balance_as_of b' code last ≡ balance_as_of b code last
  reverse_entry-balance_as_of b i actor reason at e b' code last l h =
      let r = reverse_entry-Reversed digest b i actor reason at e b' h in
      ap (λ c. balance_as_of c code last) r.after ∙ as_of_with_entry b _ r.negated code last l
