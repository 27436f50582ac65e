-- ===== src/Ledger/Journal/Outcomes.antt =====
-- The two ways in which Post succeeds (ledger/internal/journal/post.go), and the invariant across it.
use usdt_settlement_corridor.Base.{
  ℕ, suc, ◌≡◌, refl, sym, subst, ◌∙◌, Bool, true, not, List, [], ◌∷◌, none, some, map, arith, All,
  Option-cases, inl, inr,
}
use usdt_settlement_corridor.Base.Text.{Text, text_eq}
use usdt_settlement_corridor.Base.Table.{find_by, find_by_All}
use usdt_settlement_corridor.Base.Int.{IsInt64}
use usdt_settlement_corridor.Ledger.Error.{ok, bind_ok, fail_if_ok}
use usdt_settlement_corridor.Ledger.Money.{Amount}
use usdt_settlement_corridor.Ledger.Database.{Account, EntryRow, Books}
use usdt_settlement_corridor.Ledger.Accounts.{get_by_code}
use usdt_settlement_corridor.Ledger.Accounts.Chart.{IsAccountOf, IsChart, account_by_id}
use usdt_settlement_corridor.Ledger.Journal.Entry.{
  Line, EntryRequest, ResolvedLine, HashPayload, validate, canonical_payload,
}
use usdt_settlement_corridor.Ledger.Journal.Posting.{
  Entry, created, replayed, LineToApply, posted_line, to_apply, load_lines,
  insert_lines_and_apply_balances, post_lines, resolve_existing, references, new_row, insert_entry,
  post,
}
use usdt_settlement_corridor.Ledger.Journal.Sums.{LinesFit}
use usdt_settlement_corridor.Ledger.Journal.Validation.{ResolvedFrom, validate_sound}
use usdt_settlement_corridor.Ledger.Journal.Totals.{applied_asset_total-to_apply}
use usdt_settlement_corridor.Ledger.Journal.Invariant.{IsBooks, IsWritable, IsNew, with_entry}
use usdt_settlement_corridor.Ledger.Journal.Append.{with_entry-IsBooks}

-- A request's lines as they are written.
abbrev pub applied : List ResolvedLine → List LineToApply
applied = map to_apply

abbrev by_key : Text → EntryRow → Bool
by_key key e = text_eq e.idempotency_key key

module _ (digest : HashPayload → Text) (order_known : ℕ → Bool) where
  -- How a successful Post went: it wrote the entry, or found one with the same hash.
  pub data Posted (b : Books) (req : EntryRequest) (e : Entry) (b' : Books) : Type 0 where
    wrote :
        (rs : List ResolvedLine)
        → validate b.accounts req ≡ ok rs
        → find_by (λ x. text_eq x.idempotency_key req.idempotency_key) b.entries ≡ none
        → references order_known req.order_id ≡ true
        → e ≡ record {
          row = new_row digest order_known b req;
          lines = map posted_line (applied rs);
          outcome = created;
        }
        → b' ≡ with_entry b (new_row digest order_known b req) (applied rs)
        → Posted b req e b'
    found :
        (rs : List ResolvedLine) (existing : EntryRow)
        → validate b.accounts req ≡ ok rs
        → find_by (λ x. text_eq x.idempotency_key req.idempotency_key) b.entries ≡ some existing
        → text_eq existing.payload_hash (digest (canonical_payload req)) ≡ true
        → e ≡ record { row = existing; lines = load_lines b existing.id; outcome = replayed }
        → b' ≡ b
        → Posted b req e b'

  insert_entry_inv :
      (b : Books) (req : EntryRequest) (rs : List ResolvedLine) (e : Entry) (b' : Books)
      → insert_entry digest order_known b req rs ≡ ok (e, b')
      → (references order_known req.order_id ≡ true)
        × (e ≡ record {
          row = new_row digest order_known b req;
          lines = map posted_line (applied rs);
          outcome = created;
        })
        × (b' ≡ with_entry b (new_row digest order_known b req) (applied rs))
  unfolding insert_entry post_lines insert_lines_and_apply_balances
  insert_entry_inv b req rs e b' h =
      let (known, made) = fail_if_ok (not (references order_known req.order_id)) _ _ h in
      (ground (arith, known), ground arith, ground arith)

  resolve_existing_inv :
      (b : Books) (existing : EntryRow) (hash : Text) (e : Entry) (b' : Books)
      → resolve_existing b existing hash ≡ ok (e, b')
      → (text_eq existing.payload_hash hash ≡ true)
        × (e ≡ record { row = existing; lines = load_lines b existing.id; outcome = replayed })
        × (b' ≡ b)
  unfolding resolve_existing
  resolve_existing_inv b existing hash e b' h =
      let (same, made) = fail_if_ok (not (text_eq existing.payload_hash hash)) _ _ h in
      (ground (arith, same), ground arith, ground arith)

  pub post-Posted :
      (b : Books) (req : EntryRequest) (e : Entry) (b' : Books)
      → post digest order_known b req ≡ ok (e, b')
      → Posted b req e b'
  unfolding post
  post-Posted b req e b' h =
      let (rs, valid, h₁) = bind_ok (validate b.accounts req) _ h in
      elim (Option-cases (find_by (λ x. text_eq x.idempotency_key req.idempotency_key) b.entries)) [
        | inl free ↦
            let (known, made, after) = insert_entry_inv b req rs e b' (rw free at h₁) in
            wrote rs valid free known made after
        | inr (existing, there) ↦
            let (same, made, after) =
              resolve_existing_inv b existing (digest (canonical_payload req)) e b'
                (rw there at h₁) in
            found rs existing valid there same made after
      ]

pub found_account :
    (b : Books) (code : Text) (a : Account)
    → IsChart b
    → get_by_code b.accounts code ≡ ok a
    → account_by_id b.accounts a.id ≡ some a
unfolding get_by_code
found_account b code a h e = IsAccountOf.by_id (
    find_by_All (λ x. text_eq x.code code) (IsAccountOf b.accounts b.next_account) b.accounts a h
      (ground arith))

lines-IsWritable :
    (b : Books) (i : ℕ) (ls : List Line) (rs : List ResolvedLine)
    → IsChart b
    → LinesFit ls
    → ResolvedFrom b.accounts i ls rs
    → All (IsWritable b.accounts) (applied rs)
lines-IsWritable b i [] [] h f r = tt
lines-IsWritable b i [] (r ∷ rs) h f q = absurd q
lines-IsWritable b i (l ∷ ls) [] h f q = absurd q
lines-IsWritable b i (l ∷ ls) (r ∷ rs) h f q = (
  record {
    account = r.account;
    known = found_account b l.account_code r.account h q.0.named;
    same_asset = sym q.0.same_asset;
    fits = subst (λ (x : Amount). IsInt64 x.units) (sym q.0.amount) f.0;
  },
  lines-IsWritable b (suc i) ls rs h f.1 q.1,
)

module _ (digest : HashPayload → Text) (order_known : ℕ → Bool) where
  new_row-IsNew :
      (b : Books) (req : EntryRequest) (rs : List ResolvedLine)
      → IsBooks b
      → LinesFit req.lines
      → validate b.accounts req ≡ ok rs
      → find_by (λ x. text_eq x.idempotency_key req.idempotency_key) b.entries ≡ none
      → IsNew b (new_row digest order_known b req) (applied rs)
  new_row-IsNew b req rs v f valid free =
      let a = validate_sound b.accounts req rs f valid in
      record {
        next = refl;
        key_free = free;
        writable = lines-IsWritable b 0 req.lines rs v.chart f a.resolved;
        balanced = λ x. applied_asset_total-to_apply x rs ∙ a.balanced x;
      }

  -- Post of a request with int64 amounts keeps the books well formed: in particular the cache still
  -- agrees with the lines in every account, and every entry and the whole ledger still sum to zero
  -- in every asset.
  pub post-IsBooks :
      (b : Books) (req : EntryRequest) (e : Entry) (b' : Books)
      → IsBooks b
      → LinesFit req.lines
      → post digest order_known b req ≡ ok (e, b')
      → IsBooks b'
  post-IsBooks b req e b' v f h = kept (post-Posted digest order_known b req e b' h)
    where
      kept : Posted digest order_known b req e b' → IsBooks b'
      kept (wrote rs valid free known made after) = subst IsBooks (sym after) (
          with_entry-IsBooks b (new_row digest order_known b req) (applied rs) v
            (new_row-IsNew b req rs v f valid free))
      kept (found rs existing valid there same made after) = subst IsBooks (sym after) v
