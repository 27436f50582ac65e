-- ===== src/Ledger/Journal/Replay.antt =====
-- Idempotency of Post: a retry, and a key used twice (ledger/internal/journal/post.go).
use usdt_settlement_corridor.Base.{
  ℕ, suc, ◌<◌, ◌≡◌, ◌≢◌, refl, sym, ap, ◌∙◌, Bool, true, false, List, [], ◌∷◌, some, map, arith,
  All, inl, inr, Bool-cases,
}
use usdt_settlement_corridor.Base.Text.{Text, text_eq, text_eq_refl, eq_of_text_eq}
use usdt_settlement_corridor.Base.Sort.{sort_by, sort_by_ascending, IsAscending}
use usdt_settlement_corridor.Base.Table.{find_by, find_by-append_none}
use usdt_settlement_corridor.Base.Int.{pos, ltb_ℤ}
use usdt_settlement_corridor.Ledger.Error.{Result, ok, err, idempotency_conflict}
use usdt_settlement_corridor.Ledger.Database.{Account, EntryRow, Books}
use usdt_settlement_corridor.Ledger.Journal.Entry.{
  Line, EntryRequest, ResolvedLine, HashPayload, validate, canonical_payload,
}
use usdt_settlement_corridor.Ledger.Journal.Posting.{
  Entry, PostedLine, replayed, posted_line, line_row, by_seq, join_accounts, load_lines,
  resolve_existing, new_row, post,
}
use usdt_settlement_corridor.Ledger.Journal.Sums.{LinesFit}
use usdt_settlement_corridor.Ledger.Journal.Validation.{ResolvedFrom, validate_sound, Accepts}
use usdt_settlement_corridor.Ledger.Journal.Invariant.{IsBooks, with_entry, lines_of-with_entry_new}
use usdt_settlement_corridor.Ledger.Journal.Outcomes.{
  Posted, wrote, found, post-Posted, applied, found_account,
}

-- The join finds every line's account and gives the line as it was posted.
join_written :
    (b : Books) (n i : ℕ) (ls : List Line) (rs : List ResolvedLine)
    → IsBooks b
    → ResolvedFrom b.accounts i ls rs
    → join_accounts b.accounts (map (line_row n) (applied rs)) ≡ map posted_line (applied rs)
unfolding join_accounts
join_written b n i [] [] v q = refl
join_written b n i [] (r ∷ rs) v q = absurd q
join_written b n i (l ∷ ls) [] v q = absurd q
join_written b n i (l ∷ ls) (r ∷ rs) v q = ground (
  arith,
  found_account b l.account_code r.account v.chart q.0.named,
  join_written b n (suc i) ls rs v q.1,
)

-- Posted lines are numbered by their place.
posted_from :
    (accounts : List Account) (i : ℕ) (ls : List Line) (rs : List ResolvedLine) (k : ℕ)
    → k < i
    → ResolvedFrom accounts i ls rs
    → All (λ (p : PostedLine). ltb_ℤ p.seq (pos k) ≡ false) (map posted_line (applied rs))
posted_from accounts i [] [] k h q = tt
posted_from accounts i [] (r ∷ rs) k h q = absurd q
posted_from accounts i (l ∷ ls) [] k h q = absurd q
posted_from accounts i (l ∷ ls) (r ∷ rs) k h q =
    (rw (q.0.numbered) (ground arith), posted_from accounts (suc i) ls rs k (omega arith) q.1)

posted-IsAscending :
    (accounts : List Account) (i : ℕ) (ls : List Line) (rs : List ResolvedLine)
    → ResolvedFrom accounts i ls rs
    → IsAscending by_seq (map posted_line (applied rs))
posted-IsAscending accounts i [] [] q = tt
posted-IsAscending accounts i [] (r ∷ rs) q = absurd q
posted-IsAscending accounts i (l ∷ ls) [] q = absurd q
posted-IsAscending accounts i (l ∷ ls) (r ∷ rs) q = (
  rw q.0.numbered (posted_from accounts (suc i) ls rs i (omega arith) q.1),
  posted-IsAscending accounts (suc i) ls rs q.1,
)

-- The lines of a new entry are read back as they were posted.
load_lines-with_entry :
    (b : Books) (row : EntryRow) (ls : List Line) (rs : List ResolvedLine)
    → IsBooks b
    → row.id ≡ b.next_entry
    → ResolvedFrom b.accounts 0 ls rs
    → load_lines (with_entry b row (applied rs)) row.id ≡ map posted_line (applied rs)
unfolding load_lines
load_lines-with_entry b row ls rs v e q =
    ap (λ t. sort_by by_seq (join_accounts b.accounts t))
      (lines_of-with_entry_new b row (applied rs) v e)
    ∙ ap (sort_by by_seq) (join_written b row.id 0 ls rs v q)
    ∙ sort_by_ascending by_seq _ (posted-IsAscending b.accounts 0 ls rs q)

text_ne : (s t : Text) → s ≢ t → text_eq s t ≡ false
text_ne s t h = elim (Bool-cases (text_eq s t)) [
  | inl same ↦ absurd (h (eq_of_text_eq s t same))
  | inr other ↦ other
]

module _ (digest : HashPayload → Text) (order_known : ℕ → Bool) where
  replayed_existing :
      (b : Books) (req : EntryRequest) (rs : List ResolvedLine) (existing : EntryRow)
      → validate b.accounts req ≡ ok rs
      → find_by (λ x. text_eq x.idempotency_key req.idempotency_key) b.entries ≡ some existing
      → text_eq existing.payload_hash (digest (canonical_payload req)) ≡ true
      → post digest order_known b req
        ≡ ok (record { row = existing; lines = load_lines b existing.id; outcome = replayed }, b)
  unfolding post resolve_existing
  replayed_existing b req rs existing valid there same = rw (valid, there, same)

  -- In well-formed books and with int64 amounts, a retried Post gives the entry that the first call
  -- gave, now marked as replayed, with the lines as they were posted, and changes nothing in the
  -- books.
  pub post_twice :
      (b : Books) (req : EntryRequest) (e : Entry) (b' : Books)
      → IsBooks b
      → LinesFit req.lines
      → post digest order_known b req ≡ ok (e, b')
      → post digest order_known b' req ≡ ok (record e { outcome = replayed }, b')
  post_twice b req e b' v f h = again (post-Posted digest order_known b req e b' h)
    where
      again :
          Posted digest order_known b req e b'
          → post digest order_known b' req ≡ ok (record e { outcome = replayed }, b')
      again (wrote rs valid free known made after) =
          let row = new_row digest order_known b req in
          let c = with_entry b row (applied rs) in
          let lines =
            load_lines-with_entry b row req.lines rs v refl
              (Accepts.resolved (validate_sound b.accounts req rs f valid)) in
          let retry =
            replayed_existing c req rs row valid
              (find_by-append_none _ b.entries row free (text_eq_refl req.idempotency_key))
              (text_eq_refl row.payload_hash) in
          rw (after, made)
            (retry
              ∙ ap {B = Result (Entry × Books)}
                  (λ t. ok (record { row = row; lines = t; outcome = replayed }, c)) lines)
      again (found rs existing valid there same made after) =
          rw (after, made) (replayed_existing b req rs existing valid there same)

  refused_existing :
      (b : Books) (req : EntryRequest) (rs : List ResolvedLine) (existing : EntryRow)
      → validate b.accounts req ≡ ok rs
      → find_by (λ x. text_eq x.idempotency_key req.idempotency_key) b.entries ≡ some existing
      → text_eq existing.payload_hash (digest (canonical_payload req)) ≡ false
      → post digest order_known b req ≡ err idempotency_conflict
  unfolding post resolve_existing
  refused_existing b req rs existing valid there other = rw (valid, there, other)

  -- The hash that stands under a posted key is that of the payload.
  Posted-hash :
      (b : Books) (req : EntryRequest) (e : Entry) (b' : Books)
      → Posted digest order_known b req e b'
      → (existing : EntryRow) × (find_by
            (λ x. text_eq x.idempotency_key req.idempotency_key)
            b'.entries
          ≡ some existing)
        × (existing.payload_hash ≡ digest (canonical_payload req))
  Posted-hash b req e b' (wrote rs valid free known made after) =
      let row = new_row digest order_known b req in
      (
        row,
        rw after (find_by-append_none _ b.entries row free (text_eq_refl req.idempotency_key)),
        refl,
      )
  Posted-hash b req e b' (found rs existing valid there same made after) =
      (existing, rw after there, eq_of_text_eq _ _ same)

  -- Once a request is posted, another valid request with the same key and a different payload is
  -- refused with the conflict error, provided that the digest tells the two payloads apart.
  pub post_conflict :
      (b : Books) (req other : EntryRequest) (e : Entry) (b' : Books) (rs : List ResolvedLine)
      → post digest order_known b req ≡ ok (e, b')
      → other.idempotency_key ≡ req.idempotency_key
      → validate b'.accounts other ≡ ok rs
      → digest (canonical_payload req) ≢ digest (canonical_payload other)
      → post digest order_known b' other ≡ err idempotency_conflict
  post_conflict b req other e b' rs h key valid differ =
      let (existing, there, hash) =
        Posted-hash b req e b' (post-Posted digest order_known b req e b' h) in
      refused_existing b' other rs existing valid (rw key there)
        (text_ne existing.payload_hash _ (λ same. differ (sym hash ∙ same)))
