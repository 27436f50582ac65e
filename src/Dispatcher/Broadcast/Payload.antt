-- ===== src/Dispatcher/Broadcast/Payload.antt =====
-- A row keeps its signature from the section that stores it on, so whatever is sent for an attempt, also
-- again after a row that was not committed, carries that one signature; and a finished row stays.
use usdt_settlement_corridor.Base.{
  ℕ, ◌≡◌, refl, sym, ap, subst, ◌∙◌, Bool, true, false, ◌&&◌, ◌||◌, List, [], ◌∷◌, some, arith,
  ◌==◌, ==_iff, Bool-cases, inl, inr, All, All-append, All-map,
}
use usdt_settlement_corridor.Base.Text.{Text}
use usdt_settlement_corridor.Base.Hex.{hex, hex_decode}
use usdt_settlement_corridor.Base.Table.{
  find_by, update_by, find_by-update_by, find_by-append_some, find_by-true,
}
use usdt_settlement_corridor.Dispatcher.Attempts.{
  BroadcastStatus, signed, broadcast, confirmed, failed_status, is_built, is_signed, is_broadcast,
  is_confirmed, is_failed, BroadcastAttempt, has_id, new_attempt, create_attempt, mark_failed,
  mark_signed, mark_confirmed,
}
use usdt_settlement_corridor.Dispatcher.Broadcast.{
  unavailable, pending, rejected, signed_with, OutsideCall, asked, sent, unsent, Payouts,
  after_signature,
}
use usdt_settlement_corridor.Dispatcher.Broadcast.Rows.{
  mark_failed_rows, mark_signed_rows, mark_confirmed_rows, create_attempt_does, Later, Later-refl,
  Later-trans,
}
use usdt_settlement_corridor.Dispatcher.Broadcast.Sections.{
  sent_row, Sendable, Broadcasts, nothing, unanswered, uncommitted, committed,
  ensure_broadcast_does, Section, creating, asking, answering, broadcasting, failing, confirming,
  Sections, none_yet, one_more, no_payouts,
}

-- The row under an id, later.
abbrev pub Goes : ℕ → BroadcastAttempt → List BroadcastAttempt → Type 0
Goes i a rows = (b : BroadcastAttempt) × (find_by (has_id i) rows ≡ some b) × Later a b

module _ (i : ℕ) (a : BroadcastAttempt) where
  went_on :
      (hit : BroadcastAttempt → Bool) (f : BroadcastAttempt → BroadcastAttempt)
      (rows : List BroadcastAttempt)
      → ((x : BroadcastAttempt) → (f x).id ≡ x.id)
      → (hit a ≡ true → Later a (f a))
      → find_by (has_id i) rows ≡ some a
      → Goes i a (update_by hit f rows)
  went_on hit f rows same later e =
      let there = find_by-update_by hit f (has_id i) rows a (λ x. ap (λ n. n == i) (same x)) e in
      elim (Bool-cases (hit a)) [
        | inl t ↦ (f a, there ∙ rw t refl, later t)
        | inr n ↦ (a, there ∙ rw n refl, Later-refl a)
      ]

  created_on :
      (order slot number : ℕ) (hash : Text) (now : ℕ) (p : Payouts)
      → find_by (has_id i) p.attempts.rows ≡ some a
      → Goes i a (create_attempt order slot number hash now p.attempts).1.rows
  created_on order slot number hash now p e =
      elim (create_attempt_does order slot number hash now p.attempts) [
        | inl h ↦ rw h (a, e, Later-refl a)
        | inr h ↦ rw h (
          a,
          find_by-append_some (has_id i) p.attempts.rows
              (new_attempt p.attempts.next_id order slot number hash now ∷ []) a e,
          Later-refl a,
        )
      ]

  failed_on :
      (j : ℕ) (p : Payouts)
      → find_by (has_id i) p.attempts.rows ≡ some a
      → Goes i a (mark_failed j p.attempts).1.rows
  failed_on j p e = rw (mark_failed_rows j p.attempts) (
      went_on (λ a. has_id j a && (is_built a.status || is_signed a.status))
        (λ a. record a { status = failed_status }) p.attempts.rows (λ x. refl)
        (λ t. record {
          same_id = refl;
          same_hash = refl;
          kept = λ h. (refl, refl);
          final = λ h. absurd (live a.status (has_id j a) t h);
        })
        e)
    where
      live :
          (s : BroadcastStatus) (b : Bool)
          → b && (is_built s || is_signed s) ≡ true
          → is_confirmed s || is_failed s ≡ true
          → ⊥
      live s b t h = ground arith

  signed_on :
      (j : ℕ) (stored hash : Text) (p : Payouts)
      → find_by (has_id i) p.attempts.rows ≡ some a
      → Goes i a (mark_signed j stored hash p.attempts).1.rows
  signed_on j stored hash p e = rw (mark_signed_rows j stored hash p.attempts) (
      went_on (λ a. has_id j a && is_built a.status)
        (λ a. record a { status = signed; signed_tx = some stored; signed_tx_hash = some hash })
        p.attempts.rows (λ x. refl)
        (λ t. record {
          same_id = refl;
          same_hash = refl;
          kept = λ h. absurd (not_built a.status (has_id j a) t h);
          final = λ h. absurd (live a.status (has_id j a) t h);
        })
        e)
    where
      not_built : (s : BroadcastStatus) (b : Bool) → b && is_built s ≡ true → is_built s ≡ false → ⊥
      not_built s b t h = ground arith

      live :
          (s : BroadcastStatus) (b : Bool)
          → b && is_built s ≡ true
          → is_confirmed s || is_failed s ≡ true
          → ⊥
      live s b t h = ground arith

  confirmed_on :
      (j : ℕ) (p : Payouts)
      → find_by (has_id i) p.attempts.rows ≡ some a
      → Goes i a (mark_confirmed j p.attempts).1.rows
  confirmed_on j p e = rw (mark_confirmed_rows j p.attempts) (
      went_on (λ a. has_id j a && is_broadcast a.status) (λ a. record a { status = confirmed })
        p.attempts.rows (λ x. refl)
        (λ t. record {
          same_id = refl;
          same_hash = refl;
          kept = λ h. (refl, refl);
          final = λ h. absurd (live a.status (has_id j a) t h);
        })
        e)
    where
      live :
          (s : BroadcastStatus) (b : Bool)
          → b && is_broadcast s ≡ true
          → is_confirmed s || is_failed s ≡ true
          → ⊥
      live s b t h = ground arith

  sent_on :
      (j : ℕ) (signature txid : Text) (now : ℕ) (p : Payouts)
      → Sendable j signature p
      → find_by (has_id i) p.attempts.rows ≡ some a
      → Goes i a (sent_row j txid now p.attempts).rows
  sent_on j signature txid now p s e =
      went_on (has_id j)
        (λ a. record a { status = broadcast; tron_txid = some txid; broadcast_at = some now })
        p.attempts.rows (λ x. refl)
        (λ t.
          let was : is_signed a.status ≡ true = its_row t in
          record {
            same_id = refl;
            same_hash = refl;
            kept = λ h. (refl, refl);
            final = λ h. absurd (live a.status was h);
          })
        e
    where
      live : (s : BroadcastStatus) → is_signed s ≡ true → is_confirmed s || is_failed s ≡ true → ⊥
      live s t h = ground arith

      one_row :
          (x y : BroadcastAttempt)
          → some x ≡ some y
          → is_signed x.status ≡ true
          → is_signed y.status ≡ true
      one_row x y h t = cc

      -- The row that is sent is this one, if it has its id.
      its_row : has_id j a ≡ true → is_signed a.status ≡ true
      its_row t =
          let at : (a.id == i) ≡ true = find_by-true (has_id i) p.attempts.rows a e in
          let same : j ≡ i = sym ((==_iff a.id j).0 t) ∙ (==_iff a.id i).0 at in
          one_row s.current a (sym s.found ∙ ap (λ n. find_by (has_id n) p.attempts.rows) same ∙ e)
            s.signed

  Section-Goes :
      (p q : Payouts)
      → Section p q
      → find_by (has_id i) p.attempts.rows ≡ some a
      → Goes i a q.attempts.rows
  unfolding after_signature
  Section-Goes p q (creating order slot number hash now) e =
      created_on order slot number hash now p e
  Section-Goes p q (asking slot key) e = (a, e, Later-refl a)
  Section-Goes p q (answering sv j unavailable) e = (a, e, Later-refl a)
  Section-Goes p q (answering sv j pending) e = (a, e, Later-refl a)
  Section-Goes p q (answering sv j rejected) e = failed_on j p e
  Section-Goes p q (answering sv j (signed_with signature)) e =
      signed_on j (hex signature) (sv.hash_hex signature) p e
  Section-Goes p q (broadcasting sv j tx) e = does q (ensure_broadcast_does sv j tx p)
    where
      does : (r : Payouts) → Broadcasts j tx p r → Goes i a r.attempts.rows
      does r nothing = (a, e, Later-refl a)
      does r (unanswered signature s) = (a, e, Later-refl a)
      does r (uncommitted signature s) = (a, e, Later-refl a)
      does r (committed signature txid now s) = sent_on j signature txid now p s e
  Section-Goes p q (failing j) e = failed_on j p e
  Section-Goes p q (confirming j) e = confirmed_on j p e

-- Through any sections a row stays under its id, with what it is about and with its signature.
pub Sections-Goes :
    (i : ℕ) (a : BroadcastAttempt) (p q : Payouts)
    → Sections p q
    → find_by (has_id i) p.attempts.rows ≡ some a
    → Goes i a q.attempts.rows
Sections-Goes i a p q none_yet e = (a, e, Later-refl a)
Sections-Goes i a p q (one_more r s before last) e =
    let (b, there, on) = Sections-Goes i a p r before e in
    let (c, here, further) = Section-Goes i b r q last there in
    (c, here, Later-trans a b c on further)

-- An attempt that is CONFIRMED or FAILED stays exactly as it is, whatever any callers do later: it is
-- not signed, broadcast or confirmed again.
pub finished_forever :
    (i : ℕ) (a : BroadcastAttempt) (p q : Payouts)
    → find_by (has_id i) p.attempts.rows ≡ some a
    → is_confirmed a.status || is_failed a.status ≡ true
    → Sections p q
    → find_by (has_id i) q.attempts.rows ≡ some a
finished_forever i a p q e h sections =
    let (b, there, on) = Sections-Goes i a p q sections e in
    subst (λ x. find_by (has_id i) q.attempts.rows ≡ some x) (on.final h) there

-- The row of an attempt holds a signature, and is past signing.
abbrev pub Holds : Text → BroadcastAttempt → Type 0
Holds signature a =
    (is_built a.status ≡ false)
    × ((stored : Text) × (a.signed_tx ≡ some stored) × (hex_decode stored ≡ some signature))

-- What is sent to the chain is the signature that the row of the attempt holds.
abbrev pub Carries : List BroadcastAttempt → OutsideCall → Type 0
Carries rows (asked slot key) = Unit
Carries rows (unsent i tx signature) =
    (a : BroadcastAttempt) × (find_by (has_id i) rows ≡ some a) × Holds signature a
Carries rows (sent i tx signature ok) =
    (a : BroadcastAttempt) × (find_by (has_id i) rows ≡ some a) × Holds signature a

kept_signature :
    (p q : Payouts) (c : OutsideCall)
    → Section p q
    → Carries p.attempts.rows c
    → Carries q.attempts.rows c
kept_signature p q (asked slot key) s h = tt
kept_signature p q (unsent i tx signature) s (a, e, (live, (stored, h, d))) =
    let (b, there, on) = Section-Goes i a p q s e in
    (b, there, ((on.kept live).1, (stored, (on.kept live).0 ∙ h, d)))
kept_signature p q (sent i tx signature ok) s (a, e, (live, (stored, h, d))) =
    let (b, there, on) = Section-Goes i a p q s e in
    (b, there, ((on.kept live).1, (stored, (on.kept live).0 ∙ h, d)))

signature_to_send :
    (i : ℕ) (tx signature : Text) (ok : Bool) (p : Payouts)
    → Sendable i signature p
    → Carries p.attempts.rows (sent i tx signature ok)
signature_to_send i tx signature ok p s =
    (s.current, s.found, (not_built s.current.status s.signed, (s.stored, s.holds, s.decoded)))
  where
    not_built : (t : BroadcastStatus) → is_signed t ≡ true → is_built t ≡ false
    not_built t h = ground arith

kept_signatures :
    (p q : Payouts) (calls : List OutsideCall)
    → Section p q
    → All (Carries p.attempts.rows) calls
    → All (Carries q.attempts.rows) calls
kept_signatures p q calls s h =
    All-map (Carries p.attempts.rows) (Carries q.attempts.rows) calls (λ c. kept_signature p q c s)
      h

Section-Carries :
    (p q : Payouts)
    → All (Carries p.attempts.rows) p.calls
    → Section p q
    → All (Carries q.attempts.rows) q.calls
unfolding after_signature
Section-Carries p q h (creating order slot number hash now) =
    kept_signatures p q p.calls (creating order slot number hash now) h
Section-Carries p q h (asking slot key) =
    All-append (Carries p.attempts.rows) p.calls (asked slot key ∷ []) h (tt, tt)
Section-Carries p q h (answering sv i unavailable) = h
Section-Carries p q h (answering sv i pending) = h
Section-Carries p q h (answering sv i rejected) = kept_signatures p q p.calls (failing i) h
Section-Carries p q h (answering sv i (signed_with signature)) =
    kept_signatures p q p.calls (answering sv i (signed_with signature)) h
Section-Carries p q h (broadcasting sv i tx) =
    does q (ensure_broadcast_does sv i tx p) (broadcasting sv i tx)
  where
    does : (r : Payouts) → Broadcasts i tx p r → Section p r → All (Carries r.attempts.rows) r.calls
    does r nothing s = h
    does r (unanswered signature k) s =
        All-append (Carries p.attempts.rows) p.calls (unsent i tx signature ∷ []) h
          (signature_to_send i tx signature false p k, tt)
    does r (uncommitted signature k) s =
        All-append (Carries p.attempts.rows) p.calls (sent i tx signature false ∷ []) h
          (signature_to_send i tx signature false p k, tt)
    does r (committed signature txid now k) s =
        All-append (Carries (sent_row i txid now p.attempts).rows) p.calls
          (sent i tx signature true ∷ []) (kept_signatures p r p.calls s h)
          (
            kept_signature p r (sent i tx signature true) s
                (signature_to_send i tx signature true p k),
            tt,
          )
Section-Carries p q h (failing i) = kept_signatures p q p.calls (failing i) h
Section-Carries p q h (confirming i) = kept_signatures p q p.calls (confirming i) h

-- However sections are interleaved on an empty table: every call of the chain for an attempt, those
-- that the chain refused or did not answer and those whose row could not be committed included,
-- carried the one signature that its row holds.
pub one_signature : (p : Payouts) → Sections no_payouts p → All (Carries p.attempts.rows) p.calls
one_signature p none_yet = tt
one_signature p (one_more q r before last) = Section-Carries q p (one_signature q before) last
