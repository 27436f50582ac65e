-- ===== src/Dispatcher/Broadcast/Resume.antt =====
-- Broadcast called again for the same transfer, and for a transfer that is signed but not yet sent.
use usdt_settlement_corridor.Base.{
  ℕ, ◌≡◌, refl, sym, ap, subst, ◌∙◌, true, false, List, [], ◌∷◌, ◌++◌, some, arith, length, ◌==◌,
  ==_iff, Bool-cases, inl, inr, ◌⊎◌,
}
use usdt_settlement_corridor.Base.Text.{Text}
use usdt_settlement_corridor.Base.Hex.{hex_decode}
use usdt_settlement_corridor.Base.Table.{
  find_by, update_by, exists_by-find_by-some, find_by-true, find_by-update_by,
}
use usdt_settlement_corridor.Dispatcher.Answer.{Answer, done}
use usdt_settlement_corridor.Dispatcher.Attempts.{
  broadcast, is_signed, is_terminal, BroadcastAttempt, AttemptTable, has_id, has_hash, get,
  get_by_unsigned_tx_hash, create_attempt, mark_broadcast, update_returning,
}
use usdt_settlement_corridor.Dispatcher.Broadcast.{
  sent, Payouts, Services, ensure_signed, send_signed, read_signature, with_signature,
  broadcast_row, ensure_broadcast, continue_broadcast, broadcast_transfer,
}
use usdt_settlement_corridor.Dispatcher.Broadcast.Rows.{mark_broadcast_rows}

module _ (sv : Services) (order slot number : ℕ) (tx : Text) (p : Payouts)
    (a : BroadcastAttempt) where
  known_create :
      find_by (has_hash (sv.hash_hex tx)) p.attempts.rows ≡ some a
      → create_attempt order slot number (sv.hash_hex tx) sv.now p.attempts ≡ (done a, p.attempts)
  unfolding create_attempt get_by_unsigned_tx_hash
  known_create e =
      ground (arith, exists_by-find_by-some (has_hash (sv.hash_hex tx)) p.attempts.rows a e)

  -- A transfer whose attempt is BROADCAST, CONFIRMED or FAILED: the row is returned, and neither the
  -- signer nor the chain is called.
  pub broadcast_transfer_again :
      find_by (has_hash (sv.hash_hex tx)) p.attempts.rows ≡ some a
      → is_terminal a.status ≡ true
      → broadcast_transfer sv order slot number tx p ≡ (done a, p)
  unfolding broadcast_transfer
  broadcast_transfer_again e t = ground (arith, known_create e)

  known_signed :
      find_by (has_id a.id) p.attempts.rows ≡ some a
      → is_signed a.status ≡ true
      → ensure_signed sv a.id order slot number tx p ≡ (done a, p)
  unfolding ensure_signed get
  known_signed i s = ground arith

  known_marked :
      (txid : Text)
      → find_by (has_id a.id) p.attempts.rows ≡ some a
      → mark_broadcast a.id txid sv.now p.attempts ≡ (
        done (record a { status = broadcast; tron_txid = some txid; broadcast_at = some sv.now }),
        (mark_broadcast a.id txid sv.now p.attempts).1,
      )
  unfolding mark_broadcast update_returning
  known_marked txid i = ground (arith, exists_by-find_by-some (has_id a.id) p.attempts.rows a i)

  readable :
      (signature : Text)
      → length signature ≡ 65
      → sv.reads_transaction tx ≡ true
      → read_signature sv tx (some signature) ≡ done signature
  unfolding read_signature
  readable signature l r = ground arith

  sends :
      (stored signature txid : Text)
      → find_by (has_id a.id) p.attempts.rows ≡ some a
      → is_signed a.status ≡ true
      → a.signed_tx ≡ some stored
      → hex_decode stored ≡ some signature
      → read_signature sv tx (some signature) ≡ done signature
      → sv.chain_broadcast tx signature ≡ some txid
      → sv.commits ≡ true
      → ensure_broadcast sv a.id tx p ≡ (
        done (record a { status = broadcast; tron_txid = some txid; broadcast_at = some sv.now }),
        record {
          attempts = (mark_broadcast a.id txid sv.now p.attempts).1;
          calls = p.calls ++ (sent a.id tx signature true ∷ []);
        },
      )
  unfolding ensure_broadcast get broadcast_row with_signature send_signed
  sends stored signature txid i s h d r b c = ground (arith, known_marked txid i)

  resumed_run :
      (stored signature txid : Text)
      → find_by (has_hash (sv.hash_hex tx)) p.attempts.rows ≡ some a
      → find_by (has_id a.id) p.attempts.rows ≡ some a
      → is_signed a.status ≡ true
      → a.signed_tx ≡ some stored
      → hex_decode stored ≡ some signature
      → length signature ≡ 65
      → sv.reads_transaction tx ≡ true
      → sv.chain_broadcast tx signature ≡ some txid
      → sv.commits ≡ true
      → broadcast_transfer sv order slot number tx p ≡ (
        done (record a { status = broadcast; tron_txid = some txid; broadcast_at = some sv.now }),
        record {
          attempts = (mark_broadcast a.id txid sv.now p.attempts).1;
          calls = p.calls ++ (sent a.id tx signature true ∷ []);
        },
      )
  unfolding broadcast_transfer continue_broadcast
  resumed_run stored signature txid e i s h d l r b c = ground (
    arith,
    known_create e,
    known_signed i s,
    sends stored signature txid i s h d (readable signature l r) b c,
  )

-- How the call for a signed transfer ends, and a call after it with services `sv'`.
pub record Resumed (sv sv' : Services) (order slot number : ℕ) (tx signature txid : Text)
    (p : Payouts) (a : BroadcastAttempt) (answer : Answer BroadcastAttempt) (q : Payouts)
    : Type 0 where
  pub row : BroadcastAttempt
  pub is : row ≡ record a { status = broadcast; tron_txid = some txid; broadcast_at = some sv.now }
  pub answered : answer ≡ done row
  pub stored : find_by (has_id a.id) q.attempts.rows ≡ some row
  pub others :
      (j : ℕ)
      → (a.id ≡ j) ⊎ (find_by (has_id j) q.attempts.rows ≡ find_by (has_id j) p.attempts.rows)
  pub called : q.calls ≡ p.calls ++ (sent a.id tx signature true ∷ [])
  pub again : broadcast_transfer sv' order slot number tx q ≡ (done row, q)

other_row :
    (i j : ℕ) (f : BroadcastAttempt → BroadcastAttempt) (rows : List BroadcastAttempt)
    → ((x : BroadcastAttempt) → (f x).id ≡ x.id)
    → (i == j) ≡ false
    → find_by (has_id j) (update_by (has_id i) f rows) ≡ find_by (has_id j) rows
unfolding find_by update_by
other_row i j f [] same n = refl
other_row i j f (x ∷ rows) same n = ground (arith, same x, other_row i j f rows same n)

-- A transfer whose attempt is SIGNED, after a crash say, with a stored signature that can be read: if
-- the chain takes the transfer and the row can be committed, then Broadcast returns the row as
-- BROADCAST with the transaction's id, and the table holds it so, with every other row as it was; the
-- signer was not called, and the chain was called once, with the stored signature. Broadcast once
-- more, whatever the signer and the chain would then say, returns that row and calls neither.
pub broadcast_transfer-Resumed :
    (sv sv' : Services) (order slot number : ℕ) (tx : Text) (p : Payouts) (a : BroadcastAttempt)
    (stored signature txid : Text)
    → find_by (has_hash (sv.hash_hex tx)) p.attempts.rows ≡ some a
    → find_by (has_id a.id) p.attempts.rows ≡ some a
    → is_signed a.status ≡ true
    → a.signed_tx ≡ some stored
    → hex_decode stored ≡ some signature
    → length signature ≡ 65
    → sv.reads_transaction tx ≡ true
    → sv.chain_broadcast tx signature ≡ some txid
    → sv.commits ≡ true
    → sv'.hash_hex tx ≡ sv.hash_hex tx
    → Resumed sv sv' order slot number tx signature txid p a
        (broadcast_transfer sv order slot number tx p).0
        (broadcast_transfer sv order slot number tx p).1
broadcast_transfer-Resumed sv sv' order slot number tx p a stored signature txid e i s h d l r b c
      same =
    let ran = resumed_run sv order slot number tx p a stored signature txid e i s h d l r b c in
    let f : BroadcastAttempt → BroadcastAttempt =
      λ x. record x { status = broadcast; tron_txid = some txid; broadcast_at = some sv.now } in
    let rows = update_by (has_id a.id) f p.attempts.rows in
    let q : Payouts = record {
      attempts = record p.attempts { rows = rows };
      calls = p.calls ++ (sent a.id tx signature true ∷ []);
    } in
    let hit = find_by-true (has_id a.id) p.attempts.rows a i in
    let by_id = find_by-update_by (has_id a.id) f (has_id a.id) p.attempts.rows a (λ x. refl) i in
    let by_hash =
      find_by-update_by (has_id a.id) f (has_hash (sv.hash_hex tx)) p.attempts.rows a (λ x. refl)
        e in
    let its_row : find_by (has_hash (sv'.hash_hex tx)) rows ≡ some (f a) =
      ap (λ t. find_by (has_hash t) rows) same ∙ by_hash ∙ rw hit refl in
    let is : broadcast_transfer sv order slot number tx p ≡ (done (f a), q) =
      ran
      ∙ ap
          (λ (t : AttemptTable). (
            done (f a),
            record { attempts = t; calls = p.calls ++ (sent a.id tx signature true ∷ []) },
          ))
          (mark_broadcast_rows a.id txid sv.now p.attempts) in
    subst
      (λ (t : Answer BroadcastAttempt × Payouts).
        Resumed sv sv' order slot number tx signature txid p a t.0 t.1)
      (sym is)
      (record {
        row = f a;
        is = refl;
        answered = refl;
        stored = by_id ∙ rw hit refl;
        others = λ j. elim (Bool-cases (a.id == j)) [
          | inl t ↦ inl ((==_iff a.id j).0 t)
          | inr n ↦ inr (other_row a.id j f p.attempts.rows (λ x. refl) n)
        ];
        called = refl;
        again = broadcast_transfer_again sv' order slot number tx q (f a) its_row refl;
      })
