-- ===== src/Dispatcher/Broadcast/Rows.antt =====
-- What each statement does to the rows of the attempts.
use usdt_settlement_corridor.Base.{
  ℕ, suc, ◌≡◌, refl, sym, subst, ◌∙◌, Bool, true, false, ◌&&◌, ◌||◌, [], ◌∷◌, ◌++◌, some, arith,
  ◌==◌, Bool-cases, inl, inr, ◌⊎◌,
}
use usdt_settlement_corridor.Base.Text.{Text}
use usdt_settlement_corridor.Base.Table.{exists_by, update_by, exists_by-find_by}
use usdt_settlement_corridor.Base.Count.{update_by-none}
use usdt_settlement_corridor.Dispatcher.Attempts.{
  signed, broadcast, confirmed, failed_status, is_built, is_signed, is_broadcast, is_confirmed,
  is_failed, BroadcastAttempt, AttemptTable, has_hash, has_id, new_attempt, create_attempt,
  update_returning, mark_failed, mark_signed, mark_broadcast, mark_confirmed,
}

update_returning_rows :
    (p : BroadcastAttempt → Bool) (f : BroadcastAttempt → BroadcastAttempt) (i : ℕ)
    (t : AttemptTable)
    → (update_returning p f i t).1 ≡ record t { rows = update_by p f t.rows }
unfolding update_returning
update_returning_rows p f i t = ground (arith, update_by-none p f t.rows)

pub mark_failed_rows :
    (i : ℕ) (t : AttemptTable)
    → (mark_failed i t).1 ≡ record t {
      rows =
          update_by
            (λ a. has_id i a && (is_built a.status || is_signed a.status))
            (λ a. record a { status = failed_status })
            t.rows;
    }
unfolding mark_failed
mark_failed_rows i t =
    update_returning_rows (λ a. has_id i a && (is_built a.status || is_signed a.status))
      (λ a. record a { status = failed_status }) i t

pub mark_signed_rows :
    (i : ℕ) (stored hash : Text) (t : AttemptTable)
    → (mark_signed i stored hash t).1 ≡ record t {
      rows =
          update_by
            (λ a. has_id i a && is_built a.status)
            (λ a. record a { status = signed; signed_tx = some stored; signed_tx_hash = some hash })
            t.rows;
    }
unfolding mark_signed
mark_signed_rows i stored hash t =
    update_returning_rows (λ a. has_id i a && is_built a.status)
      (λ a. record a { status = signed; signed_tx = some stored; signed_tx_hash = some hash }) i t

pub mark_broadcast_rows :
    (i : ℕ) (txid : Text) (now : ℕ) (t : AttemptTable)
    → (mark_broadcast i txid now t).1 ≡ record t {
      rows =
          update_by
            (has_id i)
            (λ a. record a { status = broadcast; tron_txid = some txid; broadcast_at = some now })
            t.rows;
    }
unfolding mark_broadcast
mark_broadcast_rows i txid now t = ground (
  arith,
  exists_by-find_by (has_id i) t.rows,
  update_by-none (has_id i)
      (λ a. record a { status = broadcast; tron_txid = some txid; broadcast_at = some now }) t.rows,
  update_returning_rows (has_id i)
      (λ a. record a { status = broadcast; tron_txid = some txid; broadcast_at = some now }) i t,
)

pub mark_confirmed_rows :
    (i : ℕ) (t : AttemptTable)
    → (mark_confirmed i t).1 ≡ record t {
      rows =
          update_by
            (λ a. has_id i a && is_broadcast a.status)
            (λ a. record a { status = confirmed })
            t.rows;
    }
unfolding mark_confirmed
mark_confirmed_rows i t =
    update_returning_rows (λ a. has_id i a && is_broadcast a.status)
      (λ a. record a { status = confirmed }) i t

-- A row, and the same row later: it keeps what it is about, it keeps its signature once it has one,
-- and it does not change any more when it is confirmed or failed.
pub record Later (a b : BroadcastAttempt) : Type 0 where
  pub same_id : b.id ≡ a.id
  pub same_hash : b.unsigned_tx_hash ≡ a.unsigned_tx_hash
  pub kept : is_built a.status ≡ false → (b.signed_tx ≡ a.signed_tx) × (is_built b.status ≡ false)
  pub final : is_confirmed a.status || is_failed a.status ≡ true → b ≡ a

pub Later-refl : (a : BroadcastAttempt) → Later a a
Later-refl a = record { same_id = refl; same_hash = refl; kept = λ h. (refl, h); final = λ h. refl }

pub Later-trans : (a b c : BroadcastAttempt) → Later a b → Later b c → Later a c
Later-trans a b c p q = record {
  same_id = q.same_id ∙ p.same_id;
  same_hash = q.same_hash ∙ p.same_hash;
  kept = λ h. ((q.kept (p.kept h).1).0 ∙ (p.kept h).0, (q.kept (p.kept h).1).1);
  final = λ h.
      q.final (
        subst (λ (x : BroadcastAttempt). is_confirmed x.status || is_failed x.status ≡ true)
          (sym (p.final h)) h)
      ∙ p.final h;
}

abbrev pub with_new : ℕ → ℕ → ℕ → Text → ℕ → AttemptTable → AttemptTable
with_new order slot number hash now t = record {
  rows = t.rows ++ (new_attempt t.next_id order slot number hash now ∷ []);
  next_id = suc t.next_id;
}

pub create_attempt_does :
    (order slot number : ℕ) (hash : Text) (now : ℕ) (t : AttemptTable)
    → ((create_attempt order slot number hash now t).1 ≡ t)
      ⊎ ((create_attempt order slot number hash now t).1 ≡ with_new order slot number hash now t)
unfolding create_attempt
create_attempt_does order slot number hash now t =
    elim (Bool-cases (
      exists_by (has_hash hash) t.rows
      || exists_by (λ (a : BroadcastAttempt). a.order_id == order && a.attempt_number == number)
          t.rows)) [ inl h ↦ inl (ground arith) | inr h ↦ inr (ground arith) ]
