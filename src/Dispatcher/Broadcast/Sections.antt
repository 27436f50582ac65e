-- ===== src/Dispatcher/Broadcast/Sections.antt =====
-- The sections of Broadcast and the other statements on attempts as steps, in any order and by any
-- number of callers, and what one step may do.
use usdt_settlement_corridor.Base.{
  ℕ, ◌≡◌, refl, subst, true, false, ◌||◌, not, [], ◌∷◌, ◌++◌, Option, none, some, arith, Bool-cases,
  Option-cases, inl, inr, length,
}
use usdt_settlement_corridor.Base.Text.{Text}
use usdt_settlement_corridor.Base.Hex.{hex_decode}
use usdt_settlement_corridor.Base.Table.{find_by, update_by}
use usdt_settlement_corridor.Dispatcher.Answer.{Answer, failed, done}
use usdt_settlement_corridor.Dispatcher.Attempts.{
  is_signed, is_terminal, broadcast, BroadcastAttempt, AttemptTable, empty_attempts, has_id, get,
  create_attempt, mark_failed, mark_confirmed,
}
use usdt_settlement_corridor.Dispatcher.Broadcast.{
  SigningAnswer, asked, sent, unsent, Payouts, Services, after_signature, send_signed,
  read_signature, with_signature, broadcast_row, ensure_broadcast,
}
use usdt_settlement_corridor.Dispatcher.Broadcast.Rows.{mark_broadcast_rows}

-- What a call of ensureBroadcast does: nothing; or, for a signed row with a stored signature that can
-- be read, a call of the chain, which fails, or succeeds with or without the commit of the row.
abbrev pub sent_row : ℕ → Text → ℕ → AttemptTable → AttemptTable
sent_row i txid now t = record t {
  rows =
      update_by (has_id i)
        (λ a. record a { status = broadcast; tron_txid = some txid; broadcast_at = some now })
        t.rows;
}

pub record Sendable (i : ℕ) (signature : Text) (p : Payouts) : Type 0 where
  pub current : BroadcastAttempt
  pub stored : Text
  pub found : find_by (has_id i) p.attempts.rows ≡ some current
  pub signed : is_signed current.status ≡ true
  pub holds : current.signed_tx ≡ some stored
  pub decoded : hex_decode stored ≡ some signature
  pub whole : length signature ≡ 65

pub data Broadcasts (i : ℕ) (unsigned_tx : Text) (p : Payouts) : Payouts → Type 0 where
  nothing : Broadcasts i unsigned_tx p p
  unanswered :
      (signature : Text)
      → Sendable i signature p
      → Broadcasts i unsigned_tx p
          (record p { calls = p.calls ++ (unsent i unsigned_tx signature ∷ []) })
  uncommitted :
      (signature : Text)
      → Sendable i signature p
      → Broadcasts i unsigned_tx p
          (record p { calls = p.calls ++ (sent i unsigned_tx signature false ∷ []) })
  committed :
      (signature txid : Text) (now : ℕ)
      → Sendable i signature p
      → Broadcasts i unsigned_tx p (record {
        attempts = sent_row i txid now p.attempts;
        calls = p.calls ++ (sent i unsigned_tx signature true ∷ []);
      })

module _ (sv : Services) (i : ℕ) (unsigned_tx : Text) (p : Payouts) where
  send_signed_does :
      (signature : Text)
      → Sendable i signature p
      → Broadcasts i unsigned_tx p (send_signed sv i unsigned_tx signature p).1
  unfolding send_signed
  send_signed_does signature s = elim (Option-cases (sv.chain_broadcast unsigned_tx signature)) [
    | inl e ↦ subst (Broadcasts i unsigned_tx p) (ground arith) (unanswered signature s)
    | inr (txid, e) ↦ elim (Bool-cases sv.commits) [
      | inl c ↦
          subst (Broadcasts i unsigned_tx p)
            (ground (arith, mark_broadcast_rows i txid sv.now p.attempts))
            (committed signature txid sv.now s)
      | inr c ↦ subst (Broadcasts i unsigned_tx p) (ground arith) (uncommitted signature s)
    ]
  ]

  read_signature_done :
      (o : Option Text) (signature : Text)
      → read_signature sv unsigned_tx o ≡ done signature
      → (o ≡ some signature) × (length signature ≡ 65)
  unfolding read_signature
  read_signature_done none signature h = cc
  read_signature_done (some s) signature h = ground arith

  answered :
      (current : BroadcastAttempt) (stored : Text) (a : Answer Text)
      → find_by (has_id i) p.attempts.rows ≡ some current
      → is_signed current.status ≡ true
      → current.signed_tx ≡ some stored
      → read_signature sv unsigned_tx (hex_decode stored) ≡ a
      → Broadcasts i unsigned_tx p (with_signature sv i unsigned_tx a p).1
  unfolding with_signature
  answered current stored (failed f) e g h r = nothing
  answered current stored (done signature) e g h r =
      let (decoded, whole) = read_signature_done (hex_decode stored) signature r in
      send_signed_does signature (record {
        current = current;
        stored = stored;
        found = e;
        signed = g;
        holds = h;
        decoded = decoded;
        whole = whole;
      })

  row_does :
      (current : BroadcastAttempt)
      → find_by (has_id i) p.attempts.rows ≡ some current
      → Broadcasts i unsigned_tx p (broadcast_row sv i unsigned_tx current p).1
  unfolding broadcast_row
  row_does current e =
      elim (Bool-cases (is_terminal current.status || not (is_signed current.status))) [
        | inl t ↦ subst (Broadcasts i unsigned_tx p) (ground arith) nothing
        | inr live ↦ elim (Option-cases current.signed_tx) [
          | inl n ↦ subst (Broadcasts i unsigned_tx p) (ground arith) nothing
          | inr (stored, h) ↦ subst (Broadcasts i unsigned_tx p) (ground arith) (
              answered current stored (read_signature sv unsigned_tx (hex_decode stored)) e
                (ground arith) h refl)
        ]
      ]

  -- What a call of ensureBroadcast may do, whatever the chain answers.
  pub ensure_broadcast_does : Broadcasts i unsigned_tx p (ensure_broadcast sv i unsigned_tx p).1
  unfolding ensure_broadcast get
  ensure_broadcast_does = elim (Option-cases (find_by (has_id i) p.attempts.rows)) [
    | inl e ↦ subst (Broadcasts i unsigned_tx p) (ground arith) nothing
    | inr (current, e) ↦ subst (Broadcasts i unsigned_tx p) (ground arith) (row_does current e)
  ]

-- One section, by any caller.
pub data Section (p : Payouts) : Payouts → Type 0 where
  creating :
      (order slot number : ℕ) (hash : Text) (now : ℕ)
      → Section p (record p { attempts = (create_attempt order slot number hash now p.attempts).1 })
  asking :
      (slot : ℕ) (key : Text) → Section p (record p { calls = p.calls ++ (asked slot key ∷ []) })
  answering :
      (sv : Services) (i : ℕ) (answer : SigningAnswer) → Section p (after_signature sv i answer p).1
  broadcasting :
      (sv : Services) (i : ℕ) (unsigned_tx : Text)
      → Section p (ensure_broadcast sv i unsigned_tx p).1
  failing : (i : ℕ) → Section p (record p { attempts = (mark_failed i p.attempts).1 })
  confirming : (i : ℕ) → Section p (record p { attempts = (mark_confirmed i p.attempts).1 })

pub data Sections (p : Payouts) : Payouts → Type 0 where
  none_yet : Sections p p
  one_more : (q r : Payouts) → Sections p q → Section q r → Sections p r

abbrev pub no_payouts : Payouts
no_payouts = record { attempts = empty_attempts; calls = [] }
