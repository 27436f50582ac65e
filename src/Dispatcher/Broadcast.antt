-- ===== src/Dispatcher/Broadcast.antt =====
-- dispatcher/internal/dispatch/broadcast.go: from a built transfer to one that is broadcast, in three
-- sections that are committed one by one.
use usdt_settlement_corridor.Base.{
  ℕ, Bool, true, false, ◌||◌, not, List, [], ◌∷◌, ◌++◌, Option, none, some, ◌==◌, length,
  if◌then◌else◌,
}
use usdt_settlement_corridor.Base.Text.{Text, bytes}
use usdt_settlement_corridor.Base.Hex.{hex, hex_decode}
use usdt_settlement_corridor.Ledger.Money.Decimal.{format_nat}
use usdt_settlement_corridor.Dispatcher.Answer.{
  Answer, failed, done, signature_pending, signature_rejected, database, signer, chain, not_allowed,
  malformed,
}
use usdt_settlement_corridor.Dispatcher.Attempts.{
  is_signed, is_terminal, BroadcastAttempt, AttemptTable, get, create_attempt, mark_failed,
  mark_signed, mark_broadcast,
}
pub mod Rows
pub mod Sections
pub mod Once
pub mod Payload
pub mod Resume

-- `signing.SigningRequest`, or an error of the call.
pub data SigningAnswer : Type 0 where
  unavailable pending rejected : SigningAnswer
  signed_with : Text → SigningAnswer

-- The calls of the signer and of the chain. A call of the chain that succeeded says whether the row's
-- transaction was then committed; `unsent` is one that returned an error, whatever the chain has done.
pub data OutsideCall : Type 0 where
  asked : ℕ → Text → OutsideCall
  sent : (attempt_id : ℕ) (unsigned_tx signature : Text) (committed : Bool) → OutsideCall
  unsent : (attempt_id : ℕ) (unsigned_tx signature : Text) → OutsideCall

pub record Payouts : Type 0 where
  pub attempts : AttemptTable
  pub calls : List OutsideCall

-- The services during one call of Broadcast. `hash_hex` is SHA-256 in hex; `reads_transaction` is
-- whether `proto.Unmarshal` takes the bytes; the txid is none where the chain refuses; `commits` is
-- whether the transaction that holds the row's lock can be committed.
pub record Services : Type 0 where
  pub hash_hex : Text → Text
  pub request_signature : ℕ → Text → Text → SigningAnswer
  pub reads_transaction : Text → Bool
  pub chain_broadcast : Text → Text → Option Text
  pub commits : Bool
  pub now : ℕ

unfoldable pub sign_idempotency_key : ℕ → ℕ → Text
sign_idempotency_key order number =
    bytes "dispatcher:sign:" ++ format_nat 20 order [] ++ bytes ":" ++ format_nat 20 number []

-- The switch on the signer's answer.
unfoldable pub after_signature :
    Services → ℕ → SigningAnswer → Payouts → Answer BroadcastAttempt × Payouts
after_signature sv i unavailable p = (failed signer, p)
after_signature sv i pending p = (failed signature_pending, p)
after_signature sv i rejected p =
    let (answer, t) = mark_failed i p.attempts in
    (
      elim answer [ failed f ↦ failed f | done a ↦ failed signature_rejected ],
      record p { attempts = t },
    )
after_signature sv i (signed_with signature) p =
    let (answer, t) = mark_signed i (hex signature) (sv.hash_hex signature) p.attempts in
    (answer, record p { attempts = t })

unfoldable pub ensure_signed :
    Services → ℕ → ℕ → ℕ → ℕ → Text → Payouts → Answer BroadcastAttempt × Payouts
ensure_signed sv i order slot number unsigned_tx p = elim (get i p.attempts) [
  | failed f ↦ (failed f, p)
  | done current ↦
      if is_terminal current.status || is_signed current.status
      then (done current, p)
      else let key = sign_idempotency_key order number in
        after_signature sv i (sv.request_signature slot unsigned_tx key)
          (record p { calls = p.calls ++ (asked slot key ∷ []) })
]

-- The end of the transaction in `ensureBroadcast`, once the signature is read.
unfoldable pub send_signed :
    Services → ℕ → Text → Text → Payouts → Answer BroadcastAttempt × Payouts
send_signed sv i unsigned_tx signature p = elim (sv.chain_broadcast unsigned_tx signature) [
  | none ↦ (failed chain, record p { calls = p.calls ++ (unsent i unsigned_tx signature ∷ []) })
  | some txid ↦
      let (answer, t) = mark_broadcast i txid sv.now p.attempts in
      let told = p.calls ++ (sent i unsigned_tx signature sv.commits ∷ []) in
      if sv.commits
      then (answer, record { attempts = t; calls = told })
      else (failed database, record p { calls = told })
]

unfoldable pub read_signature : Services → Text → Option Text → Answer Text
read_signature sv unsigned_tx none = failed malformed
read_signature sv unsigned_tx (some signature) =
    if not (length signature == 65) || not (sv.reads_transaction unsigned_tx)
    then failed malformed
    else done signature

unfoldable pub with_signature :
    Services → ℕ → Text → Answer Text → Payouts → Answer BroadcastAttempt × Payouts
with_signature sv i unsigned_tx (failed f) p = (failed f, p)
with_signature sv i unsigned_tx (done signature) p = send_signed sv i unsigned_tx signature p

-- The body of the transaction, for the row that is locked.
unfoldable pub broadcast_row :
    Services → ℕ → Text → BroadcastAttempt → Payouts → Answer BroadcastAttempt × Payouts
broadcast_row sv i unsigned_tx current p =
    if is_terminal current.status
    then (done current, p)
    else if not (is_signed current.status)
    then (failed not_allowed, p)
    else elim current.signed_tx [
      | none ↦ (failed not_allowed, p)
      | some stored ↦
          with_signature sv i unsigned_tx (read_signature sv unsigned_tx (hex_decode stored)) p
    ]

unfoldable pub ensure_broadcast : Services → ℕ → Text → Payouts → Answer BroadcastAttempt × Payouts
ensure_broadcast sv i unsigned_tx p = elim (get i p.attempts) [
  | failed f ↦ (failed f, p)
  | done current ↦ broadcast_row sv i unsigned_tx current p
]

-- `Broadcast`: its three sections one after the other.
unfoldable pub continue_broadcast :
    Services → Text → Answer BroadcastAttempt × Payouts → Answer BroadcastAttempt × Payouts
continue_broadcast sv unsigned_tx (failed f, p) = (failed f, p)
continue_broadcast sv unsigned_tx (done a, p) =
    if is_terminal a.status then (done a, p) else ensure_broadcast sv a.id unsigned_tx p

unfoldable pub broadcast_transfer :
    Services → ℕ → ℕ → ℕ → Text → Payouts → Answer BroadcastAttempt × Payouts
broadcast_transfer sv order slot number unsigned_tx p =
    let (created, t) =
      create_attempt order slot number (sv.hash_hex unsigned_tx) sv.now p.attempts in
    elim created [
      | failed f ↦ (failed f, record p { attempts = t })
      | done a ↦
          if is_terminal a.status
          then (done a, record p { attempts = t })
          else continue_broadcast sv unsigned_tx
              (ensure_signed sv a.id order slot number unsigned_tx (record p { attempts = t }))
    ]
