-- ===== src/Dispatcher/Attempts.antt =====
-- dispatcher/internal/dispatch/attempts.go and migration 0005: the attempts to broadcast a payout, and
-- the calls that change them. Each call is one statement.
use usdt_settlement_corridor.Base.{
  ℕ, suc, Bool, true, false, ◌&&◌, ◌||◌, List, [], ◌∷◌, ◌++◌, Option, none, some, ◌==◌, ltb,
  if◌then◌else◌,
}
use usdt_settlement_corridor.Base.Text.{Text, text_eq}
use usdt_settlement_corridor.Base.Table.{find_by, exists_by, select, update_by}
use usdt_settlement_corridor.Dispatcher.Answer.{
  Answer, failed, done, broadcast_attempt_not_found, database,
}

pub data BroadcastStatus : Type 0 where
  built signed broadcast confirmed failed_status : BroadcastStatus

abbrev pub is_built : BroadcastStatus → Bool
is_built s = elim s [ built ↦ true | _ ↦ false ]

abbrev pub is_signed : BroadcastStatus → Bool
is_signed s = elim s [ signed ↦ true | _ ↦ false ]

abbrev pub is_broadcast : BroadcastStatus → Bool
is_broadcast s = elim s [ broadcast ↦ true | _ ↦ false ]

abbrev pub is_confirmed : BroadcastStatus → Bool
is_confirmed s = elim s [ confirmed ↦ true | _ ↦ false ]

abbrev pub is_failed : BroadcastStatus → Bool
is_failed s = elim s [ failed_status ↦ true | _ ↦ false ]

-- `terminal`.
abbrev pub is_terminal : BroadcastStatus → Bool
is_terminal s = is_broadcast s || is_confirmed s || is_failed s

pub record BroadcastAttempt : Type 0 where
  pub id : ℕ
  pub order_id : ℕ
  pub slot_id : ℕ
  pub attempt_number : ℕ
  pub unsigned_tx_hash : Text
  pub signed_tx : Option Text
  pub signed_tx_hash : Option Text
  pub broadcast_at : Option ℕ
  pub tron_txid : Option Text
  pub status : BroadcastStatus
  pub created_at : ℕ

-- The table, and the next value of its sequence.
pub record AttemptTable : Type 0 where
  pub rows : List BroadcastAttempt
  pub next_id : ℕ

abbrev pub empty_attempts : AttemptTable
empty_attempts = record { rows = []; next_id = 1 }

abbrev pub has_hash : Text → BroadcastAttempt → Bool
has_hash hash a = text_eq a.unsigned_tx_hash hash

abbrev pub has_id : ℕ → BroadcastAttempt → Bool
has_id i a = a.id == i

abbrev found : Option BroadcastAttempt → Answer BroadcastAttempt
found none = failed broadcast_attempt_not_found
found (some a) = done a

unfoldable pub get_by_unsigned_tx_hash : Text → AttemptTable → Answer BroadcastAttempt
get_by_unsigned_tx_hash hash t = found (find_by (has_hash hash) t.rows)

unfoldable pub get : ℕ → AttemptTable → Answer BroadcastAttempt
get i t = found (find_by (has_id i) t.rows)

-- `ORDER BY attempt_number DESC LIMIT 1`.
unfoldable pub greatest_attempt :
    Option BroadcastAttempt → List BroadcastAttempt → Option BroadcastAttempt
greatest_attempt best [] = best
greatest_attempt best (a ∷ rest) = greatest_attempt (later best) rest
  where
    later : Option BroadcastAttempt → Option BroadcastAttempt
    later none = some a
    later (some b) = if ltb b.attempt_number a.attempt_number then some a else some b

unfoldable pub latest_for_order : ℕ → AttemptTable → Answer BroadcastAttempt
latest_for_order order t =
    found (greatest_attempt none (select (λ (a : BroadcastAttempt). a.order_id == order) t.rows))

abbrev pub new_attempt : ℕ → ℕ → ℕ → ℕ → Text → ℕ → BroadcastAttempt
new_attempt i order slot number hash now = record {
  id = i;
  order_id = order;
  slot_id = slot;
  attempt_number = number;
  unsigned_tx_hash = hash;
  signed_tx = none;
  signed_tx_hash = none;
  broadcast_at = none;
  tron_txid = none;
  status = built;
  created_at = now;
}

-- `Create`: a row under the hash stays as it is; the index on order and attempt number refuses.
unfoldable pub create_attempt :
    ℕ → ℕ → ℕ → Text → ℕ → AttemptTable → Answer BroadcastAttempt × AttemptTable
create_attempt order slot number hash now t =
    if exists_by (has_hash hash) t.rows
    then (get_by_unsigned_tx_hash hash t, t)
    else if exists_by (λ (a : BroadcastAttempt). a.order_id == order && a.attempt_number == number)
        t.rows
    then (failed database, t)
    else (
      done (new_attempt t.next_id order slot number hash now),
      record {
        rows = t.rows ++ (new_attempt t.next_id order slot number hash now ∷ []);
        next_id = suc t.next_id;
      },
    )

-- `UPDATE … SET f WHERE p RETURNING …`, and where no row fits the row under the id.
unfoldable pub update_returning :
    (BroadcastAttempt → Bool)
    → (BroadcastAttempt → BroadcastAttempt)
    → ℕ
    → AttemptTable
    → Answer BroadcastAttempt × AttemptTable
update_returning p f i t = elim (find_by p t.rows) [
  | none ↦ (get i t, t)
  | some a ↦ (done (f a), record t { rows = update_by p f t.rows })
]

unfoldable pub mark_failed : ℕ → AttemptTable → Answer BroadcastAttempt × AttemptTable
mark_failed i t =
    update_returning (λ a. has_id i a && (is_built a.status || is_signed a.status))
      (λ a. record a { status = failed_status }) i t

unfoldable pub mark_signed : ℕ → Text → Text → AttemptTable → Answer BroadcastAttempt × AttemptTable
mark_signed i signed_tx_hex hash t =
    update_returning (λ a. has_id i a && is_built a.status)
      (λ a. record a {
        status = signed;
        signed_tx = some signed_tx_hex;
        signed_tx_hash = some hash;
      })
      i t

-- Without a guard on the status: the caller holds the row's lock.
unfoldable pub mark_broadcast : ℕ → Text → ℕ → AttemptTable → Answer BroadcastAttempt × AttemptTable
mark_broadcast i txid now t =
    if exists_by (has_id i) t.rows
    then update_returning (has_id i)
        (λ a. record a { status = broadcast; tron_txid = some txid; broadcast_at = some now }) i t
    else (failed database, t)

unfoldable pub mark_confirmed : ℕ → AttemptTable → Answer BroadcastAttempt × AttemptTable
mark_confirmed i t =
    update_returning (λ a. has_id i a && is_broadcast a.status)
      (λ a. record a { status = confirmed }) i t
