-- ===== src/Dispatcher/Answer.antt =====
-- What a call of the dispatcher's packages returns: a value, or which error it is.

pub data Failure : Type 0 where
  -- the sentinels
  broadcast_attempt_not_found attempt_not_found slot_not_found duplicate_slot : Failure
  illegal_transition no_eligible_slot : Failure
  signature_pending signature_rejected finality_stale : Failure
  version_conflict system_halted : Failure
  batch_not_found queued_order_not_found batch_window_not_ready : Failure
  -- errors without a sentinel: the database, the signer, a chain, the ledger, a status that does not
  -- allow the call, a signature or a transaction that cannot be read, a cancelled context
  database signer chain ledger not_allowed malformed cancelled : Failure

pub data Answer {ℓ} (A : Type ℓ) : Type ℓ where
  failed : Failure → Answer A
  done : A → Answer A
