-- ===== src/Watcher/Transfers.antt =====
-- depositwatcher/internal/chain/classify.go: an event log read as a transfer of the token.
use usdt_settlement_corridor.Base.{
  ℕ, ◌+◌, ◌*◌, ◌/◌, ◌^◌, ◌≤◌, ◌<◌, ◌≡◌, sym, Bool, true, false, not, List, [], ◌∷◌, ◌⊎◌, inl, inr,
  arith, ltb, ◌==◌, if◌then◌else◌, Bool-cases, length, refl, subst,
}
use usdt_settlement_corridor.Base.Int.{ℤ, pos}
use usdt_settlement_corridor.Base.Text.{Text, text_eq, eq_of_text_eq}
use usdt_settlement_corridor.Watcher.Money.{AmountError, amount_overflow, from_on_chain_units}

-- The fields of go-ethereum's `types.Log` that the code reads, and the two that it does not compare.
pub record Log : Type 0 where
  pub address : Text
  pub topics : List Text
  pub payload : Text
  pub block_number : ℕ
  pub tx_hash : Text
  pub tx_index : ℕ
  pub log_index : ℕ
  pub block_hash : Text
  pub removed : Bool

-- `usdtBEP20ContractDecimals`.
abbrev pub contract_decimals : ℕ
contract_decimals = 18

pub data TransferError : Type 0 where
  wrong_token : TransferError
  bad_amount : AmountError → TransferError

-- `big.Int.SetBytes`: the bytes as a big-endian number, after the digits of `acc`.
unfoldable pub set_bytes : ℕ → Text → ℕ
set_bytes acc [] = acc
set_bytes acc (b ∷ bs) = set_bytes (acc * 256 + b) bs

pub record Transfer : Type 0 where
  pub sender : Text
  pub receiver : Text
  pub amount : ℤ

scaled_fits :
    (raw : ℕ)
    → ltb (raw / 10 ^ 12) (2 ^ 63) ≡ true
    → from_on_chain_units (pos raw) contract_decimals ≡ inr (pos (raw / 10 ^ 12))
unfolding from_on_chain_units
scaled_fits raw f = ground arith

scaled_large :
    (raw : ℕ)
    → ltb (raw / 10 ^ 12) (2 ^ 63) ≡ false
    → from_on_chain_units (pos raw) contract_decimals ≡ inl amount_overflow
unfolding from_on_chain_units
scaled_large raw f = ground arith

-- `ParseTransferLog`. The hash of the event's signature and the address in a topic are go-ethereum's.
module _ (transfer_topic : Text) (bytes_to_address : Text → Text) where
  unfoldable pub transfer_of : Text → Text → Text → TransferError ⊎ Transfer
  transfer_of sender receiver payload =
      elim (from_on_chain_units (pos (set_bytes 0 payload)) contract_decimals) [
        | inl e ↦ inl (bad_amount e)
        | inr amount ↦ inr record {
          sender = bytes_to_address sender;
          receiver = bytes_to_address receiver;
          amount = amount;
        }
      ]

  unfoldable pub parse_topics : List Text → Text → TransferError ⊎ Transfer
  parse_topics (topic ∷ sender ∷ receiver ∷ []) payload =
      if not (text_eq topic transfer_topic)
      then inl wrong_token
      else if not (length payload == 32)
      then inl wrong_token
      else transfer_of sender receiver payload
  parse_topics _ payload = inl wrong_token

  unfoldable pub parse_transfer_log : Log → TransferError ⊎ Transfer
  parse_transfer_log log = parse_topics log.topics log.payload

  -- The transfer that a list of topics and a payload stand for.
  pub record IsTransferOf (topics : List Text) (payload : Text) (t : Transfer) : Type 0 where
    pub first : Text
    pub second : Text
    pub units : ℕ
    pub event : topics ≡ transfer_topic ∷ first ∷ second ∷ []
    pub whole : length payload ≡ 32
    pub sender : t.sender ≡ bytes_to_address first
    pub receiver : t.receiver ≡ bytes_to_address second
    pub amount : t.amount ≡ pos units
    pub above : units * 10 ^ 12 ≤ set_bytes 0 payload
    pub below : set_bytes 0 payload < (units + 1) * 10 ^ 12
    pub fits : units < 2 ^ 63

  abbrev made : Text → Text → Text → Transfer
  made first second payload = record {
    sender = bytes_to_address first;
    receiver = bytes_to_address second;
    amount = pos (set_bytes 0 payload / 10 ^ 12);
  }

  transfer_of_made :
      (first second payload : Text) (t : Transfer)
      → transfer_of first second payload ≡ inr t
      → (made first second payload ≡ t) × (set_bytes 0 payload / 10 ^ 12 < 2 ^ 63)
  unfolding transfer_of
  transfer_of_made first second payload t e =
      elim (Bool-cases (ltb (set_bytes 0 payload / 10 ^ 12) (2 ^ 63))) [
        | inl fits ↦
            (same _ (rw (transfer_of, scaled_fits (set_bytes 0 payload) fits) at e), ground arith)
        | inr large ↦ absurd (
            no_transfer amount_overflow t
              (rw (transfer_of, scaled_large (set_bytes 0 payload) large) at e))
      ]
    where
      same : (u : Transfer) → ◌≡◌ {A = TransferError ⊎ Transfer} (inr u) (inr t) → u ≡ t
      same u e = cc

      no_transfer :
          (x : AmountError) (u : Transfer)
          → ◌≡◌ {A = TransferError ⊎ Transfer} (inl (bad_amount x)) (inr u)
          → ⊥
      no_transfer x u e = cc

  made-IsTransferOf :
      (first second payload : Text)
      → length payload ≡ 32
      → set_bytes 0 payload / 10 ^ 12 < 2 ^ 63
      → IsTransferOf (transfer_topic ∷ first ∷ second ∷ []) payload (made first second payload)
  made-IsTransferOf first second payload l f = record {
    first = first;
    second = second;
    units = set_bytes 0 payload / 10 ^ 12;
    event = refl;
    whole = l;
    sender = refl;
    receiver = refl;
    amount = refl;
    above = omega arith;
    below = omega arith;
    fits = f;
  }

  parse_topics-IsTransferOf :
      (topics : List Text) (payload : Text) (t : Transfer)
      → parse_topics topics payload ≡ inr t
      → IsTransferOf topics payload t
  unfolding parse_topics
  parse_topics-IsTransferOf [] payload t e = absurd (cc (e))
  parse_topics-IsTransferOf (a ∷ []) payload t e = absurd (cc (e))
  parse_topics-IsTransferOf (a ∷ b ∷ []) payload t e = absurd (cc (e))
  parse_topics-IsTransferOf (a ∷ b ∷ c ∷ d ∷ ts) payload t e = absurd (cc (e))
  parse_topics-IsTransferOf (topic ∷ b ∷ c ∷ []) payload t e =
      elim (Bool-cases (text_eq topic transfer_topic)) [
        | inr n ↦ absurd (refused (rw n at e))
        | inl y ↦ elim (Bool-cases (length payload == 32)) [
          | inr n ↦ absurd (refused (rw (y, n) at e))
          | inl l ↦
              let (is, f) = transfer_of_made b c payload t (rw (y, l) at e) in
              subst (λ x. IsTransferOf (x ∷ b ∷ c ∷ []) payload t)
                (sym (eq_of_text_eq topic transfer_topic y))
                (subst (IsTransferOf (transfer_topic ∷ b ∷ c ∷ []) payload) is
                  (made-IsTransferOf b c payload (ground arith) f))
        ]
      ]
    where
      refused : ◌≡◌ {A = TransferError ⊎ Transfer} (inl wrong_token) (inr t) → ⊥
      refused e = cc

  -- A log is read as a transfer only if it has three topics, the first of which is the event's, and 32
  -- bytes of data; the sender and the receiver are then the addresses in the other two topics, and the
  -- amount is the number in those bytes in millionths, rounded down, which fits an int64.
  pub parse_transfer_log_amount :
      (log : Log) (t : Transfer)
      → parse_transfer_log log ≡ inr t
      → IsTransferOf log.topics log.payload t
  unfolding parse_transfer_log
  parse_transfer_log_amount log t e = parse_topics-IsTransferOf log.topics log.payload t e
