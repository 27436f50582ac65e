-- ===== src/Dispatcher/Tests.antt =====
-- Runs of the dispatcher at fixed inputs: a transfer that is signed, broadcast and settled.
use usdt_settlement_corridor.Base.{
  ℕ, ◌+◌, ◌-◌, ◌≤◌, ◌≡◌, refl, Bool, true, false, ◌&&◌, ◌||◌, not, List, [], ◌∷◌, ◌++◌, Option,
  none, some, arith, if◌then◌else◌, replicate, length, All, ltb,
}
use usdt_settlement_corridor.Base.Int.{ℤ, pos, negsuc, ◌-ℤ◌, ◌+ℤ◌, sub64, wrap64}
use usdt_settlement_corridor.Base.Text.{Text, bytes, text_eq}
use usdt_settlement_corridor.Base.Hex.{hex, hex_decode}
use usdt_settlement_corridor.Base.Table.{find_by, exists_by, select, update_by}
use usdt_settlement_corridor.Base.Sort.{sort_by, insert_by}
use usdt_settlement_corridor.Base.Count.{count_by}
use usdt_settlement_corridor.Ledger.Money.{usdt_bep20, usdt_trc20}
use usdt_settlement_corridor.Ledger.Money.Decimal.{format_nat}
use usdt_settlement_corridor.Gateway.Pricing.{
  standard, Quote, quote, rate_in, rate_for, mul64, quot64, fee_of, with_fee, compute_quote,
}
use usdt_settlement_corridor.Dispatcher.Answer.{Answer, failed, done}
use usdt_settlement_corridor.Dispatcher.Attempts.{
  BroadcastStatus, built, signed, broadcast, confirmed, failed_status, is_built, is_signed,
  is_confirmed, is_failed, BroadcastAttempt, AttemptTable, new_attempt, has_id, get,
  get_by_unsigned_tx_hash, greatest_attempt, latest_for_order, create_attempt, update_returning,
  mark_failed, mark_signed, mark_broadcast, mark_confirmed,
}
use usdt_settlement_corridor.Dispatcher.Broadcast.{
  SigningAnswer, signed_with, OutsideCall, asked, sent, Payouts, Services, sign_idempotency_key,
  after_signature, ensure_signed, send_signed, read_signature, with_signature, broadcast_row,
  ensure_broadcast, continue_broadcast, broadcast_transfer,
}
use usdt_settlement_corridor.Dispatcher.Broadcast.Sections.{
  Section, creating, asking, answering, broadcasting, failing, confirming, Sections, none_yet,
  one_more, no_payouts,
}
use usdt_settlement_corridor.Dispatcher.Broadcast.Once.{IsPayouts, Sections-no_payouts}
use usdt_settlement_corridor.Dispatcher.Broadcast.Payload.{Carries, finished_forever, one_signature}
use usdt_settlement_corridor.Dispatcher.Broadcast.Resume.{
  broadcast_transfer_again, Resumed, broadcast_transfer-Resumed,
}
use usdt_settlement_corridor.Dispatcher.Tests.Data.{
  services, transfer, attempt, signed_attempt, with_row, zero_signature, broadcast_attempt,
  both_calls,
}
pub mod Data
mod Desk

run :
    (broadcast_transfer zero_signature 7 2 1 transfer no_payouts
      ≡ (done broadcast_attempt, with_row broadcast_attempt both_calls))
unfolding broadcast_transfer create_attempt exists_by text_eq ensure_signed get find_by
    after_signature sign_idempotency_key format_nat mark_signed update_returning update_by hex
    continue_broadcast ensure_broadcast broadcast_row hex_decode read_signature with_signature
    send_signed mark_broadcast
run = refl

steps : Sections no_payouts (with_row broadcast_attempt both_calls)
unfolding create_attempt exists_by text_eq get find_by after_signature mark_signed update_returning
    update_by hex ensure_broadcast broadcast_row hex_decode read_signature with_signature
    send_signed mark_broadcast
steps =
    one_more (with_row signed_attempt (asked 2 (bytes "dispatcher:sign:7:1") ∷ []))
      (with_row broadcast_attempt both_calls)
      (one_more (with_row attempt (asked 2 (bytes "dispatcher:sign:7:1") ∷ []))
        (with_row signed_attempt (asked 2 (bytes "dispatcher:sign:7:1") ∷ []))
        (one_more (with_row attempt [])
          (with_row attempt (asked 2 (bytes "dispatcher:sign:7:1") ∷ []))
          (one_more no_payouts (with_row attempt []) none_yet (creating 7 2 1 transfer 50))
          (asking 2 (bytes "dispatcher:sign:7:1")))
        (answering zero_signature 1 (signed_with (replicate 65 0))))
      (broadcasting zero_signature 1 transfer)

Sections-no_payouts_example : IsPayouts (with_row broadcast_attempt both_calls)
Sections-no_payouts_example = Sections-no_payouts (with_row broadcast_attempt both_calls) steps

one_signature_example : All (Carries (broadcast_attempt ∷ [])) both_calls
one_signature_example = one_signature (with_row broadcast_attempt both_calls) steps

abbrev failed_attempt : BroadcastAttempt
failed_attempt = record signed_attempt { status = failed_status }

-- A rejected attempt is not confirmed, whoever asks.

broadcast_transfer-Resumed_example :
    Resumed zero_signature services 7 2 1 transfer
      (replicate 65 0)
      (bytes "t1")
      (with_row signed_attempt [])
      signed_attempt
      (broadcast_transfer zero_signature 7 2 1 transfer (with_row signed_attempt [])).0
      (broadcast_transfer zero_signature 7 2 1 transfer (with_row signed_attempt [])).1
unfolding find_by text_eq hex_decode
broadcast_transfer-Resumed_example =
    broadcast_transfer-Resumed zero_signature services 7 2 1 transfer (with_row signed_attempt [])
      signed_attempt (replicate 130 48) (replicate 65 0) (bytes "t1") refl refl refl refl refl refl
      refl refl refl refl
