-- ===== src/Dispatcher/Tests/Data.antt =====
-- The services, the transfer and the rows of the runs.
use usdt_settlement_corridor.Base.{true, List, [], ◌∷◌, some, replicate}
use usdt_settlement_corridor.Base.Text.{Text, bytes}
use usdt_settlement_corridor.Dispatcher.Attempts.{signed, broadcast, BroadcastAttempt, new_attempt}
use usdt_settlement_corridor.Dispatcher.Broadcast.{
  signed_with, OutsideCall, asked, sent, Payouts, Services,
}

abbrev pub services : Services
services = record {
  hash_hex = λ tx. tx;
  request_signature = λ slot tx key. signed_with (replicate 65 1);
  reads_transaction = λ tx. true;
  chain_broadcast = λ tx signature. some (bytes "t1");
  commits = true;
  now = 50;
}

abbrev pub transfer : Text
transfer = 9 ∷ 9 ∷ []

abbrev pub attempt : BroadcastAttempt
attempt = new_attempt 1 7 2 1 transfer 50

abbrev pub signed_attempt : BroadcastAttempt
signed_attempt = record attempt {
  status = signed;
  signed_tx = some (replicate 130 48);
  signed_tx_hash = some (replicate 65 0);
}

abbrev pub with_row : BroadcastAttempt → List OutsideCall → Payouts
with_row a calls = record { attempts = record { rows = a ∷ []; next_id = 2 }; calls = calls }

abbrev pub zero_signature : Services
zero_signature = record services { request_signature = λ slot tx key. signed_with (replicate 65 0) }

abbrev pub broadcast_attempt : BroadcastAttempt
broadcast_attempt = record signed_attempt {
  status = broadcast;
  tron_txid = some (bytes "t1");
  broadcast_at = some 50;
}

abbrev pub both_calls : List OutsideCall
both_calls = asked 2 (bytes "dispatcher:sign:7:1") ∷ sent 1 transfer (replicate 65 0) true ∷ []
