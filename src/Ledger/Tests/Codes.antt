-- ===== src/Ledger/Tests/Codes.antt =====
-- Runs of the parsing of account codes.
use usdt_settlement_corridor.Base.{◌≡◌, refl, [], ◌∷◌, All}
use usdt_settlement_corridor.Base.Text.{bytes}
use usdt_settlement_corridor.Ledger.Error.{ok}
use usdt_settlement_corridor.Ledger.Accounts.{Code, split, any_empty, parse_code}
use usdt_settlement_corridor.Ledger.Accounts.Codes.{free_of, IsPart}

abbrev hot_code : Code
hot_code = record { raw = bytes "asset:hot"; category = bytes "asset"; segments = bytes "hot" ∷ [] }

two_parts : All IsPart (bytes "asset" ∷ bytes "hot" ∷ [])
unfolding free_of
two_parts = ((refl, refl), ((refl, refl), tt))

hot_parsed : parse_code (bytes "asset:hot") ≡ ok hot_code
unfolding parse_code split any_empty
hot_parsed = refl
