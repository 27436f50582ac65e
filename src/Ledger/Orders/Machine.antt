-- ===== src/Ledger/Orders/Machine.antt =====
-- States, tiers and the table of legal transitions (order.go and transitions.go of
-- ledger/internal/orders).
use usdt_settlement_corridor.Base.{Bool, true, false, Option, none, some}
use usdt_settlement_corridor.Base.Text.{text_eq}
use usdt_settlement_corridor.Ledger.Database.{
  State, quoted, funded, screened, dispatching, settled, held, refunded, expired, other_state, Tier,
  other_tier,
}

unfoldable pub state_valid : State → Bool
state_valid (other_state s) = false
state_valid _ = true

unfoldable pub terminal : State → Bool
terminal settled = true
terminal refunded = true
terminal expired = true
terminal _ = false

unfoldable pub tier_valid : Tier → Bool
tier_valid (other_tier s) = false
tier_valid _ = true

unfoldable pub state_eq : State → State → Bool
state_eq quoted quoted = true
state_eq funded funded = true
state_eq screened screened = true
state_eq dispatching dispatching = true
state_eq settled settled = true
state_eq held held = true
state_eq refunded refunded = true
state_eq expired expired = true
state_eq (other_state s) (other_state t) = text_eq s t
state_eq _ _ = false

pub record Rule : Type 0 where
  pub requires_entry : Bool
  pub halt_blocked : Bool

abbrev rule : Bool → Bool → Option Rule
rule entry halt = some (record { requires_entry = entry; halt_blocked = halt })

-- The rule of a pair, if it is legal.
unfoldable pub transition_table : State → State → Option Rule
transition_table quoted funded = rule true false
transition_table quoted expired = rule false false
transition_table funded screened = rule false false
transition_table funded held = rule false false
transition_table funded refunded = rule true true
transition_table funded quoted = rule true false
transition_table held screened = rule false false
transition_table held refunded = rule true true
transition_table screened dispatching = rule true true
transition_table dispatching settled = rule true true
transition_table dispatching held = rule true false
transition_table _ _ = none
