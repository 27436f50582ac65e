-- ===== src/Dispatcher/Settling/Freeze.antt =====
-- A freeze in mid-flight never touches what has gone to the chain.
use usdt_settlement_corridor.Base.{
  ℕ, ◌≡◌, refl, ap, ◌∙◌, Bool, true, ◌&&◌, ◌||◌, not, Option, none, some, arith, ◌⊎◌, if◌then◌else◌,
  Bool-cases, Option-cases, inl, inr,
}
use usdt_settlement_corridor.Base.Table.{find_by, find_by-true, find_by-update_by}
use usdt_settlement_corridor.Dispatcher.Answer.{Failure, Answer, failed, done}
use usdt_settlement_corridor.Dispatcher.Attempts.{
  is_built, is_signed, is_broadcast, is_confirmed, is_failed, BroadcastAttempt, get, failed_status,
}
use usdt_settlement_corridor.Dispatcher.Slots.{Slots, mark_retired}
use usdt_settlement_corridor.Dispatcher.Settling.{Desk}
use usdt_settlement_corridor.Dispatcher.Slots.{
  SlotStatus, active, retiring, retired, Slot, slot_status_eq, is_slot, get_slot, transition_slot,
}
use usdt_settlement_corridor.Dispatcher.Answer.{slot_not_found, illegal_transition}

slot_status_eq_refl : (s : SlotStatus) → slot_status_eq s s ≡ true
slot_status_eq_refl active = refl
slot_status_eq_refl retiring = refl
slot_status_eq_refl retired = refl

abbrev refusing : Failure → Slots → Answer (Unit {0}) × Slots
refusing f slots = (failed f, slots)

abbrev taking : Slots → Answer (Unit {0}) × Slots
taking slots = (done tt, slots)

to_retired : ℕ → Slot → Slot
to_retired now s = record s { status = retired; retired_at = some now }

abbrev pub status_of : Option Slot → Option SlotStatus
status_of none = none
status_of (some s) = some s.status

-- The status that a slot is found with.
abbrev pub status_at : ℕ → Slots → Option SlotStatus
status_at i slots = status_of (find_by (is_slot i) slots)

status_kept :
    (o : Option Slot) (s : Slot)
    → status_of o ≡ some s.status
    → (s' : Slot) × (o ≡ some s') × (s'.status ≡ s.status)
status_kept none s h = cc
status_kept (some s') s h = (s', refl, cc)

-- A slot that MarkRetired has taken is RETIRED, if its status was not changed in between.
pub mark_retired_done :
    (others : Slots → Slots) (i now : ℕ) (slots slots' : Slots)
    → status_at i (others slots) ≡ status_at i slots
    → mark_retired others i now slots ≡ (done tt, slots')
    → (s : Slot) × (get_slot i slots' ≡ done s) × (s.status ≡ retired)
unfolding mark_retired get_slot transition_slot to_retired
mark_retired_done others i now slots slots' kept h =
    elim (Option-cases (find_by (is_slot i) slots)) [
      | inl e ↦ absurd (never slot_not_found slots (ground arith))
      | inr (s, e) ↦
          elim (Bool-cases
            (not (slot_status_eq s.status active) && not (slot_status_eq s.status retiring))) [
              | inl t ↦ absurd (never illegal_transition slots (ground arith))
              | inr live ↦
                  let (s₁, e₁, same) =
                    status_kept (find_by (is_slot i) (others slots)) s (kept ∙ ap (status_of) e) in
                  let there =
                    find_by-update_by (λ x. is_slot i x && slot_status_eq x.status s.status)
                      (to_retired now) (is_slot i) (others slots) s₁ (λ x. refl) e₁ in
                  let hit = find_by-true (is_slot i) (others slots) s₁ e₁ in
                  let its_status =
                    ap (λ x. slot_status_eq x s.status) same ∙ slot_status_eq_refl s.status in
                  (to_retired now s₁, ground (arith, there, hit, its_status), refl)
            ]
    ]
  where
    never : (f : Failure) (t : Slots) → refusing f t ≡ taking slots' → ⊥
    never f t e = cc

-- What a freeze that ends well leaves of an attempt `a` and of its slot.
pub record Frozen (i : ℕ) (a : BroadcastAttempt) (alert : Bool) (d : Desk) : Type 0 where
  pub alerts : alert ≡ is_broadcast a.status
  pub attempt :
      get i d.attempts
      ≡ done (
          if is_built a.status || is_signed a.status
          then record a { status = failed_status }
          else a)
  pub slot :
      (is_confirmed a.status || is_failed a.status ≡ true)
      ⊎ ((s : Slot) × (get_slot a.slot_id d.slots ≡ done s) × (s.status ≡ retired))

abbrev desk_with : Bool → Desk → Answer (Unit {0}) × Slots → Answer Bool × Desk
desk_with alert d (answer, slots) =
    (elim answer [ failed f ↦ failed f | done u ↦ done alert ], record d { slots = slots })

abbrev ending : Bool → Desk → Answer Bool × Desk
ending alert d = (done alert, d)
