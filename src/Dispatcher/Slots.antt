-- ===== src/Dispatcher/Slots.antt =====
-- dispatcher/internal/slots (slots.go, select.go) and migration 0002: the paying addresses, their
-- life, and the choice of one for a dispatch.
use usdt_settlement_corridor.Base.{
  ℕ, ◌+◌, Bool, true, false, ◌&&◌, ◌||◌, not, List, [], ◌∷◌, ◌++◌, Option, none, some, ◌==◌, ltb,
  if◌then◌else◌,
}
use usdt_settlement_corridor.Base.Text.{Text, text_eq}
use usdt_settlement_corridor.Base.Int.{ℤ, ◌+ℤ◌, pos, ltb_ℤ, leb_ℤ}
use usdt_settlement_corridor.Base.Table.{find_by, exists_by, select, update_by}
use usdt_settlement_corridor.Base.Sort.{sort_by}
use usdt_settlement_corridor.Dispatcher.Answer.{
  Answer, failed, done, slot_not_found, duplicate_slot, illegal_transition, no_eligible_slot,
  ledger,
}
pub mod Choice

pub data SlotStatus : Type 0 where
  active retiring retired : SlotStatus

abbrev pub slot_status_eq : SlotStatus → SlotStatus → Bool
slot_status_eq active t = elim t [ active ↦ true | _ ↦ false ]
slot_status_eq retiring t = elim t [ retiring ↦ true | _ ↦ false ]
slot_status_eq retired t = elim t [ retired ↦ true | _ ↦ false ]

pub record Slot : Type 0 where
  pub id : ℕ
  pub tron_address : Text
  pub status : SlotStatus
  pub activated_at : ℕ
  pub retired_at : Option ℕ
  pub tx_count : ℤ
  pub last_dispatch_at : Option ℕ

abbrev pub Slots : Type 0
Slots = List Slot

abbrev pub is_slot : ℕ → Slot → Bool
is_slot i s = s.id == i

unfoldable pub create_slot : ℕ → Text → ℕ → Slots → Answer Slot × Slots
create_slot i address activated slots =
    if exists_by (λ s. is_slot i s || text_eq s.tron_address address) slots
    then (failed duplicate_slot, slots)
    else let slot : Slot = record {
      id = i;
      tron_address = address;
      status = active;
      activated_at = activated;
      retired_at = none;
      tx_count = pos 0;
      last_dispatch_at = none;
    } in
      (done slot, slots ++ (slot ∷ []))

unfoldable pub get_slot : ℕ → Slots → Answer Slot
get_slot i slots = elim (find_by (is_slot i) slots) [
  | none ↦ failed slot_not_found
  | some s ↦ done s
]

-- `List`, `ORDER BY id`.
unfoldable pub list_slots : SlotStatus → Slots → Slots
list_slots status slots =
    sort_by (λ a b. ltb a.id b.id) (select (λ s. slot_status_eq s.status status) slots)

-- `transition`: the statement, whose count of rows is not looked at.
unfoldable pub transition_slot : ℕ → SlotStatus → SlotStatus → Option ℕ → Slots → Slots
transition_slot i before after retired_at slots =
    update_by (λ s. is_slot i s && slot_status_eq s.status before)
      (λ s. record s {
        status = after;
        retired_at = elim retired_at [ none ↦ s.retired_at | some now ↦ some now ];
      })
      slots

-- `MarkRetiring`, which returns nil.
unfoldable pub mark_retiring : ℕ → Slots → Slots
mark_retiring i slots = transition_slot i active retiring none slots

-- `MarkRetired`: a Get and a statement, with what others commit in between.
unfoldable pub mark_retired : (Slots → Slots) → ℕ → ℕ → Slots → Answer (Unit {0}) × Slots
mark_retired others i now slots = elim (get_slot i slots) [
  | failed f ↦ (failed f, slots)
  | done slot ↦
      if not (slot_status_eq slot.status active) && not (slot_status_eq slot.status retiring)
      then (failed illegal_transition, slots)
      else (done tt, transition_slot i slot.status retired (some now) (others slots))
]

unfoldable pub increment_tx_count : ℕ → ℤ → Slots → Answer (Unit {0}) × Slots
increment_tx_count i delta slots = (
  if exists_by (is_slot i) slots then done tt else failed slot_not_found,
  update_by (is_slot i) (λ s. record s { tx_count = s.tx_count +ℤ delta }) slots,
)

pub record Caps : Type 0 where
  pub balance_ceiling : ℤ
  pub tx_count_ceiling : ℤ

-- One round of the loop over the balances, none where a balance could not be read.
unfoldable pub keep_slot : Caps → Slot → Option ℤ → Answer Slots → Answer Slots
keep_slot caps s none rest = failed ledger
keep_slot caps s (some balance) (failed f) = failed f
keep_slot caps s (some balance) (done rest) =
    if leb_ℤ caps.balance_ceiling balance
    then done rest
    else if leb_ℤ caps.tx_count_ceiling s.tx_count
    then done rest
    else done (s ∷ rest)

unfoldable pub eligible_slots : (ℕ → Option ℤ) → Caps → Slots → Answer Slots
eligible_slots balances caps [] = done []
eligible_slots balances caps (s ∷ slots) =
    keep_slot caps s (balances s.id) (eligible_slots balances caps slots)

-- The order of `sort.Slice`: never used first, then the longest unused, then by id.
unfoldable pub earlier_use : ℕ → ℕ → Option ℕ → Option ℕ → Bool
earlier_use i j none none = ltb i j
earlier_use i j none (some y) = true
earlier_use i j (some x) none = false
earlier_use i j (some x) (some y) = if not (x == y) then ltb x y else ltb i j

unfoldable pub used_before : Slot → Slot → Bool
used_before a b = earlier_use a.id b.id a.last_dispatch_at b.last_dispatch_at

unfoldable pub first_slot : ℕ → Slots → Slots → Answer Slot × Slots
first_slot now slots [] = (failed no_eligible_slot, slots)
first_slot now slots (chosen ∷ others) = (
  done (record chosen { last_dispatch_at = some now }),
  update_by (is_slot chosen.id) (λ s. record s { last_dispatch_at = some now }) slots,
)

-- `SelectForDispatch`.
unfoldable pub select_for_dispatch : (ℕ → Option ℤ) → Caps → ℕ → Slots → Answer Slot × Slots
select_for_dispatch balances caps now slots =
    elim (eligible_slots balances caps (list_slots active slots)) [
      | failed f ↦ (failed f, slots)
      | done eligible ↦ first_slot now slots (sort_by used_before eligible)
    ]
