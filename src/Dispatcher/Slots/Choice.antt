-- ===== src/Dispatcher/Slots/Choice.antt =====
-- SelectForDispatch: the slot that is chosen is the longest unused one of those that may be.
use usdt_settlement_corridor.Base.{
  ℕ, ◌≡◌, refl, sym, subst, Bool, true, false, ◌&&◌, not, [], ◌∷◌, Option, none, some, arith,
  if◌then◌else◌, All, All-map, ltb,
}
use usdt_settlement_corridor.Base.Int.{ℤ, leb_ℤ}
use usdt_settlement_corridor.Base.Table.{select, select-All-fits, All-select, update_by}
use usdt_settlement_corridor.Base.Sort.{
  sort_by, sort_by-All, All-sort_by, IsStrictWeak, Begins, sort_by-Begins,
}
use usdt_settlement_corridor.Dispatcher.Answer.{Answer, failed, done, no_eligible_slot}
use usdt_settlement_corridor.Dispatcher.Slots.{
  active, is_slot, slot_status_eq, Slot, Slots, list_slots, Caps, keep_slot, eligible_slots,
  earlier_use, used_before, first_slot, select_for_dispatch,
}

-- A slot under both caps, by its balance as read.
abbrev pub under_caps : Caps → Option ℤ → Slot → Bool
under_caps caps none s = false
under_caps caps (some balance) s =
    not (leb_ℤ caps.balance_ceiling balance) && not (leb_ℤ caps.tx_count_ceiling s.tx_count)

earlier_use_irrefl : (i : ℕ) (t : Option ℕ) → earlier_use i i t t ≡ false
unfolding earlier_use
earlier_use_irrefl i none = ground arith
earlier_use_irrefl i (some n) = ground arith

earlier_use_asym :
    (i j : ℕ) (t u : Option ℕ) → earlier_use i j t u ≡ true → earlier_use j i u t ≡ false
unfolding earlier_use
earlier_use_asym i j none none h = ground arith
earlier_use_asym i j none (some n) h = refl
earlier_use_asym i j (some m) none h = cc
earlier_use_asym i j (some m) (some n) h = ground arith

earlier_use_between :
    (i j k : ℕ) (t u v : Option ℕ)
    → earlier_use k j v u ≡ false
    → earlier_use j i u t ≡ false
    → earlier_use k i v t ≡ false
unfolding earlier_use
earlier_use_between i j k none none none g h = ground arith
earlier_use_between i j k none none (some w) g h = refl
earlier_use_between i j k none (some n) none g h = cc
earlier_use_between i j k none (some n) (some w) g h = refl
earlier_use_between i j k (some m) none v g h = cc
earlier_use_between i j k (some m) (some n) none g h = cc
earlier_use_between i j k (some m) (some n) (some w) g h = ground arith

used_before-IsStrictWeak : IsStrictWeak used_before
unfolding used_before
used_before-IsStrictWeak = record {
  irrefl = λ x. earlier_use_irrefl x.id x.last_dispatch_at;
  asym = λ x y. earlier_use_asym x.id y.id x.last_dispatch_at y.last_dispatch_at;
  between = λ x y z.
      earlier_use_between x.id y.id z.id x.last_dispatch_at y.last_dispatch_at z.last_dispatch_at;
}

keep_slot_done :
    (caps : Caps) (s : Slot) (balance : Option ℤ) (rest : Answer Slots) (es : Slots)
    → keep_slot caps s balance rest ≡ done es
    → (r : Slots) × (rest ≡ done r) × (es ≡ (if under_caps caps balance s then s ∷ r else r))
unfolding keep_slot
keep_slot_done caps s none rest es h = cc
keep_slot_done caps s (some balance) (failed f) es h = cc
keep_slot_done caps s (some balance) (done r) es h = (r, refl, ground arith)

module _ (balances : ℕ → Option ℤ) (caps : Caps) where
  abbrev pub is_eligible : Slot → Bool
  is_eligible s = slot_status_eq s.status active && under_caps caps (balances s.id) s

  eligible_slots_done :
      (slots es : Slots)
      → eligible_slots balances caps slots ≡ done es
      → es ≡ select (λ s. under_caps caps (balances s.id) s) slots
  unfolding eligible_slots select
  eligible_slots_done [] es h = ground arith
  eligible_slots_done (s ∷ slots) es h =
      let (r, e, made) =
        keep_slot_done caps s (balances s.id) (eligible_slots balances caps slots) es h in
      rw (made, eligible_slots_done slots r e) refl

  -- The list that the choice is made from, where the balances could be read.
  abbrev candidates : Slots → Slots
  candidates slots = select (λ s. under_caps caps (balances s.id) s) (list_slots active slots)

  -- The slot that is chosen, as it was.
  pub record Chosen (slots : Slots) (c : Slot) : Type 0 where
    pub eligible : is_eligible c ≡ true
    pub longest_unused : All (λ s. is_eligible s ≡ true → used_before s c ≡ false) slots

  -- What SelectForDispatch returns, once the balances are read.
  pub data Selects (now : ℕ) (slots : Slots) : Answer Slot × Slots → Type 0 where
    chooses :
        (c : Slot)
        → Chosen slots c
        → Selects now slots (
          done (record c { last_dispatch_at = some now }),
          update_by (is_slot c.id) (λ s. record s { last_dispatch_at = some now }) slots,
        )
    refuses :
        All (λ s. is_eligible s ≡ true → ⊥) slots
        → Selects now slots (failed no_eligible_slot, slots)

  spread :
      (P : Slot → Type 0) (slots : Slots)
      → All P (candidates slots)
      → All (λ s. is_eligible s ≡ true → P s) slots
  unfolding list_slots
  spread P slots h =
      let sorted =
        All-select P (λ s. under_caps caps (balances s.id) s) (list_slots active slots) h in
      let read =
        All-sort_by (λ s. under_caps caps (balances s.id) s ≡ true → P s) (λ a b. ltb a.id b.id)
          (select (λ s. slot_status_eq s.status active) slots) sorted in
      All-map
        (λ s.
          slot_status_eq s.status active ≡ true → under_caps caps (balances s.id) s ≡ true → P s)
        (λ s. is_eligible s ≡ true → P s) slots (λ s f e. f (fits s e).0 (fits s e).1)
        (All-select (λ s. under_caps caps (balances s.id) s ≡ true → P s)
          (λ s. slot_status_eq s.status active) slots read)
    where
      fits :
          (s : Slot)
          → is_eligible s ≡ true
          → (slot_status_eq s.status active ≡ true) × (under_caps caps (balances s.id) s ≡ true)
      fits s e = both (slot_status_eq s.status active) (under_caps caps (balances s.id) s) e
        where
          both : (a b : Bool) → a && b ≡ true → (a ≡ true) × (b ≡ true)
          both a b e = ground arith

  each_eligible : (slots : Slots) → All (λ s. is_eligible s ≡ true) (candidates slots)
  unfolding list_slots
  each_eligible slots =
      select-All-fits (λ s. is_eligible s ≡ true) (λ s. under_caps caps (balances s.id) s)
        (list_slots active slots)
        (sort_by-All (λ s. under_caps caps (balances s.id) s ≡ true → is_eligible s ≡ true)
          (λ a b. ltb a.id b.id) (select (λ s. slot_status_eq s.status active) slots)
          (select-All-fits (λ s. under_caps caps (balances s.id) s ≡ true → is_eligible s ≡ true)
            (λ s. slot_status_eq s.status active) slots (each slots)))
    where
      each :
          (slots : Slots)
          → All
              (λ s.
                slot_status_eq s.status active ≡ true
                → under_caps caps (balances s.id) s ≡ true
                → is_eligible s ≡ true)
              slots
      each [] = tt
      each (s ∷ slots) = (
        (λ t u. both (slot_status_eq s.status active) (under_caps caps (balances s.id) s) t u),
        each slots,
      )
        where
          both : (a b : Bool) → a ≡ true → b ≡ true → a && b ≡ true
          both a b t u = ground arith

  first_slot-Selects :
      (now : ℕ) (slots es ys : Slots)
      → Begins used_before-IsStrictWeak es ys
      → All (λ s. is_eligible s ≡ true) ys
      → ((P : Slot → Type 0) → All P es → All (λ s. is_eligible s ≡ true → P s) slots)
      → Selects now slots (first_slot now slots ys)
  unfolding first_slot
  first_slot-Selects now slots es [] h k reach = refuses (reach (λ s. ⊥) (rw h tt))
  first_slot-Selects now slots es (c ∷ ys) h k reach =
      chooses c (record { eligible = k.0; longest_unused = reach (λ s. used_before s c ≡ false) h })

  -- SelectForDispatch, once the balances of all ACTIVE slots are read: the slot that it chooses is
  -- ACTIVE, its balance and its count are below both caps, and no slot of which that is true comes
  -- before it, which is one never used, or else the longest unused, or else the one with the lesser
  -- id; the choice is recorded on that slot. It refuses for want of a slot only if none is ACTIVE
  -- and below both caps.
  pub select_for_dispatch_chosen :
      (now : ℕ) (slots es : Slots)
      → eligible_slots balances caps (list_slots active slots) ≡ done es
      → Selects now slots (select_for_dispatch balances caps now slots)
  unfolding select_for_dispatch
  select_for_dispatch_chosen now slots es h =
      let made = eligible_slots_done (list_slots active slots) es h in
      subst (Selects now slots) (ground arith) (
        first_slot-Selects now slots es (sort_by used_before es)
          (sort_by-Begins used_before-IsStrictWeak es)
          (sort_by-All (λ s. is_eligible s ≡ true) used_before es
            (subst (All (λ s. is_eligible s ≡ true)) (sym made) (each_eligible slots)))
          (λ P k. spread P slots (subst (All P) made k)))
