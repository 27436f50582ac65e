-- ===== src/Watcher/Tracker/Counts.antt =====
-- The tracker seen from one key: how many candidates and how many events there are under it, and what
-- the steps of a tick do to these numbers.
use usdt_settlement_corridor.Base.{
  ℕ, ◌≡◌, refl, subst, ◌∙◌, ◌↔◌, Bool, true, false, ◌&&◌, not, List, arith, if◌then◌else◌,
  Bool-cases, inl, inr,
}
use usdt_settlement_corridor.Base.Text.{text_eq_refl, eq_of_text_eq}
use usdt_settlement_corridor.Base.Count.{count_by, count_by-select, count_by_ext, count_by_none}
use usdt_settlement_corridor.Watcher.Tracker.{
  Key, same_key, Candidate, Event, detected, stale, accepted, withdrawn, has_key, without,
}

same_key_iff : (a b : Key) → (same_key a b ≡ true) ↔ (a ≡ b)
unfolding same_key
same_key_iff a b = (
  λ h. ground (arith, eq_of_text_eq a.tx_hash b.tx_hash),
  λ e. subst (λ x. same_key a x ≡ true) e (ground (arith, text_eq_refl a.tx_hash)),
)

pub same_key_refl : (a : Key) → same_key a a ≡ true
same_key_refl a = (same_key_iff a a).1 refl

pub eq_of_same_key : (a b : Key) → same_key a b ≡ true → a ≡ b
eq_of_same_key a b = (same_key_iff a b).0

-- The candidates under a key.
abbrev pub count_key : Key → List Candidate → ℕ
count_key k cs = count_by (has_key k) cs

pub count_key-without :
    (k j : Key) (cs : List Candidate)
    → count_key k (without j cs) ≡ (if same_key j k then 0 else count_key k cs)
count_key-without k j cs =
    count_by-select (has_key k) (λ c. not (same_key c.log.key j)) cs
    ∙ elim (Bool-cases (same_key j k)) [
      | inl t ↦
          rw t (count_by_none (λ c. has_key k c && not (same_key c.log.key j)) cs (λ c. hit c t))
      | inr n ↦ rw n (
          count_by_ext (λ c. has_key k c && not (same_key c.log.key j)) (has_key k) cs
            (λ c. miss c n))
    ]
  where
    hit : (c : Candidate) → same_key j k ≡ true → has_key k c && not (same_key c.log.key j) ≡ false
    hit c t = rw (eq_of_same_key j k t) (both (same_key c.log.key k))
      where
        both : (b : Bool) → b && not b ≡ false
        both b = ground arith

    miss :
        (c : Candidate)
        → same_key j k ≡ false
        → has_key k c && not (same_key c.log.key j) ≡ has_key k c
    miss c n = elim (Bool-cases (same_key c.log.key k)) [
      | inr f ↦ ground arith
      | inl t ↦
          let apart : same_key c.log.key j ≡ false = elim (Bool-cases (same_key c.log.key j)) [
            | inr f ↦ f
            | inl u ↦
                absurd (clash (subst (λ x. same_key x k ≡ true) (eq_of_same_key c.log.key j u) t) n)
          ] in
          rw apart (keep (same_key c.log.key k))
    ]
      where
        clash : same_key j k ≡ true → same_key j k ≡ false → ⊥
        clash p q = cc

        keep : (b : Bool) → b && not false ≡ b
        keep b = ground arith

-- The events of a kind under a key.
unfoldable pub is_detected : Key → Event → Bool
is_detected k e = elim e [ detected j ↦ same_key j k | _ ↦ false ]

unfoldable pub is_stale_alert : Key → Event → Bool
is_stale_alert k e = elim e [ stale j ↦ same_key j k | _ ↦ false ]

unfoldable pub is_accepted : Key → Event → Bool
is_accepted k e = elim e [ accepted j ↦ same_key j k | _ ↦ false ]

unfoldable pub is_withdrawn : Key → Event → Bool
is_withdrawn k e = elim e [ withdrawn j ↦ same_key j k | _ ↦ false ]
