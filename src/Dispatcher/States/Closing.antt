-- ===== src/Dispatcher/States/Closing.antt =====
-- Rows of dispatch_state that are closed as HELD (dispatcher/internal/dispatch/store.go).
use usdt_settlement_corridor.Base.{
  ℕ, ◌≡◌, refl, sym, ap, subst, true, ◌&&◌, [], ◌∷◌, arith, ◌==◌, ==_iff, Bool-cases, inl, inr, ◌⊎◌,
}
use usdt_settlement_corridor.Base.Table.{exists_by, update_by}
use usdt_settlement_corridor.Dispatcher.States.{
  DispatchStatus, dispatching, settled, held, dispatch_status_eq, DispatchAttempt, States,
  mark_status, mark_held,
}
use usdt_settlement_corridor.Dispatcher.States.Marks.{stands}

-- A table of which rows have been closed: each row is as it was, or was DISPATCHING, has become HELD,
-- and its order is one that `P` holds of.
abbrev pub Closed : (ℕ → Type 0) → States → States → Type 0
Closed P [] [] = Unit
Closed P [] (b ∷ after) = ⊥
Closed P (a ∷ before) [] = ⊥
Closed P (a ∷ before) (b ∷ after) =
    ((b ≡ a) ⊎ ((a.status ≡ dispatching) × (b ≡ record a { status = held }) × P a.order_id))
    × Closed P before after

module _ (P : ℕ → Type 0) where
  pub Closed-refl : (rows : States) → Closed P rows rows
  Closed-refl [] = tt
  Closed-refl (a ∷ rows) = (inl refl, Closed-refl rows)

  -- The rows of an order that `P` holds of are marked.
  Closed-update_by :
      (i : ℕ) (before rows : States)
      → P i
      → Closed P before rows
      → Closed P before (update_by (stands i dispatching) (λ a. record a { status = held }) rows)
  unfolding update_by
  Closed-update_by i [] [] p h = tt
  Closed-update_by i [] (b ∷ rows) p h = absurd h
  Closed-update_by i (a ∷ before) [] p h = absurd h
  Closed-update_by i (a ∷ before) (b ∷ rows) p h = elim (Bool-cases (stands i dispatching b)) [
    | inr n ↦ rw n (h.0, Closed-update_by i before rows p h.1)
    | inl t ↦ rw t (inr (marked h.0 t), Closed-update_by i before rows p h.1)
  ]
    where
      is_it :
          (n : ℕ) (st : DispatchStatus)
          → (n == i) && dispatch_status_eq st dispatching ≡ true
          → (i ≡ n) × (st ≡ dispatching)
      is_it n dispatching t = (sym ((==_iff n i).0 (ground (arith, t))), refl)
      is_it n settled t = absurd (ground (arith, t))
      is_it n held t = absurd (ground (arith, t))

      never : held ≡ dispatching → ⊥
      never e = cc

      marked :
          (b ≡ a) ⊎ ((a.status ≡ dispatching) × (b ≡ record a { status = held }) × P a.order_id)
          → stands i dispatching b ≡ true
          → (a.status ≡ dispatching)
            × (record b { status = held } ≡ record a { status = held })
            × P a.order_id
      marked (inl e) t =
          let (at, st) =
            is_it a.order_id a.status (subst (λ x. stands i dispatching x ≡ true) e t) in
          (st, ap (λ (x : DispatchAttempt). record x { status = held }) e, subst P at p)
      marked (inr (st, e, q)) t =
          absurd (never (is_it a.order_id held (subst (λ x. stands i dispatching x ≡ true) e t)).1)

  pub mark_held-Closed :
      (i : ℕ) (before rows : States)
      → P i
      → Closed P before rows
      → Closed P before (mark_held i rows).1
  unfolding mark_held mark_status
  mark_held-Closed i before rows p h = elim (Bool-cases (exists_by (stands i dispatching) rows)) [
    | inl t ↦ rw t (Closed-update_by i before rows p h)
    | inr n ↦ rw n h
  ]
