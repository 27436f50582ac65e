-- ===== src/Dispatcher/States/Marks.antt =====
-- What marking an order's row in dispatch_state leaves (dispatcher/internal/dispatch/store.go).
use usdt_settlement_corridor.Base.{
  ℕ, ◌≡◌, refl, subst, Bool, true, false, ◌&&◌, [], ◌∷◌, none, some, arith, ◌==◌, ==_iff,
  Bool-cases, Option-cases, inl, inr, ◌⊎◌,
}
use usdt_settlement_corridor.Base.Table.{find_by, exists_by, update_by}
use usdt_settlement_corridor.Dispatcher.Answer.{
  Failure, Answer, failed, done, attempt_not_found, not_allowed,
}
use usdt_settlement_corridor.Dispatcher.States.{
  DispatchStatus, dispatching, settled, held, dispatch_status_eq, DispatchAttempt, States, of_order,
  get_state, mark_status,
}

abbrev pub stands : ℕ → DispatchStatus → DispatchAttempt → Bool
stands i status a = of_order i a && dispatch_status_eq a.status status

-- The order has a row with the status and none that is DISPATCHING, and the rows that the other orders
-- are found by are as they were.
pub record Marked (i : ℕ) (status : DispatchStatus) (before after : States) : Type 0 where
  pub here : exists_by (stands i status) after ≡ true
  pub no_longer : exists_by (stands i dispatching) after ≡ false
  pub others : (j : ℕ) → (i ≡ j) ⊎ (get_state j after ≡ get_state j before)

abbrev put : DispatchStatus → DispatchAttempt → DispatchAttempt
put status a = record a { status = status }

status_eq_refl : (t : DispatchStatus) → dispatch_status_eq t t ≡ true
status_eq_refl dispatching = refl
status_eq_refl settled = refl
status_eq_refl held = refl

put_here :
    (i : ℕ) (status : DispatchStatus) (states : States)
    → exists_by (stands i dispatching) states ≡ true
    → exists_by (stands i status) (update_by (stands i dispatching) (put status) states) ≡ true
unfolding exists_by update_by
put_here i status [] h = h
put_here i status (a ∷ states) h = elim (Bool-cases (stands i dispatching a)) [
  | inl t ↦ rw t (rw (of_it (of_order i a) _ t, status_eq_refl status) refl)
  | inr n ↦ rw n (ground (arith, put_here i status states (rw n at h)))
]
  where
    of_it : (a b : Bool) → a && b ≡ true → a ≡ true
    of_it a b h = ground arith

put_none :
    (i : ℕ) (status : DispatchStatus) (states : States)
    → dispatch_status_eq status dispatching ≡ false
    → exists_by (stands i dispatching) (update_by (stands i dispatching) (put status) states)
      ≡ false
unfolding exists_by update_by
put_none i status [] g = refl
put_none i status (a ∷ states) g = elim (Bool-cases (stands i dispatching a)) [
  | inl t ↦ ground (arith, put_none i status states g)
  | inr n ↦ ground (arith, put_none i status states g)
]

put_others :
    (i j : ℕ) (status : DispatchStatus) (states : States)
    → (i == j) ≡ false
    → find_by (of_order j) (update_by (stands i dispatching) (put status) states)
      ≡ find_by (of_order j) states
unfolding find_by update_by
put_others i j status [] n = refl
put_others i j status (a ∷ states) n = elim (Bool-cases (stands i dispatching a)) [
  | inl t ↦ rw t (
      ground
        (arith, not_it (a.order_id) (of_it (of_order i a) _ t), put_others i j status states n))
  | inr m ↦ rw m (ground (arith, put_others i j status states n))
]
  where
    of_it : (a b : Bool) → a && b ≡ true → a ≡ true
    of_it a b h = ground arith

    not_it : (k : ℕ) → (k == i) ≡ true → (k == j) ≡ false
    not_it k e = ground arith

get_others :
    (i j : ℕ) (status : DispatchStatus) (states : States)
    → (i == j) ≡ false
    → get_state j (update_by (stands i dispatching) (put status) states) ≡ get_state j states
unfolding get_state
get_others i j status states n = rw (put_others i j status states n, get_state) refl

found_stands :
    (i : ℕ) (status : DispatchStatus) (states : States) (a : DispatchAttempt)
    → find_by (of_order i) states ≡ some a
    → dispatch_status_eq a.status status ≡ true
    → exists_by (stands i status) states ≡ true
unfolding find_by exists_by
found_stands i status [] a h g = absurd (never h)
  where
    never : none ≡ some a → ⊥
    never e = cc
found_stands i status (b ∷ states) a h g = elim (Bool-cases (of_order i b)) [
  | inl t ↦ rw (t, same b a (rw t at h), g) refl
  | inr n ↦ ground (arith, found_stands i status states a (rw n at h) g)
]
  where
    same : (x y : DispatchAttempt) → some x ≡ some y → x ≡ y
    same x y e = cc

-- MarkSettled and MarkHeld, when they end well.
pub mark_status-Marked :
    (i : ℕ) (status : DispatchStatus) (before after : States)
    → dispatch_status_eq status dispatching ≡ false
    → mark_status i status before ≡ (done tt, after)
    → Marked i status before after
unfolding mark_status get_state
mark_status-Marked i status before after g h =
    elim (Bool-cases (exists_by (stands i dispatching) before)) [
      | inl t ↦ subst (Marked i status before) (table _ _ (rw t at h)) (record {
        here = put_here i status before t;
        no_longer = put_none i status before g;
        others = λ j. elim (Bool-cases (i == j)) [
          | inl e ↦ inl ((==_iff i j).0 e)
          | inr n ↦ inr (get_others i j status before n)
        ];
      })
      | inr n ↦ elim (Option-cases (find_by (of_order i) before)) [
        | inl e ↦ absurd (never attempt_not_found before (rw (n, e) at h))
        | inr (a, e) ↦ elim (Bool-cases (dispatch_status_eq a.status status)) [
          | inr m ↦ absurd (never not_allowed before (rw (n, e, m) at h))
          | inl same ↦ subst (Marked i status before) (table _ _ (rw (n, e, same) at h)) (record {
            here = found_stands i status before a e same;
            no_longer = n;
            others = λ j. inr refl;
          })
        ]
      ]
    ]
  where
    table : (x y : States) → ◌≡◌ {A = Answer (Unit {0}) × States} (done tt, x) (done tt, y) → x ≡ y
    table x y e = cc

    never :
        (f : Failure) (t : States)
        → ◌≡◌ {A = Answer (Unit {0}) × States} (failed f, t) (done tt, after)
        → ⊥
    never f t e = cc
