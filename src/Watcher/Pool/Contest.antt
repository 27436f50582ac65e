-- ===== src/Watcher/Pool/Contest.antt =====
-- The contest between the groups for the largest that is large enough.
use usdt_settlement_corridor.Base.{
  ℕ, ◌+◌, ◌≤◌, ◌<◌, ◌≡◌, refl, sym, subst, ◌⊎◌, inl, inr, Bool, true, false, List, [], ◌∷◌, arith,
  Bool-cases,
}
use usdt_settlement_corridor.Base.Text.{Text, text_eq, text_eq_refl, eq_of_text_eq}
use usdt_settlement_corridor.Watcher.Pool.Round.{Group, Winner, contend, contend_all, no_winner}
use usdt_settlement_corridor.Watcher.Pool.Groups.{backers, IsGrouped}
use usdt_settlement_corridor.Watcher.Pool.Leading.{
  IsLeading, nobody, alone, tied, with_group, contend-IsLeading,
}

IsLeading-ext :
    (least : ℕ) (v v' : Text → ℕ) (w : Winner)
    → ((y : Text) → v y ≡ v' y)
    → IsLeading least v w
    → IsLeading least v' w
IsLeading-ext least v v' w h (nobody c a k) = nobody c a (λ y. ground (arith, h y, k y))
IsLeading-ext least v v' w h (alone p l e a k) =
    alone p l (ground (arith, h w.hash)) a
      (λ y. elim (k y) [ inl t ↦ inl t | inr b ↦ inr (ground (arith, h y)) ])
IsLeading-ext least v v' w h (tied z p l e a d f k) =
    tied z p l (ground (arith, h w.hash)) a d (ground (arith, h z)) (λ y. ground (arith, h y, k y))

contend_all-IsLeading :
    (least : ℕ) (votes : Text → ℕ) (w : Winner) (gs : List Group)
    → 1 ≤ least
    → IsGrouped gs
    → ((y : Text) → (votes y ≡ 0) ⊎ (backers y gs ≡ 0))
    → IsLeading least votes w
    → IsLeading least (λ y. votes y + backers y gs) (contend_all least w gs)
unfolding contend_all backers IsGrouped
contend_all-IsLeading least votes w [] big k new h =
    IsLeading-ext least votes (λ y. votes y + 0) w (λ y. omega arith) h
contend_all-IsLeading least votes w (g ∷ gs) big k new h =
    IsLeading-ext least (λ y. with_group least votes w g y + backers y gs)
      (λ y. votes y + backers y (g ∷ gs)) (contend_all least (contend least w g) gs)
      (λ y. omega arith)
      (contend_all-IsLeading least (with_group least votes w g) (contend least w g) gs big k.2
        (fresh new) (contend-IsLeading least votes w g big (zero (new g.hash)) h))
  where
    fresh :
        ((y : Text) → (votes y ≡ 0) ⊎ (backers y (g ∷ gs) ≡ 0))
        → (y : Text) → (with_group least votes w g y ≡ 0) ⊎ (backers y gs ≡ 0)
    fresh n y = elim (Bool-cases (text_eq g.hash y)) [
      | inl t ↦ inr (cc (eq_of_text_eq g.hash y t, k.1))
      | inr f ↦ elim (n y) [ inl e ↦ inl (ground arith) | inr e ↦ inr (ground arith) ]
    ]

    zero : (votes g.hash ≡ 0) ⊎ (backers g.hash (g ∷ gs) ≡ 0) → votes g.hash ≡ 0
    zero (inl e) = e
    zero (inr e) = ground (arith, text_eq_refl g.hash, k.0)

-- The winner of a contest between groups: enough names, and more than any other hash has.
unfoldable pub IsWinner : ℕ → List Group → Text → Type 0
IsWinner least gs x =
    (least ≤ backers x gs) × ((y : Text) → text_eq x y ≡ false → backers y gs < backers x gs)

module _ (least : ℕ) (gs : List Group) (big : 1 ≤ least) (k : IsGrouped gs) where
  pub final-IsLeading : IsLeading least (λ y. backers y gs) (contend_all least no_winner gs)
  final-IsLeading =
      IsLeading-ext least (λ y. 0 + backers y gs) (λ y. backers y gs)
        (contend_all least no_winner gs) (λ y. omega arith)
        (contend_all-IsLeading least (λ y. 0) no_winner gs big k (λ y. inl refl)
          (nobody refl refl (λ y. omega arith)))

  pub won :
      (w : Winner) (x : Text)
      → IsLeading least (λ y. backers y gs) w
      → w.ambiguous ≡ false
      → 0 < w.count
      → w.hash ≡ x
      → IsWinner least gs x
  unfolding IsWinner
  won w x (nobody c a v) f p e = absurd (omega arith)
  won w x (tied z p' l e' a d f' v) f p e = absurd (no_bool w.ambiguous a f)
    where
      no_bool : (b : Bool) → b ≡ true → b ≡ false → ⊥
      no_bool b t n = cc
  won w x (alone p' l e' a v) f p e = subst (IsWinner least gs) e (
    ground arith,
    λ y n. elim (v y) [ inl t ↦ absurd (no_bool (text_eq w.hash y) t n) | inr b ↦ ground arith ],
  )
    where
      no_bool : (b : Bool) → b ≡ true → b ≡ false → ⊥
      no_bool b t n = cc

  pub wins :
      (w : Winner) (x : Text)
      → IsLeading least (λ y. backers y gs) w
      → IsWinner least gs x
      → (w.ambiguous ≡ false) × (0 < w.count) × (w.hash ≡ x)
  unfolding IsWinner
  wins w x (nobody c a v) h = absurd (ground (arith, v x, h.0))
  wins w x (alone p l e a v) h = (
    a,
    p,
    elim (v x) [
      | inl t ↦ eq_of_text_eq w.hash x t
      | inr b ↦ elim (Bool-cases (text_eq x w.hash)) [
        | inl t ↦ sym (eq_of_text_eq x w.hash t)
        | inr f ↦ absurd (ground (arith, h.1 w.hash f))
      ]
    ],
  )
  wins w x (tied z p l e a d f v) h = elim (Bool-cases (text_eq x w.hash)) [
    | inl t ↦ absurd (ground (arith, h.1 z (cc (eq_of_text_eq x w.hash t)), v x))
    | inr n ↦ absurd (ground (arith, h.1 w.hash n, v x))
  ]
