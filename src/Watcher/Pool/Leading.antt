-- ===== src/Watcher/Pool/Leading.antt =====
-- One group contends with the leader of the groups before it.
use usdt_settlement_corridor.Base.{
  ℕ, ◌+◌, ◌≤◌, ◌<◌, ◌≡◌, refl, sym, subst, ◌⊎◌, inl, inr, true, false, arith, ltb, ◌==◌,
  if◌then◌else◌, length, Bool-cases,
}
use usdt_settlement_corridor.Base.Text.{Text, text_eq, text_eq_refl, eq_of_text_eq}
use usdt_settlement_corridor.Watcher.Pool.Round.{Group, Winner, contend}
use usdt_settlement_corridor.Watcher.Pool.Groups.{text_eq_sym_false}

-- The leader of a contest with some votes counted: no hash has enough, or its own has, and no other has
-- more. The contest is ambiguous when another has as many.
pub data IsLeading (least : ℕ) (votes : Text → ℕ) (w : Winner) : Type 0 where
  nobody :
      w.count ≡ 0 → w.ambiguous ≡ false → ((y : Text) → votes y < least) → IsLeading least votes w
  alone :
      0 < w.count
      → least ≤ w.count
      → votes w.hash ≡ w.count
      → w.ambiguous ≡ false
      → ((y : Text) → (text_eq w.hash y ≡ true) ⊎ (votes y < w.count))
      → IsLeading least votes w
  tied :
      (z : Text)
      → 0 < w.count
      → least ≤ w.count
      → votes w.hash ≡ w.count
      → w.ambiguous ≡ true
      → text_eq w.hash z ≡ false
      → votes z ≡ w.count
      → ((y : Text) → votes y ≤ w.count)
      → IsLeading least votes w

module _ (least : ℕ) (votes : Text → ℕ) (w : Winner) (g : Group) where
  -- The votes with those of one more group.
  abbrev pub with_group : Text → ℕ
  with_group y = votes y + (if text_eq g.hash y then length g.names else 0)

  same_votes : (s t : Text) → text_eq s t ≡ true → votes s ≡ votes t
  same_votes s t e = cc (eq_of_text_eq s t e)

  own_votes : votes g.hash ≡ 0 → with_group g.hash ≡ length g.names
  own_votes e = ground (arith, text_eq_refl g.hash)

  other_hash : votes g.hash ≡ 0 → 0 < votes w.hash → text_eq w.hash g.hash ≡ false
  other_hash e p = elim (Bool-cases (text_eq w.hash g.hash)) [
    | inl t ↦ ground (arith, same_votes w.hash g.hash t)
    | inr f ↦ f
  ]

  other_votes : votes g.hash ≡ 0 → 0 < votes w.hash → with_group w.hash ≡ votes w.hash
  other_votes e p = ground (arith, text_eq_sym_false w.hash g.hash (other_hash e p))

  bounded :
      (k : ℕ)
      → votes g.hash ≡ 0
      → length g.names ≤ k
      → ((y : Text) → votes y ≤ k)
      → (y : Text) → with_group y ≤ k
  bounded k e l b y = elim (Bool-cases (text_eq g.hash y)) [
    | inl t ↦ ground (arith, same_votes g.hash y t)
    | inr f ↦ ground (arith, b y)
  ]

  beaten :
      (k : ℕ)
      → votes g.hash ≡ 0
      → length g.names < k
      → ((y : Text) → (text_eq w.hash y ≡ true) ⊎ (votes y < k))
      → (y : Text) → (text_eq w.hash y ≡ true) ⊎ (with_group y < k)
  beaten k e l b y = elim (b y) [
    | inl t ↦ inl t
    | inr v ↦ inr (elim (Bool-cases (text_eq g.hash y)) [
      | inl t ↦ ground (arith, same_votes g.hash y t)
      | inr f ↦ ground arith
    ])
  ]

  below :
      (k : ℕ)
      → ((y : Text) → votes y < k)
      → (y : Text) → (text_eq g.hash y ≡ true) ⊎ (with_group y < k)
  below k b y = elim (Bool-cases (text_eq g.hash y)) [
    | inl t ↦ inl t
    | inr f ↦ inr (ground (arith, b y))
  ]

  at_most :
      (k : ℕ)
      → votes w.hash ≡ k
      → ((y : Text) → (text_eq w.hash y ≡ true) ⊎ (votes y < k))
      → (y : Text) → votes y ≤ k
  at_most k e b y = elim (b y) [
    | inl t ↦ ground (arith, same_votes w.hash y t)
    | inr v ↦ omega arith
  ]

  alone_kept :
      votes g.hash ≡ 0
      → length g.names < w.count
      → 0 < w.count
      → least ≤ w.count
      → votes w.hash ≡ w.count
      → w.ambiguous ≡ false
      → ((y : Text) → (text_eq w.hash y ≡ true) ⊎ (votes y < w.count))
      → IsLeading least with_group w
  alone_kept new n p l e a v =
      alone p l (ground (arith, other_votes new)) a (beaten w.count new n v)

  still : (z : Text) (k : ℕ) → votes g.hash ≡ 0 → 0 < k → votes z ≡ k → with_group z ≡ k
  still z k new p e = elim (Bool-cases (text_eq g.hash z)) [
    | inl t ↦ ground (arith, same_votes g.hash z t)
    | inr f ↦ ground arith
  ]

  -- A contender with at most the leader's number: an equal one ties.
  contend_more :
      0 < w.count
      → least ≤ length g.names
      → w.count < length g.names
      → contend least w g ≡ record { hash = g.hash; count = length g.names; ambiguous = false }
  unfolding contend
  contend_more p l m = ground arith

  contend_less : least ≤ w.count → 0 < w.count → length g.names < w.count → contend least w g ≡ w
  unfolding contend
  contend_less l p m = ground arith

  contend_same :
      least ≤ w.count
      → 0 < w.count
      → length g.names ≡ w.count
      → contend least w g ≡ record w { ambiguous = true }
  unfolding contend
  contend_same l p m = ground arith

  compared : (m n : ℕ) → (m < n) ⊎ ((m ≡ n) ⊎ (n < m))
  compared m n = elim (Bool-cases (ltb m n)) [
    | inl l ↦ inl (ground arith)
    | inr g ↦ elim (Bool-cases (m == n)) [
      | inl e ↦ inr (inl (ground arith))
      | inr d ↦ inr (inr (ground arith))
    ]
  ]

  contend-nobody :
      1 ≤ least
      → votes g.hash ≡ 0
      → w.count ≡ 0
      → w.ambiguous ≡ false
      → ((y : Text) → votes y < least)
      → IsLeading least with_group (contend least w g)
  unfolding contend
  contend-nobody big new c a v = elim (Bool-cases (ltb (length g.names) least)) [
    | inl few ↦ rw few (
        nobody c a (λ y. elim (below least v y) [
          | inl t ↦ ground (arith, same_votes g.hash y t)
          | inr l ↦ l
        ]))
    | inr enough ↦
        rw (enough, c)
          (alone (ground arith) (ground arith) (own_votes new) a
            (λ y. elim (below least v y) [ inl t ↦ inl t | inr l ↦ inr (ground arith) ]))
  ]

  -- A group with more names than the leader leads alone.
  contend-overtaken :
      0 < w.count
      → least ≤ w.count
      → votes g.hash ≡ 0
      → ((y : Text) → votes y ≤ w.count)
      → w.count < length g.names
      → IsLeading least with_group (contend least w g)
  contend-overtaken p l new v m =
      subst (IsLeading least with_group) (sym (contend_more p (omega arith) m)) (
        alone (omega arith) (omega arith) (own_votes new) refl
          (below (length g.names) (λ y. ground (arith, v y))))

  contend-alone :
      votes g.hash ≡ 0
      → 0 < w.count
      → least ≤ w.count
      → votes w.hash ≡ w.count
      → w.ambiguous ≡ false
      → ((y : Text) → (text_eq w.hash y ≡ true) ⊎ (votes y < w.count))
      → IsLeading least with_group (contend least w g)
  contend-alone new p l e a v = elim (compared (length g.names) w.count) [
    | inl m ↦
        subst (IsLeading least with_group) (sym (contend_less l p m)) (alone_kept new m p l e a v)
    | inr (inl m) ↦ subst (IsLeading least with_group) (sym (contend_same l p m)) (
        tied g.hash p l (still w.hash w.count new p e) refl (other_hash new (omega arith))
          (ground (arith, own_votes new)) (bounded w.count new (omega arith) (at_most w.count e v)))
    | inr (inr m) ↦ contend-overtaken p l new (at_most w.count e v) m
  ]

  contend-tied :
      (z : Text)
      → votes g.hash ≡ 0
      → 0 < w.count
      → least ≤ w.count
      → votes w.hash ≡ w.count
      → w.ambiguous ≡ true
      → text_eq w.hash z ≡ false
      → votes z ≡ w.count
      → ((y : Text) → votes y ≤ w.count)
      → IsLeading least with_group (contend least w g)
  contend-tied z new p l e a d f v = elim (compared (length g.names) w.count) [
    | inl m ↦ subst (IsLeading least with_group) (sym (contend_less l p m)) (
        tied z p l (still w.hash w.count new p e) a d (still z w.count new p f)
          (bounded w.count new (omega arith) v))
    | inr (inl m) ↦ subst (IsLeading least with_group) (sym (contend_same l p m)) (
        tied z p l (still w.hash w.count new p e) refl d (still z w.count new p f)
          (bounded w.count new (omega arith) v))
    | inr (inr m) ↦ contend-overtaken p l new v m
  ]

  -- A group under a new hash contends.
  pub contend-IsLeading :
      1 ≤ least
      → votes g.hash ≡ 0
      → IsLeading least votes w
      → IsLeading least with_group (contend least w g)
  contend-IsLeading big new (nobody c a v) = contend-nobody big new c a v
  contend-IsLeading big new (alone p l e a v) = contend-alone new p l e a v
  contend-IsLeading big new (tied z p l e a d f v) = contend-tied z new p l e a d f v
