-- ===== src/Base/Sort.antt =====
-- Sorting by a strict order, as `sort.Slice` and ORDER BY do: equal keys keep their order.
use mathlib.Core.List.{Perm, Permᴰ}
use mathlib.Core.Logic.{∥∥₁_elim}
use mathlib.Core.Path.{ap₂}
use usdt_settlement_corridor.Base.{
  ◌≡◌, refl, ap, ◌∙◌, Bool, true, false, List, [], ◌∷◌, arith, if◌then◌else◌, All, All-map,
  Bool-cases, inl, inr,
}

module _ {ℓ} {A : Type ℓ} where
  unfoldable pub insert_by : (A → A → Bool) → A → List A → List A
  insert_by lt x [] = x ∷ []
  insert_by lt x (y ∷ ys) = if lt y x then y ∷ insert_by lt x ys else x ∷ y ∷ ys

  unfoldable pub sort_by : (A → A → Bool) → List A → List A
  sort_by lt [] = []
  sort_by lt (x ∷ xs) = insert_by lt x (sort_by lt xs)

-- A strict order in which any two different keys compare.
pub record IsStrictTotal {ℓ} {A : Type ℓ} (lt : A → A → Bool) : Type ℓ where
  pub irrefl : (x : A) → lt x x ≡ false
  pub trans : (x y z : A) → lt x y ≡ true → lt y z ≡ true → lt x z ≡ true
  pub tri : (x y : A) → lt x y ≡ false → lt y x ≡ false → x ≡ y

module _ {ℓ} {A : Type ℓ} {lt : A → A → Bool} (o : IsStrictTotal lt) where
  insert_by_comm :
      (x y : A) (zs : List A)
      → insert_by lt x (insert_by lt y zs) ≡ insert_by lt y (insert_by lt x zs)
  unfolding insert_by
  insert_by_comm x y [] = ground (arith, o.tri x y, o.trans x y x, o.irrefl x)
  insert_by_comm x y (z ∷ zs) = ground (
    arith,
    o.tri x y,
    o.trans x y x,
    o.irrefl x,
    o.trans z y x,
    o.trans z x y,
    insert_by_comm x y zs,
  )

  sort_by-permᴰ : {xs ys : List A} → Permᴰ xs ys → sort_by lt xs ≡ sort_by lt ys
  unfolding sort_by
  sort_by-permᴰ Permᴰ.nil = refl
  sort_by-permᴰ (Permᴰ.cons e p) = ap₂ (insert_by lt) e (sort_by-permᴰ p)
  sort_by-permᴰ (Permᴰ.swap {a} {b} {l = l} e f) =
      ap₂ (λ u v. insert_by lt u (insert_by lt v (sort_by lt l))) e f
      ∙ insert_by_comm _ _ (sort_by lt l)
  sort_by-permᴰ (Permᴰ.trans p q) = sort_by-permᴰ p ∙ sort_by-permᴰ q

  -- The sorted list does not depend on the order in which the elements came.
  pub sort_by-perm : IsSet (List A) → (xs ys : List A) → Perm xs ys → sort_by lt xs ≡ sort_by lt ys
  sort_by-perm s xs ys p = ∥∥₁_elim p (s _ _) sort_by-permᴰ

module _ {ℓ} {A : Type ℓ} where
  -- Each element precedes none after it.
  abbrev pub IsAscending : (A → A → Bool) → List A → Type 0
  IsAscending lt [] = Unit
  IsAscending lt (x ∷ xs) = All (λ y. lt y x ≡ false) xs × IsAscending lt xs

  insert_by_least :
      (lt : A → A → Bool) (x : A) (xs : List A)
      → All (λ y. lt y x ≡ false) xs
      → insert_by lt x xs ≡ x ∷ xs
  unfolding insert_by
  insert_by_least lt x [] h = refl
  insert_by_least lt x (y ∷ xs) h = ground arith

  -- ORDER BY leaves rows alone that are in order.
  pub sort_by_ascending : (lt : A → A → Bool) (xs : List A) → IsAscending lt xs → sort_by lt xs ≡ xs
  unfolding sort_by
  sort_by_ascending lt [] h = refl
  sort_by_ascending lt (x ∷ xs) h =
      ap (insert_by lt x) (sort_by_ascending lt xs h.1) ∙ insert_by_least lt x xs h.0

module _ {ℓ κ} {A : Type ℓ} (P : A → Type κ) where
  insert_by-All :
      (lt : A → A → Bool) (x : A) (xs : List A) → P x → All P xs → All P (insert_by lt x xs)
  unfolding insert_by
  insert_by-All lt x [] p h = (p, tt)
  insert_by-All lt x (y ∷ xs) p h = elim (Bool-cases (lt y x)) [
    | inl t ↦ rw (t, insert_by) (h.0, insert_by-All lt x xs p h.1)
    | inr f ↦ rw (f, insert_by) (p, h)
  ]

  pub sort_by-All : (lt : A → A → Bool) (xs : List A) → All P xs → All P (sort_by lt xs)
  unfolding sort_by
  sort_by-All lt [] h = tt
  sort_by-All lt (x ∷ xs) h = insert_by-All lt x (sort_by lt xs) h.0 (sort_by-All lt xs h.1)

  All-insert_by :
      (lt : A → A → Bool) (x : A) (xs : List A) → All P (insert_by lt x xs) → P x × All P xs
  unfolding insert_by
  All-insert_by lt x [] h = (h.0, tt)
  All-insert_by lt x (y ∷ xs) h = elim (Bool-cases (lt y x)) [
    | inl t ↦
        let h' : All P (y ∷ insert_by lt x xs) = rw t at h in
        let rest = All-insert_by lt x xs h'.1 in (rest.0, (h'.0, rest.1))
    | inr f ↦ let h' : All P (x ∷ y ∷ xs) = rw f at h in (h'.0, h'.1)
  ]

  -- What every element of the sorted list has, every element has.
  pub All-sort_by : (lt : A → A → Bool) (xs : List A) → All P (sort_by lt xs) → All P xs
  unfolding sort_by
  All-sort_by lt [] h = tt
  All-sort_by lt (x ∷ xs) h =
      let k = All-insert_by lt x (sort_by lt xs) h in (k.0, All-sort_by lt xs k.1)

-- A strict order of ranks, in which different elements may have one rank.
pub record IsStrictWeak {ℓ} {A : Type ℓ} (lt : A → A → Bool) : Type ℓ where
  pub irrefl : (x : A) → lt x x ≡ false
  pub asym : (x y : A) → lt x y ≡ true → lt y x ≡ false
  pub between : (x y z : A) → lt z y ≡ false → lt y x ≡ false → lt z x ≡ false

module _ {A : Type 0} {lt : A → A → Bool} (o : IsStrictWeak lt) where
  -- A sorted list begins with an element that nothing precedes.
  abbrev pub Begins : List A → List A → Type 0
  Begins xs [] = xs ≡ []
  Begins xs (c ∷ rest) = All (λ z. lt z c ≡ false) xs

  insert_by-Begins : (x : A) (xs ys : List A) → Begins xs ys → Begins (x ∷ xs) (insert_by lt x ys)
  unfolding insert_by
  insert_by-Begins x xs [] h = (o.irrefl x, rw h tt)
  insert_by-Begins x xs (y ∷ ys) h = elim (Bool-cases (lt y x)) [
    | inl t ↦ rw (t, insert_by) (o.asym y x t, h)
    | inr f ↦
        rw (f, insert_by)
          (
            o.irrefl x,
            All-map (λ z. lt z y ≡ false) (λ z. lt z x ≡ false) xs (λ z e. o.between x y z e f) h,
          )
  ]

  pub sort_by-Begins : (xs : List A) → Begins xs (sort_by lt xs)
  unfolding sort_by
  sort_by-Begins [] = refl
  sort_by-Begins (x ∷ xs) = insert_by-Begins x xs (sort_by lt xs) (sort_by-Begins xs)
