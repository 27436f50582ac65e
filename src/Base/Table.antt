-- ===== src/Base/Table.antt =====
-- A database table as the list of its rows, oldest first, and the statements that the code runs.
use usdt_settlement_corridor.Base.{
  ◌≡◌, refl, sym, subst, ◌&&◌, Bool, true, false, List, [], ◌∷◌, ◌++◌, Option, none, some, arith,
  if◌then◌else◌, All, Bool-cases, inl, inr,
}

module _ {ℓ} {A : Type ℓ} where
  -- SELECT … WHERE p, at most one row.
  unfoldable pub find_by : (A → Bool) → List A → Option A
  find_by p [] = none
  find_by p (x ∷ xs) = if p x then some x else find_by p xs

  unfoldable pub exists_by : (A → Bool) → List A → Bool
  exists_by p [] = false
  exists_by p (x ∷ xs) = if p x then true else exists_by p xs

  -- SELECT … WHERE p, every row in order.
  unfoldable pub select : (A → Bool) → List A → List A
  select p [] = []
  select p (x ∷ xs) = if p x then x ∷ select p xs else select p xs

  -- UPDATE … SET f WHERE p.
  unfoldable pub update_by : (A → Bool) → (A → A) → List A → List A
  update_by p f [] = []
  update_by p f (x ∷ xs) = (if p x then f x else x) ∷ update_by p f xs

  pub find_by-true : (p : A → Bool) (xs : List A) (a : A) → find_by p xs ≡ some a → p a ≡ true
  unfolding find_by
  find_by-true p [] a h = cc
  find_by-true p (x ∷ xs) a h = ground (arith, find_by-true p xs a)

  -- A row that is found has what every row has.
  pub find_by_All {κ} :
      (p : A → Bool) (P : A → Type κ) (xs : List A) (a : A) → All P xs → find_by p xs ≡ some a → P a
  unfolding find_by
  find_by_All p P [] a h e = cc
  find_by_All p P (x ∷ xs) a h e = elim (Bool-cases (p x)) [
    | inl t ↦ subst P (ground arith) h.0
    | inr f ↦ find_by_All p P xs a h.1 (ground arith)
  ]

  -- A later row is seen only if no earlier one fits.
  pub find_by-append :
      (p : A → Bool) (xs ys : List A)
      → find_by p (xs ++ ys) ≡ elim (find_by p xs) [ some a ↦ some a | none ↦ find_by p ys ]
  unfolding find_by
  find_by-append p [] ys = refl
  find_by-append p (x ∷ xs) ys = ground (arith, find_by-append p xs ys)

  pub exists_by-find_by :
      (p : A → Bool) (xs : List A) → exists_by p xs ≡ false → find_by p xs ≡ none
  unfolding find_by exists_by
  exists_by-find_by p [] h = refl
  exists_by-find_by p (x ∷ xs) h = ground (arith, exists_by-find_by p xs)

  pub select-append :
      (p : A → Bool) (xs ys : List A) → select p (xs ++ ys) ≡ select p xs ++ select p ys
  unfolding select
  select-append p [] ys = refl
  select-append p (x ∷ xs) ys = ground (arith, select-append p xs ys)

  pub select-All-false : (p : A → Bool) (xs : List A) → All (λ x. p x ≡ false) xs → select p xs ≡ []
  unfolding select
  select-All-false p [] h = refl
  select-All-false p (x ∷ xs) h = ground (arith, select-All-false p xs h.1)

  pub select-All-true : (p : A → Bool) (xs : List A) → All (λ x. p x ≡ true) xs → select p xs ≡ xs
  unfolding select
  select-All-true p [] h = refl
  select-All-true p (x ∷ xs) h = ground (arith, select-All-true p xs h.1)

  pub find_by-append_some :
      (p : A → Bool) (xs ys : List A) (a : A)
      → find_by p xs ≡ some a
      → find_by p (xs ++ ys) ≡ some a
  find_by-append_some p xs ys a e = rw (find_by-append p xs ys, e)

  pub find_by-append_none :
      (p : A → Bool) (xs : List A) (a : A)
      → find_by p xs ≡ none
      → p a ≡ true
      → find_by p (xs ++ (a ∷ [])) ≡ some a
  unfolding find_by
  find_by-append_none p [] a e h = ground arith
  find_by-append_none p (x ∷ xs) a e h = ground (arith, find_by-append_none p xs a)

  pub find_by-none-All :
      (p : A → Bool) (xs : List A) → All (λ x. p x ≡ false) xs → find_by p xs ≡ none
  unfolding find_by
  find_by-none-All p [] h = refl
  find_by-none-All p (x ∷ xs) h = ground (arith, find_by-none-All p xs h.1)

  pub exists_by-find_by-some :
      (p : A → Bool) (xs : List A) (a : A) → find_by p xs ≡ some a → exists_by p xs ≡ true
  unfolding find_by exists_by
  exists_by-find_by-some p [] a h = cc
  exists_by-find_by-some p (x ∷ xs) a h = ground (arith, exists_by-find_by-some p xs a)

  pub exists_by-append_last :
      (p : A → Bool) (xs : List A) (a : A) → p a ≡ true → exists_by p (xs ++ (a ∷ [])) ≡ true
  unfolding exists_by
  exists_by-append_last p [] a h = ground arith
  exists_by-append_last p (x ∷ xs) a h = ground (arith, exists_by-append_last p xs a h)

  -- The first row that fits is also the first that fits and has more.
  pub find_by_both :
      (p q : A → Bool) (xs : List A) (a : A)
      → find_by p xs ≡ some a
      → q a ≡ true
      → find_by (λ x. p x && q x) xs ≡ some a
  unfolding find_by
  find_by_both p q [] a e h = cc
  find_by_both p q (x ∷ xs) a e h = elim (Bool-cases (p x)) [
    | inl t ↦
        let same : x ≡ a = first x a (ground arith) in
        ground (arith, subst (λ y. q y ≡ true) (sym same) h, same)
    | inr f ↦ ground (arith, find_by_both p q xs a (ground arith) h)
  ]
    where
      first : (x a : A) → some x ≡ some a → x ≡ a
      first x a e = cc

module _ {ℓ κ} {A : Type ℓ} (P : A → Type κ) where
  pub select-All : (p : A → Bool) (xs : List A) → All P xs → All P (select p xs)
  unfolding select
  select-All p [] h = tt
  select-All p (x ∷ xs) h = elim (Bool-cases (p x)) [
    | inl t ↦ rw (t, select) (h.0, select-All p xs h.1)
    | inr f ↦ rw (f, select) (select-All p xs h.1)
  ]

  -- What every row that is read has, every row has that fits.
  pub All-select :
      (p : A → Bool) (xs : List A) → All P (select p xs) → All (λ x. p x ≡ true → P x) xs
  unfolding select
  All-select p [] h = tt
  All-select p (x ∷ xs) h = elim (Bool-cases (p x)) [
    | inl t ↦ let h' : All P (x ∷ select p xs) = rw t at h in (λ u. h'.0, All-select p xs h'.1)
    | inr f ↦
        let h' : All P (select p xs) = rw f at h in
        (λ u. absurd (false_true (p x) f u), All-select p xs h')
  ]
    where
      false_true : (b : Bool) → b ≡ false → b ≡ true → ⊥
      false_true b f u = cc

  pub select-All-fits :
      (p : A → Bool) (xs : List A) → All (λ x. p x ≡ true → P x) xs → All P (select p xs)
  unfolding select
  select-All-fits p [] h = tt
  select-All-fits p (x ∷ xs) h = elim (Bool-cases (p x)) [
    | inl t ↦ rw (t, select) (h.0 t, select-All-fits p xs h.1)
    | inr f ↦ rw (f, select) (select-All-fits p xs h.1)
  ]

module _ {ℓ} {A : Type ℓ} (p : A → Bool) (f : A → A) where
  pub find_by-update_by :
      (q : A → Bool) (xs : List A) (a : A)
      → ((x : A) → q (f x) ≡ q x)
      → find_by q xs ≡ some a
      → find_by q (update_by p f xs) ≡ some (if p a then f a else a)
  unfolding find_by update_by
  find_by-update_by q [] a h e = cc
  find_by-update_by q (x ∷ xs) a h e = ground (arith, h x, find_by-update_by q xs a h)

  pub update_by-All {κ μ} :
      (P : A → Type κ) (Q : A → Type μ) (xs : List A)
      → ((x : A) → p x ≡ true → P x → Q (f x))
      → ((x : A) → p x ≡ false → P x → Q x)
      → All P xs
      → All Q (update_by p f xs)
  unfolding update_by
  update_by-All P Q [] hit miss h = tt
  update_by-All P Q (x ∷ xs) hit miss h = (
    elim (Bool-cases (p x)) [ inl t ↦ rw t (hit x t h.0) | inr n ↦ rw n (miss x n h.0) ],
    update_by-All P Q xs hit miss h.1,
  )

  -- An update does not touch a row that it does not fit.
  pub find_by-update_by_other :
      (q : A → Bool) (xs : List A)
      → ((x : A) → q (f x) ≡ q x)
      → ((x : A) → q x ≡ true → p x ≡ false)
      → find_by q (update_by p f xs) ≡ find_by q xs
  unfolding find_by update_by
  find_by-update_by_other q [] h g = refl
  find_by-update_by_other q (x ∷ xs) h g = elim (Bool-cases (q x)) [
    | inl t ↦ ground (arith, g x t)
    | inr n ↦ ground (arith, h x, find_by-update_by_other q xs h g)
  ]

module _ {ℓ} {A : Type ℓ} where
  -- What exists still does when rows are added.
  pub exists_by-append_some :
      (p : A → Bool) (xs ys : List A) → exists_by p xs ≡ true → exists_by p (xs ++ ys) ≡ true
  unfolding exists_by
  exists_by-append_some p [] ys h = cc
  exists_by-append_some p (x ∷ xs) ys h = ground (arith, exists_by-append_some p xs ys)

  pub exists_by-append_right :
      (p : A → Bool) (xs ys : List A) → exists_by p ys ≡ true → exists_by p (xs ++ ys) ≡ true
  unfolding exists_by
  exists_by-append_right p [] ys h = h
  exists_by-append_right p (x ∷ xs) ys h = ground (arith, exists_by-append_right p xs ys h)
