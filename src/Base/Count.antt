-- ===== src/Base/Count.antt =====
-- How many rows of a table fit a test.
use usdt_settlement_corridor.Base.{
  ℕ, suc, ◌+◌, ◌≤◌, ◌<◌, ◌≡◌, refl, subst, Bool, true, false, ◌&&◌, List, [], ◌∷◌, ◌++◌, none, some,
  arith, if◌then◌else◌, Bool-cases, inl, inr, length, map, All,
}
use usdt_settlement_corridor.Base.Sort.{insert_by, sort_by}
use usdt_settlement_corridor.Base.Table.{find_by, exists_by, select, update_by}

module _ {ℓ} {A : Type ℓ} where
  unfoldable pub count_by : (A → Bool) → List A → ℕ
  count_by p [] = 0
  count_by p (x ∷ xs) = let rest = count_by p xs in if p x then suc rest else rest

  pub count_by-nil : (p : A → Bool) → count_by p [] ≡ 0
  unfolding count_by
  count_by-nil p = refl

  pub count_by-cons :
      (p : A → Bool) (x : A) (xs : List A)
      → count_by p (x ∷ xs) ≡ (if p x then 1 else 0) + count_by p xs
  unfolding count_by
  count_by-cons p x xs = ground arith

  pub count_by-append :
      (p : A → Bool) (xs ys : List A) → count_by p (xs ++ ys) ≡ count_by p xs + count_by p ys
  unfolding count_by
  count_by-append p [] ys = omega arith
  count_by-append p (x ∷ xs) ys = ground (arith, count_by-append p xs ys)

  pub count_by-last :
      (p : A → Bool) (xs : List A) (a : A)
      → count_by p (xs ++ (a ∷ [])) ≡ count_by p xs + (if p a then 1 else 0)
  unfolding count_by
  count_by-last p [] a = ground arith
  count_by-last p (x ∷ xs) a = ground (arith, count_by-last p xs a)

  pub count_by-select :
      (p q : A → Bool) (xs : List A) → count_by p (select q xs) ≡ count_by (λ x. p x && q x) xs
  unfolding count_by select
  count_by-select p q [] = refl
  count_by-select p q (x ∷ xs) = ground (arith, count_by-select p q xs)

  pub length-select : (p : A → Bool) (xs : List A) → length (select p xs) ≡ count_by p xs
  unfolding count_by select
  length-select p [] = refl
  length-select p (x ∷ xs) = ground (arith, length-select p xs)

  pub count_by_ext :
      (p q : A → Bool) (xs : List A) → ((x : A) → p x ≡ q x) → count_by p xs ≡ count_by q xs
  unfolding count_by
  count_by_ext p q [] h = refl
  count_by_ext p q (x ∷ xs) h = ground (arith, h x, count_by_ext p q xs h)

  pub count_by_none : (p : A → Bool) (xs : List A) → ((x : A) → p x ≡ false) → count_by p xs ≡ 0
  unfolding count_by
  count_by_none p [] h = refl
  count_by_none p (x ∷ xs) h = ground (arith, h x, count_by_none p xs h)

  pub count_by_le :
      (p q : A → Bool) (xs : List A)
      → ((x : A) → p x ≡ true → q x ≡ true)
      → count_by p xs ≤ count_by q xs
  unfolding count_by
  count_by_le p q [] h = omega arith
  count_by_le p q (x ∷ xs) h = ground (arith, h x, count_by_le p q xs h)

  pub count_by-All_ext :
      (p q : A → Bool) (xs : List A) → All (λ x. p x ≡ q x) xs → count_by p xs ≡ count_by q xs
  unfolding count_by
  count_by-All_ext p q [] h = refl
  count_by-All_ext p q (x ∷ xs) h = ground (arith, h.0, count_by-All_ext p q xs h.1)

  pub count_by-All_le :
      (p q : A → Bool) (xs : List A)
      → All (λ x. p x ≡ true → q x ≡ true) xs
      → count_by p xs ≤ count_by q xs
  unfolding count_by
  count_by-All_le p q [] h = omega arith
  count_by-All_le p q (x ∷ xs) h = ground (arith, h.0, count_by-All_le p q xs h.1)

  pub exists_by-count_by : (p : A → Bool) (xs : List A) → exists_by p xs ≡ false → count_by p xs ≡ 0
  unfolding count_by exists_by
  exists_by-count_by p [] h = refl
  exists_by-count_by p (x ∷ xs) h = ground (arith, exists_by-count_by p xs)

  pub exists_by-count_by_pos :
      (p : A → Bool) (xs : List A) → exists_by p xs ≡ true → 0 < count_by p xs
  unfolding count_by exists_by
  exists_by-count_by_pos p [] h = cc
  exists_by-count_by_pos p (x ∷ xs) h = ground (arith, exists_by-count_by_pos p xs)

  pub find_by-count_by :
      (p : A → Bool) (xs : List A) (a : A) → find_by p xs ≡ some a → 0 < count_by p xs
  unfolding count_by find_by
  find_by-count_by p [] a h = cc
  find_by-count_by p (x ∷ xs) a h = ground (arith, find_by-count_by p xs a)

  -- An update that a test does not see does not change what it counts.
  pub count_by-update_by :
      (p hit : A → Bool) (f : A → A) (xs : List A)
      → ((x : A) → p (f x) ≡ p x)
      → count_by p (update_by hit f xs) ≡ count_by p xs
  unfolding count_by update_by
  count_by-update_by p hit f [] h = refl
  count_by-update_by p hit f (x ∷ xs) h = ground (arith, h x, count_by-update_by p hit f xs h)

  pub count_by-update_by_on :
      (p q hit : A → Bool) (f : A → A) (xs : List A)
      → ((x : A) → (if hit x then p (f x) else p x) ≡ q x)
      → count_by p (update_by hit f xs) ≡ count_by q xs
  unfolding count_by update_by
  count_by-update_by_on p q hit f [] h = refl
  count_by-update_by_on p q hit f (x ∷ xs) h =
      ground (arith, h x, count_by-update_by_on p q hit f xs h)

  -- An update that fits no row changes none.
  pub update_by-none :
      (p : A → Bool) (f : A → A) (xs : List A) → find_by p xs ≡ none → update_by p f xs ≡ xs
  unfolding find_by update_by
  update_by-none p f [] h = refl
  update_by-none p f (x ∷ xs) h = ground (arith, update_by-none p f xs)

  -- Where a test fits one row at most, a stronger test fits that row or none.
  pub count_by_unique :
      (p q : A → Bool) (xs : List A) (a : A)
      → count_by p xs ≤ 1
      → find_by p xs ≡ some a
      → ((x : A) → q x ≡ true → p x ≡ true)
      → count_by q xs ≡ (if q a then 1 else 0)
  unfolding count_by find_by
  count_by_unique p q [] a few e h = cc
  count_by_unique p q (x ∷ xs) a few e h = elim (Bool-cases (p x)) [
    | inl t ↦
        let rest : count_by q xs ≤ count_by p xs = count_by_le q p xs h in
        let same : x ≡ a = first x a (ground arith) in
        subst (λ y. count_by q (x ∷ xs) ≡ (if q y then 1 else 0)) same (ground (arith, rest))
    | inr f ↦ ground (arith, h x, count_by_unique p q xs a (ground arith) (ground arith) h)
  ]
    where
      first : (x a : A) → some x ≡ some a → x ≡ a
      first x a e = cc

pub count_by-map {ℓ κ} :
    {A : Type ℓ} {B : Type κ} (f : A → B) (p : B → Bool) (xs : List A)
    → count_by p (map f xs) ≡ count_by (λ x. p (f x)) xs
unfolding count_by
count_by-map f p [] = refl
count_by-map f p (x ∷ xs) = ground (arith, count_by-map f p xs)

count_by-insert_by {ℓ} :
    {A : Type ℓ} (p : A → Bool) (lt : A → A → Bool) (x : A) (xs : List A)
    → count_by p (insert_by lt x xs) ≡ (if p x then 1 else 0) + count_by p xs
unfolding count_by insert_by
count_by-insert_by p lt x [] = ground arith
count_by-insert_by p lt x (y ∷ xs) = ground (arith, count_by-insert_by p lt x xs)

-- Sorting loses and adds nothing.
pub count_by-sort_by {ℓ} :
    {A : Type ℓ} (p : A → Bool) (lt : A → A → Bool) (xs : List A)
    → count_by p (sort_by lt xs) ≡ count_by p xs
unfolding count_by sort_by
count_by-sort_by p lt [] = refl
count_by-sort_by p lt (x ∷ xs) =
    ground (arith, count_by-insert_by p lt x (sort_by lt xs), count_by-sort_by p lt xs)
