-- ===== src/Watcher/Pool/Groups.antt =====
-- The map of the hashes that providers report, and the contest between its entries.
use usdt_settlement_corridor.Base.{
  ℕ, suc, ◌+◌, ◌<◌, ◌≡◌, refl, inl, inr, true, false, List, [], ◌∷◌, ◌++◌, arith, if◌then◌else◌,
  length, Bool-cases,
}
use usdt_settlement_corridor.Base.Text.{Text, text_eq, text_eq_refl, eq_of_text_eq}
use usdt_settlement_corridor.Watcher.Pool.Round.{Group, add_name}

-- How many names stand under a hash.
unfoldable pub backers : Text → List Group → ℕ
backers h [] = 0
backers h (g ∷ gs) = (if text_eq g.hash h then length g.names else 0) + backers h gs

-- Each hash stands once, with a name at least.
unfoldable pub IsGrouped : List Group → Type 0
IsGrouped [] = Unit
IsGrouped (g ∷ gs) = (0 < length g.names) × (backers g.hash gs ≡ 0) × IsGrouped gs

pub backers-nil : (h : Text) → backers h [] ≡ 0
unfolding backers
backers-nil h = refl

pub IsGrouped-nil : IsGrouped []
unfolding IsGrouped
IsGrouped-nil = tt

length_last {ℓ} : {A : Type ℓ} (xs : List A) (a : A) → length (xs ++ (a ∷ [])) ≡ suc (length xs)
length_last [] a = refl
length_last (x ∷ xs) a = ground (arith, length_last xs a)

text_eq_other : (s t u : Text) → text_eq s t ≡ true → text_eq s u ≡ text_eq t u
text_eq_other s t u e = cc (eq_of_text_eq s t e)

pub backers-add_name :
    (h n y : Text) (gs : List Group)
    → backers y (add_name h n gs) ≡ backers y gs + (if text_eq h y then 1 else 0)
unfolding backers add_name
backers-add_name h n y [] = ground arith
backers-add_name h n y (g ∷ gs) = elim (Bool-cases (text_eq g.hash h)) [
  | inl t ↦ ground (arith, text_eq_other g.hash h y t, length_last g.names n)
  | inr f ↦ ground (arith, backers-add_name h n y gs)
]

pub text_eq_sym_false : (s t : Text) → text_eq s t ≡ false → text_eq t s ≡ false
text_eq_sym_false s t f = elim (Bool-cases (text_eq t s)) [
  | inl e ↦ cc (eq_of_text_eq t s e, text_eq_refl s, f)
  | inr g ↦ g
]

pub add_name-IsGrouped : (h n : Text) (gs : List Group) → IsGrouped gs → IsGrouped (add_name h n gs)
unfolding IsGrouped add_name backers
add_name-IsGrouped h n [] k = (omega arith, refl, tt)
add_name-IsGrouped h n (g ∷ gs) k = elim (Bool-cases (text_eq g.hash h)) [
  | inl t ↦ rw t (ground (arith, length_last g.names n), k.1, k.2)
  | inr f ↦ rw f (
    k.0,
    ground (arith, backers-add_name h n g.hash gs, text_eq_sym_false g.hash h f, k.1),
    add_name-IsGrouped h n gs k.2,
  )
]
