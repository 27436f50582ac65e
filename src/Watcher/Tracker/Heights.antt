-- ===== src/Watcher/Tracker/Heights.antt =====
-- The grouping of candidates by height: each candidate is met exactly once.
use usdt_settlement_corridor.Base.{
  ℕ, ◌+◌, ◌≤◌, ◌≡◌, refl, sym, ap, Bool, true, ◌&&◌, List, [], ◌∷◌, arith, ◌==◌, ==_iff,
  if◌then◌else◌, Bool-cases, inl, inr, All, All-map,
}
use usdt_settlement_corridor.Base.Table.{select}
use usdt_settlement_corridor.Base.Count.{count_by, exists_by-count_by, exists_by-count_by_pos}
use usdt_settlement_corridor.Watcher.Tracker.{Candidate, heights, at_height}

heights_le : (n : ℕ) (cs : List Candidate) → count_by (λ h. h == n) (heights cs) ≤ 1
unfolding heights count_by
heights_le n [] = omega arith
heights_le n (c ∷ cs) = ground (
  arith,
  heights_le n cs,
  ==_iff c.log.height n,
  exists_by-count_by (λ h. h == c.log.height) (heights cs),
)

heights_grow :
    (n : ℕ) (c : Candidate) (cs : List Candidate)
    → count_by (λ h. h == n) (heights cs) ≤ count_by (λ h. h == n) (heights (c ∷ cs))
unfolding heights count_by
heights_grow n c cs = ground arith

heights_first :
    (c : Candidate) (cs : List Candidate) → 1 ≤ count_by (λ h. h == c.log.height) (heights (c ∷ cs))
unfolding heights count_by
heights_first c cs = ground (arith, exists_by-count_by_pos (λ h. h == c.log.height) (heights cs))

-- The height of each candidate is visited once.
pub heights_once :
    (cs : List Candidate) → All (λ c. count_by (λ h. h == c.log.height) (heights cs) ≡ 1) cs
heights_once [] = tt
heights_once (c ∷ cs) = (
  omega (arith, heights_first c cs, heights_le c.log.height (c ∷ cs)),
  All-map (λ d. count_by (λ h. h == d.log.height) (heights cs) ≡ 1)
      (λ d. count_by (λ h. h == d.log.height) (heights (c ∷ cs)) ≡ 1) cs
      (λ d e. omega (arith, e, heights_grow d.log.height c cs, heights_le d.log.height (c ∷ cs)))
      (heights_once cs),
)

-- The candidates that fit, added up over a list of heights.
unfoldable pub sum_at : (ℕ → Candidate → Bool) → List Candidate → List ℕ → ℕ
sum_at q cs [] = 0
sum_at q cs (h ∷ hs) = count_by (q h) (at_height h cs) + sum_at q cs hs

one_height :
    (q : ℕ → Candidate → Bool) (c : Candidate) (cs : List Candidate) (h : ℕ)
    → count_by (q h) (at_height h (c ∷ cs))
      ≡ (if q c.log.height c && h == c.log.height then 1 else 0) + count_by (q h) (at_height h cs)
unfolding count_by select
one_height q c cs h = elim (Bool-cases (h == c.log.height)) [
  | inr f ↦ ground arith
  | inl t ↦ ground (
    arith,
    same_height h c.log.height ((==_iff c.log.height h).1 (sym ((==_iff h c.log.height).0 t))),
  )
]
  where
    same_height : (m n : ℕ) → (n == m) ≡ true → q m c ≡ q n c
    same_height m n e = ap (λ i. q i c) (sym ((==_iff n m).0 e))

sum_at-cons :
    (q : ℕ → Candidate → Bool) (c : Candidate) (cs : List Candidate) (hs : List ℕ)
    → sum_at q (c ∷ cs) hs
      ≡ (if q c.log.height c then count_by (λ h. h == c.log.height) hs else 0) + sum_at q cs hs
unfolding sum_at count_by
sum_at-cons q c cs [] = ground arith
sum_at-cons q c cs (h ∷ hs) = ground (arith, sum_at-cons q c cs hs, one_height q c cs h)

sum_at-nil : (q : ℕ → Candidate → Bool) (hs : List ℕ) → sum_at q [] hs ≡ 0
unfolding sum_at count_by select
sum_at-nil q [] = refl
sum_at-nil q (h ∷ hs) = ground (arith, sum_at-nil q hs)

sum_at-count_by :
    (q : ℕ → Candidate → Bool) (cs : List Candidate) (hs : List ℕ)
    → All (λ c. count_by (λ h. h == c.log.height) hs ≡ 1) cs
    → sum_at q cs hs ≡ count_by (λ c. q c.log.height c) cs
unfolding count_by
sum_at-count_by q [] hs each = sum_at-nil q hs
sum_at-count_by q (c ∷ cs) hs each =
    ground (arith, sum_at-cons q c cs hs, each.0, sum_at-count_by q cs hs each.1)

-- Going through the groups by height is going through the candidates.
pub sum_at-heights :
    (q : ℕ → Candidate → Bool) (cs : List Candidate)
    → sum_at q cs (heights cs) ≡ count_by (λ c. q c.log.height c) cs
sum_at-heights q cs = sum_at-count_by q cs (heights cs) (heights_once cs)
