-- ===== src/Watcher/Pool/Names.antt =====
-- The pools that NewPool builds: a name stands for one provider, and one provider at least must agree.
use usdt_settlement_corridor.Base.{
  ℕ, zero, suc, ◌≤◌, ◌≡◌, subst, ◌⊎◌, inl, inr, false, List, [], ◌∷◌, none, some, arith, ltb,
  length, Bool-cases, Option-cases, All,
}
use usdt_settlement_corridor.Base.Int.{ℤ, pos, negsuc}
use usdt_settlement_corridor.Base.Text.{text_eq_refl}
use usdt_settlement_corridor.Base.Table.{find_by, exists_by}
use usdt_settlement_corridor.Watcher.Pool.{
  Provider, Pool, PoolConfig, PoolError, too_few_providers, agreement_unreachable, called,
  check_providers, positive_or, new_pool,
}

-- A provider's name finds it.
unfoldable pub IsNamed : List Provider → Type 0
IsNamed ps = All (λ q. find_by (called q.name) ps ≡ some q) ps

unfoldable pub IsPool : Pool → Type 0
IsPool p = (1 ≤ p.min_agreement) × IsNamed p.providers

IsFresh : List Provider → List Provider → Type 0
IsFresh seen ps = All (λ q. exists_by (called q.name) seen ≡ false) ps

IsFresh-tail : (p : Provider) (seen ps : List Provider) → IsFresh (p ∷ seen) ps → IsFresh seen ps
unfolding IsFresh exists_by
IsFresh-tail p seen [] h = tt
IsFresh-tail p seen (q ∷ ps) h = (ground (arith, h.0), IsFresh-tail p seen ps h.1)

found_after :
    (p : Provider) (seen qs ps : List Provider)
    → IsFresh (p ∷ seen) qs
    → All (λ q. find_by (called q.name) ps ≡ some q) qs
    → All (λ q. find_by (called q.name) (p ∷ ps) ≡ some q) qs
unfolding IsFresh exists_by find_by
found_after p seen [] ps f h = tt
found_after p seen (q ∷ qs) ps f h = (ground (arith, f.0, h.0), found_after p seen qs ps f.1 h.1)

find_self : (p : Provider) (ps : List Provider) → find_by (called p.name) (p ∷ ps) ≡ some p
unfolding find_by
find_self p ps = ground (arith, text_eq_refl p.name)

check_providers-IsNamed :
    (seen ps : List Provider) → check_providers seen ps ≡ none → IsFresh seen ps × IsNamed ps
unfolding check_providers IsFresh IsNamed
check_providers-IsNamed seen [] e = (tt, tt)
check_providers-IsNamed seen (p ∷ ps) e =
    let rest : IsFresh (p ∷ seen) ps × IsNamed ps =
      check_providers-IsNamed (p ∷ seen) ps (ground arith) in
    (
      (ground arith, IsFresh-tail p seen ps rest.0),
      (find_self p ps, found_after p seen ps ps rest.0 rest.1),
    )

positive_or_pos : (d : ℕ) (z : ℤ) → 1 ≤ d → 1 ≤ positive_or d z
unfolding positive_or
positive_or_pos d (pos zero) h = h
positive_or_pos d (pos (suc n)) h = omega arith
positive_or_pos d (negsuc n) h = h

inr_inj : (p q : Pool) → ◌≡◌ {A = PoolError ⊎ Pool} (inr p) (inr q) → p ≡ q
inr_inj p q e = cc

not_inr : (a : PoolError) (b : Pool) → ◌≡◌ {A = PoolError ⊎ Pool} (inl a) (inr b) → ⊥
not_inr a b e = cc

-- A pool that is built finds each provider by its name, and at least one must agree.
pub new_pool-IsPool :
    (ps : List Provider) (cfg : PoolConfig) (p : Pool) → new_pool ps cfg ≡ inr p → IsPool p
unfolding new_pool IsPool
new_pool-IsPool ps cfg p e = elim (Bool-cases (ltb (length ps) 2)) [
  | inl few ↦ absurd (not_inr too_few_providers p (rw few at e))
  | inr enough ↦ elim (Option-cases (check_providers [] ps)) [
    | inr (err, c) ↦ absurd (not_inr err p (rw (enough, c) at e))
    | inl c ↦ elim (Bool-cases (ltb (length ps) (positive_or 2 cfg.min_agreement))) [
      | inl more ↦ absurd (not_inr agreement_unreachable p (rw (enough, c, more) at e))
      | inr reachable ↦
          subst IsPool (inr_inj _ p (rw (enough, c, reachable) at e))
            (positive_or_pos 2 cfg.min_agreement (omega arith), (check_providers-IsNamed [] ps c).1)
    ]
  ]
]
