-- ===== src/Ledger/Orders/Halts.antt =====
-- How a halt ends (ledger/internal/halt): only an operator, with a note, clears it; and how stale the
-- cached flag can be (ledger/internal/halt/cache.go).
use mathlib.Core.List.{append-nil, append_assoc}
use usdt_settlement_corridor.Base.{
  ℕ, ◌+◌, ◌-◌, ◌<◌, ◌≢◌, ltb, Bool-cases, ◌≡◌, refl, sym, ap, subst, ◌∙◌, Bool, true, false, ◌&&◌,
  ◌||◌, not, List, [], ◌∷◌, ◌++◌, arith, ◌⊎◌, inl, inr,
}
use usdt_settlement_corridor.Base.Text.{Text, is_empty}
use usdt_settlement_corridor.Base.Table.{exists_by, exists_by-append_some, exists_by-append_right}
use usdt_settlement_corridor.Ledger.Error.{ok, fail_if_ok}
use usdt_settlement_corridor.Ledger.Database.{HaltLogRow, set_row, clear_row, SystemState, Store}
use usdt_settlement_corridor.Ledger.Journal.Entry.{HashPayload}
use usdt_settlement_corridor.Ledger.Halt.{
  reason_balance_drift, set_halt, clear_halt, is_halted, Cache, max_cache_age, cached_is_halted,
}
use usdt_settlement_corridor.Ledger.Recon.{snapshot_actor}
use usdt_settlement_corridor.Ledger.Recon.Drift.{ingest_snapshot_rest}
use usdt_settlement_corridor.Ledger.Orders.Outcomes.{
  Transitioned, by_move, by_answer, transition-Transitioned,
}
use usdt_settlement_corridor.Ledger.Orders.Invariant.{create_order_inv}
use usdt_settlement_corridor.Ledger.Orders.History.{
  Step, opened, posted, reversed, ordered, stepped, halted, cleared, snapshotted, Steps, done, more,
}

-- While a halt stands, the cached flag may still say no for less than a second after the last read,
-- and only then; a read that is older is refreshed and tells the truth.
pub cached_is_halted_stale :
    (s : Store) (now : ℕ) (c : Cache)
    → (cached_is_halted s now c).0 ≢ is_halted s
    → now < c.updated_at + max_cache_age
unfolding cached_is_halted
cached_is_halted_stale s now c h = elim (Bool-cases (ltb (now - c.updated_at) max_cache_age)) [
  | inl young ↦ ground arith
  | inr old ↦ absurd (h (rw old refl))
]

-- A row of the log by which someone cleared a halt, with a note.
abbrev pub by_operator : HaltLogRow → Bool
by_operator (set_row reason actor) = false
by_operator (clear_row note actor) = not (is_empty actor) && not (is_empty note)

-- The log has grown, and a halt still stands unless a row by an operator was added.
abbrev pub HaltKept : Store → Store → Type 0
HaltKept s s' =
    (rows : List HaltLogRow) × (s'.halt_log ≡ s.halt_log ++ rows)
    × ((is_halted s ≡ true → is_halted s' ≡ true) ⊎ (exists_by by_operator rows ≡ true))

untouched : (s s' : Store) → s'.system ≡ s.system → s'.halt_log ≡ s.halt_log → HaltKept s s'
unfolding is_halted
untouched s s' system log =
    ([], log ∙ sym (append-nil s.halt_log), inl (λ h. ap SystemState.halted system ∙ h))

HaltKept-trans : (a b c : Store) → HaltKept a b → HaltKept b c → HaltKept a c
HaltKept-trans a b c (xs, ex, hx) (ys, ey, hy) =
    (xs ++ ys, ey ∙ ap (λ t. t ++ ys) ex ∙ append_assoc a.halt_log xs ys, joined hx hy)
  where
    joined :
        (is_halted a ≡ true → is_halted b ≡ true) ⊎ (exists_by by_operator xs ≡ true)
        → (is_halted b ≡ true → is_halted c ≡ true) ⊎ (exists_by by_operator ys ≡ true)
        → (is_halted a ≡ true → is_halted c ≡ true) ⊎ (exists_by by_operator (xs ++ ys) ≡ true)
    joined (inl f) (inl g) = inl (λ h. g (f h))
    joined (inr e) q = inr (exists_by-append_some by_operator xs ys e)
    joined (inl f) (inr e) = inr (exists_by-append_right by_operator xs ys e)

set_halt-HaltKept : (reason actor : Text) (s : Store) → HaltKept s (set_halt reason actor s)
unfolding set_halt is_halted
set_halt-HaltKept reason actor s = (set_row reason actor ∷ [], refl, inl (λ h. refl))

clear_halt-HaltKept :
    (actor note : Text) (s s' : Store) → clear_halt actor note s ≡ ok s' → HaltKept s s'
unfolding clear_halt exists_by
clear_halt-HaltKept actor note s s' h =
    let (given, made) = fail_if_ok (is_empty actor || is_empty note) _ _ h in
    (clear_row note actor ∷ [], ground arith, inr (ground (arith, given)))

module _ (digest : HashPayload → Text) where
  pub Step-HaltKept : (s s' : Store) → Step digest s s' → HaltKept s s'
  Step-HaltKept s s' (opened code t asset a b e) = untouched s s' refl refl
  Step-HaltKept s s' (posted req e b f k) = untouched s s' refl refl
  Step-HaltKept s s' (reversed j actor reason at e b k) = untouched s s' refl refl
  Step-HaltKept s s' (ordered p n s'' k) =
      let after = (create_order_inv p s s' n k).1 in
      untouched s s' (ap Store.system after) (ap Store.halt_log after)
  Step-HaltKept s s' (stepped fast j to_state expected p n s'' f k) =
      went (transition-Transitioned digest fast s j to_state expected p n s' k)
    where
      went : Transitioned digest fast s j to_state expected p n s' → HaltKept s s'
      went (by_answer a) = untouched s s' (ap Store.system a.same) (ap Store.halt_log a.same)
      went (by_move m) = untouched s s' (ap Store.system m.after) (ap Store.halt_log m.after)
  Step-HaltKept s s' (halted reason actor) = set_halt-HaltKept reason actor s
  Step-HaltKept s s' (cleared actor note s'' k) = clear_halt-HaltKept actor note s s' k
  Step-HaltKept s s' (snapshotted cfg p r s'' k) =
      let (xs, made) = ingest_snapshot_rest cfg p s r s' k in
      let aside = untouched s (record s { snapshots = xs }) refl refl in
      elim made [
        | inl e ↦ subst (HaltKept s) (sym e) aside
        | inr e ↦ subst (HaltKept s) (sym e) (
            HaltKept-trans s (record s { snapshots = xs })
              (set_halt reason_balance_drift snapshot_actor (record s { snapshots = xs })) aside
              (set_halt-HaltKept reason_balance_drift snapshot_actor (record s { snapshots = xs })))
      ]

  Steps-HaltKept : (s s' : Store) → Steps digest s s' → HaltKept s s'
  Steps-HaltKept s s' done = untouched s s' refl refl
  Steps-HaltKept s s' (more s₁ s₂ before last) =
      HaltKept-trans s s₁ s' (Steps-HaltKept s s₁ before) (Step-HaltKept s₁ s' last)

  -- A halt stands through any committed transactions, snapshots that are ingested included, until an operator clears it: if the ledger was
  -- halted and is not halted later, the rows added to the log in between hold one by which a named
  -- actor cleared it with a note.
  pub halt_until_cleared :
      (s s' : Store)
      → Steps digest s s'
      → is_halted s ≡ true
      → is_halted s' ≡ false
      → (rows : List HaltLogRow) × (s'.halt_log ≡ s.halt_log ++ rows)
        × (exists_by by_operator rows ≡ true)
  halt_until_cleared s s' steps was now = found (Steps-HaltKept s s' steps)
    where
      found :
          HaltKept s s'
          → (rows : List HaltLogRow) × (s'.halt_log ≡ s.halt_log ++ rows)
            × (exists_by by_operator rows ≡ true)
      found (rows, log, inr e) = (rows, log, e)
      found (rows, log, inl f) = absurd (clash (is_halted s') (f was) now)
        where
          clash : (b : Bool) → b ≡ true → b ≡ false → ⊥
          clash b p q = cc
