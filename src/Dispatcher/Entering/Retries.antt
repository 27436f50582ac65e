-- ===== src/Dispatcher/Entering/Retries.antt =====
-- The loop of EnterDispatching and of settling: it ends once the ledger is not halted any more.
use usdt_settlement_corridor.Base.{
  ℕ, ◌+◌, ◌≤◌, ◌≡◌, refl, Bool, true, false, List, [], ◌∷◌, none, some, arith, length,
}
use usdt_settlement_corridor.Base.Count.{count_by}
use usdt_settlement_corridor.Dispatcher.Answer.{Answer, done}
use usdt_settlement_corridor.Dispatcher.Entering.{
  LedgerAnswer, accepted, refused, conflict, halted, transition_loop,
}

-- An answer after which the loop waits and asks again.
abbrev pub is_wait : LedgerAnswer → Bool
is_wait a = elim a [ halted cancelled ↦ elim cancelled [ true ↦ false | false ↦ true ] | _ ↦ false ]

abbrev pub is_answer : LedgerAnswer → Bool
is_answer a = elim a [ halted cancelled ↦ cancelled | _ ↦ true ]

-- The answers that the loop may still need.
abbrev pub needed : Bool → ℕ
needed true = 1
needed false = 2

-- The loop ends as soon as the ledger has given two answers other than a halt, or one after a version
-- conflict; it asks at most once more for each halt that it waits for.
pub transition_loop_ends :
    (answers : List LedgerAnswer) (version : ℕ) (retried : Bool)
    → needed retried ≤ count_by is_answer answers
    → ((result : Answer (Unit {0})) × ((transition_loop answers version retried).0 ≡ some result))
      × (length (transition_loop answers version retried).1
          ≤ count_by is_wait answers + needed retried)
unfolding transition_loop count_by
transition_loop_ends [] version true h = absurd (omega (arith, h))
transition_loop_ends [] version false h = absurd (omega (arith, h))
transition_loop_ends (accepted ∷ answers) version true h = ((done tt, refl), omega arith)
transition_loop_ends (accepted ∷ answers) version false h = ((done tt, refl), omega arith)
transition_loop_ends (refused ∷ answers) version true h = ((_, refl), omega arith)
transition_loop_ends (refused ∷ answers) version false h = ((_, refl), omega arith)
transition_loop_ends (conflict r ∷ answers) version true h = ((_, refl), omega arith)
transition_loop_ends (conflict none ∷ answers) version false h = ((_, refl), omega arith)
transition_loop_ends (conflict (some v) ∷ answers) version false h =
    let rest = transition_loop_ends answers v true (omega (arith, h)) in
    (rest.0, omega (arith, rest.1))
transition_loop_ends (halted true ∷ answers) version true h = ((_, refl), omega arith)
transition_loop_ends (halted true ∷ answers) version false h = ((_, refl), omega arith)
transition_loop_ends (halted false ∷ answers) version retried h =
    let rest = transition_loop_ends answers version retried h in (rest.0, omega (arith, rest.1))

-- A run of the loop to an answer that ended it well.
pub data Ends : List LedgerAnswer → Type 0 where
  here : (answers : List LedgerAnswer) → Ends (accepted ∷ answers)
  after_halt : (answers : List LedgerAnswer) → Ends answers → Ends (halted false ∷ answers)
  after_conflict :
      (v : ℕ) (answers : List LedgerAnswer) → Ends answers → Ends (conflict (some v) ∷ answers)

-- The loop ends well only if the ledger has accepted a call, and until then it has answered with halts
-- and with version conflicts after which the order could be read.
pub transition_loop_accepted :
    (answers : List LedgerAnswer) (version : ℕ) (retried : Bool)
    → (transition_loop answers version retried).0 ≡ some (done tt)
    → Ends answers
unfolding transition_loop
transition_loop_accepted [] version retried h = cc
transition_loop_accepted (accepted ∷ answers) version retried h = here answers
transition_loop_accepted (refused ∷ answers) version retried h = cc
transition_loop_accepted (conflict r ∷ answers) version true h = cc
transition_loop_accepted (conflict none ∷ answers) version false h = cc
transition_loop_accepted (conflict (some v) ∷ answers) version false h =
    after_conflict v answers (transition_loop_accepted answers v true h)
transition_loop_accepted (halted true ∷ answers) version retried h = cc
transition_loop_accepted (halted false ∷ answers) version retried h =
    after_halt answers (transition_loop_accepted answers version retried h)
