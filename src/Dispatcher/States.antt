-- ===== src/Dispatcher/States.antt =====
-- dispatcher/internal/dispatch/store.go and migrations 0004, 0006: one row for each order that is being
-- paid out.
use usdt_settlement_corridor.Base.{
  ℕ, Bool, true, false, ◌&&◌, List, [], ◌∷◌, ◌++◌, none, some, ◌==◌, ltb, if◌then◌else◌,
}
use usdt_settlement_corridor.Base.Text.{Text}
use usdt_settlement_corridor.Base.Table.{find_by, exists_by, select, update_by}
use usdt_settlement_corridor.Base.Sort.{sort_by}
use usdt_settlement_corridor.Dispatcher.Answer.{
  Answer, failed, done, attempt_not_found, not_allowed,
}
pub mod Marks
pub mod Closing

pub data DispatchStatus : Type 0 where
  dispatching settled held : DispatchStatus

abbrev pub dispatch_status_eq : DispatchStatus → DispatchStatus → Bool
dispatch_status_eq dispatching t = elim t [ dispatching ↦ true | _ ↦ false ]
dispatch_status_eq settled t = elim t [ settled ↦ true | _ ↦ false ]
dispatch_status_eq held t = elim t [ held ↦ true | _ ↦ false ]

-- `Attempt`.
pub record DispatchAttempt : Type 0 where
  pub order_id : ℕ
  pub external_id : Text
  pub slot_id : ℕ
  pub conversion_entry_key : Text
  pub status : DispatchStatus
  pub entered_dispatching_at : ℕ

abbrev pub States : Type 0
States = List DispatchAttempt

abbrev pub of_order : ℕ → DispatchAttempt → Bool
of_order i a = a.order_id == i

unfoldable pub get_state : ℕ → States → Answer DispatchAttempt
get_state i states = elim (find_by (of_order i) states) [
  | none ↦ failed attempt_not_found
  | some a ↦ done a
]

-- `Create`: an order that has a row keeps it.
unfoldable pub create_state : DispatchAttempt → States → Answer DispatchAttempt × States
create_state a states =
    if exists_by (of_order a.order_id) states
    then (get_state a.order_id states, states)
    else (done a, states ++ (a ∷ []))

unfoldable pub mark_status : ℕ → DispatchStatus → States → Answer (Unit {0}) × States
mark_status i status states =
    if exists_by (λ a. of_order i a && dispatch_status_eq a.status dispatching) states
    then (
      done tt,
      update_by (λ a. of_order i a && dispatch_status_eq a.status dispatching)
          (λ a. record a { status = status }) states,
    )
    else (
      elim (get_state i states) [
        | failed f ↦ failed f
        | done current ↦
            if dispatch_status_eq current.status status then done tt else failed not_allowed
      ],
      states,
    )

unfoldable pub mark_settled : ℕ → States → Answer (Unit {0}) × States
mark_settled i states = mark_status i settled states

unfoldable pub mark_held : ℕ → States → Answer (Unit {0}) × States
mark_held i states = mark_status i held states

unfoldable pub list_dispatching : States → States
list_dispatching states =
    sort_by (λ a b. ltb a.order_id b.order_id)
      (select (λ a. dispatch_status_eq a.status dispatching) states)
