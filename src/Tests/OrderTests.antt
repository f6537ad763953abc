-- ===== src/Tests/OrderTests.antt =====
-- The lifecycle of one unpaid order.
use enterprise_integration_s.Common.{◌≡◌, ◌↔◌, ◌≤◌, refl, ◌⊎◌, true, false, ◌&&◌, none, ok}
use enterprise_integration_s.Orders.Status.{
  Status, unpaid, paid, processing, ready_to_ship, cancelled, completed, can_transition,
  status_text,
}
use enterprise_integration_s.Orders.Status.Lifecycle.{
  here, next, Reach-le_seven, IsTerminal, IsTerminal-iff,
}
use enterprise_integration_s.Orders.Provider.{
  can_cancel, normalise_provider, valid_cancellation_reason, actor_of, reason_of, reason_allowed,
  shopee_can_cancel,
}
use enterprise_integration_s.Orders.Provider.Cancellation.{can_cancel-can_transition}
use enterprise_integration_s.Orders.State.{pending, LifecycleState}
use enterprise_integration_s.Orders.Service.{
  passed, check_transition, transition_update, transition_payload, transition_op, cancel_op,
}
use enterprise_integration_s.Orders.UseCases.{
  payment_expired_reason, check_deadline, overdue_update, cancel_overdue_op, transition, cancel,
  cancel_overdue,
}
use enterprise_integration_s.Orders.UseCases.Safety.{
  IsDue, pay_or_expire, transition-safe, cancel-safe, cancel_overdue-safe,
}
use enterprise_integration_s.Orders.Console.{console_actions, console_cancellations}
use enterprise_integration_s.Orders.Console.Agreement.{
  contains, is_ok, offers, console_actions-agree, console_cancellations-agree,
}
use enterprise_integration_s.Inventory.Holding.{commit, release, release_rows}
use enterprise_integration_s.Events.{record_event}
use enterprise_integration_s.Repository.{
  lock_order, updated_order, update_order, lifecycle_transaction, in_transaction,
  postgres_repository,
}
use enterprise_integration_s.Repository.Cancellation.{healthy}
use enterprise_integration_s.Tests.Fixtures.{env, strings, service, db, state}

Reach-le_seven_example : 2 ≤ 7
unfolding can_transition
Reach-le_seven_example =
    Reach-le_seven (next {s = unpaid} {t = paid} refl (next {s = paid} {t = cancelled} refl here))

IsTerminal-iff_example : IsTerminal completed ↔ ((t : Status) → can_transition completed t ≡ false)
IsTerminal-iff_example = IsTerminal-iff completed (λ text e. cc e)

can_cancel-can_transition_example : can_transition paid cancelled ≡ true
unfolding can_cancel normalise_provider actor_of shopee_can_cancel
can_cancel-can_transition_example =
    can_cancel-can_transition strings "SHOPEE_LIKE" paid "SELLER" refl

pay_or_expire_example :
    ((100 ≤ 200) ↔ (check_transition state paid 100 ≡ ok tt))
    × ((200 ≤ 100) ↔ (check_deadline state payment_expired_reason 100 ≡ ok "order.payment_expired"))
pay_or_expire_example = pay_or_expire state 200 100 refl refl refl

pay_run :
    (transition strings service (postgres_repository env healthy) "shop1" "ord1" paid "" db).1
    ≡ none
unfolding transition transition_op check_transition transition_update transition_payload
    postgres_repository in_transaction lifecycle_transaction lock_order update_order updated_order
    commit record_event can_transition normalise_provider status_text
pay_run = refl

transition-safe_example :
    (s : LifecycleState) × (lock_order "shop1" "ord1" db ≡ ok s)
    × (can_transition s.status paid ≡ true)
    × (paid ≡ paid → (s.payment_status ≡ pending) × (passed s.payment_expires 100 ≡ false))
unfolding postgres_repository lifecycle_transaction
transition-safe_example =
    transition-safe strings service (postgres_repository env healthy) "shop1" "ord1" paid "" db
      pay_run

cancel_run :
    (cancel strings service
      (postgres_repository env healthy)
      "shop1"
      "ord1"
      "CUSTOMER"
      "CHANGE_OF_MIND"
      db).1
    ≡ none
unfolding cancel cancel_op postgres_repository in_transaction lifecycle_transaction lock_order
    update_order updated_order release release_rows record_event can_cancel normalise_provider
    valid_cancellation_reason actor_of reason_of reason_allowed shopee_can_cancel
cancel_run = refl

cancel-safe_example :
    (valid_cancellation_reason strings "CUSTOMER" "CHANGE_OF_MIND" ≡ true)
    × (s : LifecycleState) × (lock_order "shop1" "ord1" db ≡ ok s)
    × (can_cancel strings s.provider s.status "CUSTOMER" ≡ true)
unfolding postgres_repository lifecycle_transaction
cancel-safe_example =
    cancel-safe strings service (postgres_repository env healthy) "shop1" "ord1" "CUSTOMER"
      "CHANGE_OF_MIND" db cancel_run

overdue_run :
    (cancel_overdue strings
      (record service { clock = 200 })
      (postgres_repository env healthy)
      "shop1"
      "ord1"
      "PAYMENT_EXPIRED"
      db).1
    ≡ none
unfolding cancel_overdue cancel_overdue_op check_deadline overdue_update postgres_repository
    in_transaction lifecycle_transaction lock_order update_order updated_order release release_rows
    record_event
overdue_run = refl

cancel_overdue-safe_example :
    (s : LifecycleState) × (lock_order "shop1" "ord1" db ≡ ok s)
    × (((s.status ≡ unpaid) × (s.payment_status ≡ pending) × IsDue s.payment_expires 200)
        ⊎ (((s.status ≡ paid) ⊎ (s.status ≡ processing)) × IsDue s.seller_deadline 200))
unfolding postgres_repository lifecycle_transaction
cancel_overdue-safe_example =
    cancel_overdue-safe strings (record service { clock = 200 }) (postgres_repository env healthy)
      "shop1" "ord1" "PAYMENT_EXPIRED" db overdue_run

console_actions-agree_example :
    (contains "pay" (console_actions state 100) ≡ is_ok (check_transition state paid 100))
    × (contains "process" (console_actions state 100)
        ≡ is_ok (check_transition state processing 100))
    × (contains "ready_to_ship" (console_actions state 100)
        ≡ is_ok (check_transition state ready_to_ship 100))
    × (contains "complete" (console_actions state 100)
        ≡ is_ok (check_transition state completed 100))
console_actions-agree_example = console_actions-agree state 100

console_cancellations-agree_example :
    let options = console_cancellations strings state in
    (offers "CUSTOMER" "CHANGE_OF_MIND" options ≡ (
      can_cancel strings state.provider state.status "CUSTOMER"
      && valid_cancellation_reason strings "CUSTOMER" "CHANGE_OF_MIND"))
    × (offers "SELLER" "CHANGE_OF_MIND" options ≡ (
        can_cancel strings state.provider state.status "SELLER"
        && valid_cancellation_reason strings "SELLER" "CHANGE_OF_MIND"))
console_cancellations-agree_example =
    console_cancellations-agree strings state "CHANGE_OF_MIND" refl
