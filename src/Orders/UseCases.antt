-- ===== src/Orders/UseCases.antt =====
-- internal/orders/service.go: the exported use cases, each one transaction of the repository, and
-- the deadline cancellation that the worker calls.
pub mod Safety
use enterprise_integration_s.Common.{
  ℕ, String, concat, Bool, true, false, ◌&&◌, ◌||◌, not, Option, none, some, List, [], ◌∷◌, Result,
  ok, err, ◌>>=◌, str_eq, if◌then◌else◌, is_some,
}
use enterprise_integration_s.Orders.Status.{
  Status, unpaid, paid, processing, cancelled, same_status,
}
use enterprise_integration_s.Orders.Provider.{Strings, valid_cancellation_reason}
use enterprise_integration_s.Orders.State.{
  expired, LifecycleState, TransitionUpdate, Error, invalid_transition, deadline_not_eligible, wrap,
  wrapping, LifecycleTransaction, LifecycleRepository,
}
use enterprise_integration_s.Orders.Service.{
  Service, is_pending, not_due, no_update, cancellation_payload, transition_op, cancel_op,
}

abbrev pub payment_expired_reason : String
payment_expired_reason = "PAYMENT_EXPIRED"

abbrev pub seller_sla_expired_reason : String
seller_sla_expired_reason = "SELLER_SLA_EXPIRED"

-- The `switch` of `CancelOverdue`: the deadline's event type, or why the order is not eligible.
unfoldable pub check_deadline : LifecycleState → String → ℕ → Result Error String
check_deadline state reason now =
    if str_eq reason payment_expired_reason
    then (if not (same_status state.status unpaid)
          || not (is_pending state.payment_status)
          || not_due state.payment_expires now
        then err deadline_not_eligible
        else ok "order.payment_expired")
    else if str_eq reason seller_sla_expired_reason
    then (if not (same_status state.status paid) && not (same_status state.status processing)
        then err deadline_not_eligible
        else if not_due state.seller_deadline now
        then err deadline_not_eligible
        else ok "order.sla_expired")
    else err (wrap "unknown deadline reason" deadline_not_eligible)

unfoldable pub overdue_update : String → TransitionUpdate
unfolding no_update
overdue_update reason = record (no_update cancelled) {
  cancellation_actor = "SYSTEM";
  cancellation_reason = reason;
  payment_status = if str_eq reason payment_expired_reason then some expired else none;
}

-- The operation that `CancelOverdue` runs in its transaction.
unfoldable pub cancel_overdue_op :
    {S : Type 0} → ℕ → LifecycleTransaction S → String → String → String → S → Result Error S
cancel_overdue_op now tx shop order reason s = do
  state ← tx.lock_order shop order s
  event ← check_deadline state reason now
  s₁ ← wrapping "cancel overdue order" (tx.update_order order (overdue_update reason) s)
  s₂ ← wrapping "release overdue inventory" (tx.release_inventory order s₁)
  s₃ ←
      wrapping "record deadline event"
        (tx.record_event shop event order (cancellation_payload order "SYSTEM" reason) s₂)
  wrapping "record deadline cancellation event"
      (tx.record_event shop "order.cancelled" order (cancellation_payload order "SYSTEM" reason) s₃)

module _ (str : Strings) (service : Service) {S : Type 0} (repository : LifecycleRepository S) where
  open repository use {transaction as tx, in_transaction}

  -- `Transition`
  unfoldable pub transition : String → String → Status → String → S → S × Option Error
  transition shop order target reason =
      in_transaction (transition_op str service tx shop order target reason)

  -- `Cancel`
  unfoldable pub cancel : String → String → String → String → S → S × Option Error
  cancel shop order actor reason s =
      if not (valid_cancellation_reason str actor reason)
      then (s, some (wrap "invalid cancellation reason" invalid_transition))
      else in_transaction (cancel_op str service tx shop order actor reason) s

  -- `CancelOverdue`
  unfoldable pub cancel_overdue : String → String → String → S → S × Option Error
  cancel_overdue shop order reason =
      in_transaction (cancel_overdue_op service.clock tx shop order reason)
