-- ===== src/Orders/UseCases/Safety.antt =====
-- What the use cases of internal/orders/service.go guarantee over every repository.
use enterprise_integration_s.Common.{
  ℕ, ◌↔◌, ◌≤◌, String, true, false, Option, none, some, ◌≡◌, ◌⊎◌, inl, inr, ok, arith, Bool-cases,
}
use enterprise_integration_s.Orders.Status.{
  Status, unpaid, paid, processing, cancelled, can_transition,
}
use enterprise_integration_s.Orders.Provider.{Strings, can_cancel, valid_cancellation_reason}
use enterprise_integration_s.Orders.State.{
  pending, LifecycleState, LifecycleTransaction, LifecycleRepository,
}
use enterprise_integration_s.Orders.Service.{
  Service, passed, check_transition, transition_op, cancel_op,
}
use enterprise_integration_s.Orders.UseCases.{
  payment_expired_reason, check_deadline, cancel_overdue_op, transition, cancel, cancel_overdue,
}

check_transition-ok :
    (state : LifecycleState) (target : Status) (now : ℕ)
    → check_transition state target now ≡ ok tt
    → (can_transition state.status target ≡ true)
      × (target ≡ paid
          → (state.payment_status ≡ pending) × (passed state.payment_expires now ≡ false))
unfolding check_transition
check_transition-ok state target now h = ground arith

-- Both the deadline worker and a payment are accepted only at the very instant of the deadline.
pub pay_and_expire :
    (state : LifecycleState) (event : String) (now : ℕ)
    → check_transition state paid now ≡ ok tt
    → check_deadline state payment_expired_reason now ≡ ok event
    → state.payment_expires ≡ some now
unfolding check_transition check_deadline
pay_and_expire state event now p e = ground arith

-- An unpaid order with a pending payment can be paid up to its payment deadline and no later, and
-- expired from it on and no earlier.
pub pay_or_expire :
    (state : LifecycleState) (at now : ℕ)
    → state.status ≡ unpaid
    → state.payment_status ≡ pending
    → state.payment_expires ≡ some at
    → ((now ≤ at) ↔ (check_transition state paid now ≡ ok tt))
      × ((at ≤ now)
          ↔ (check_deadline state payment_expired_reason now ≡ ok "order.payment_expired"))
unfolding check_transition check_deadline can_transition
pay_or_expire state at now u p e =
    ((λ h. ground arith, λ h. ground arith), (λ h. ground arith, λ h. ground arith))

abbrev pub IsDue : Option ℕ → ℕ → Type 0
IsDue none now = ⊥
IsDue (some at) now = at ≤ now

-- A deadline is accepted only when it has passed: the payment deadline of an unpaid order with a
-- pending payment, or the seller deadline of a paid or processing one. Each has the transition to
-- CANCELLED in the canonical table.
pub check_deadline-IsDue :
    (state : LifecycleState) (reason event : String) (now : ℕ)
    → check_deadline state reason now ≡ ok event
    → (can_transition state.status cancelled ≡ true)
      × (((state.status ≡ unpaid)
            × (state.payment_status ≡ pending)
            × IsDue state.payment_expires now)
          ⊎ (((state.status ≡ paid) ⊎ (state.status ≡ processing))
              × IsDue state.seller_deadline now))
unfolding check_deadline can_transition
check_deadline-IsDue state reason event now h = ground arith

transition_op-ok :
    (str : Strings) (service : Service) {S : Type 0} (tx : LifecycleTransaction S)
    (shop order : String) (target : Status) (reason : String) (s : S) {s' : S}
    → transition_op str service tx shop order target reason s ≡ ok s'
    → (state : LifecycleState) × (tx.lock_order shop order s ≡ ok state)
      × (check_transition state target service.clock ≡ ok tt)
unfolding transition_op
transition_op-ok str service tx shop order target reason s h = ground arith

cancel_op-ok :
    (str : Strings) (service : Service) {S : Type 0} (tx : LifecycleTransaction S)
    (shop order actor reason : String) (s : S) {s' : S}
    → cancel_op str service tx shop order actor reason s ≡ ok s'
    → (state : LifecycleState) × (tx.lock_order shop order s ≡ ok state)
      × (can_cancel str state.provider state.status actor ≡ true)
unfolding cancel_op
cancel_op-ok str service tx shop order actor reason s h = ground arith

cancel_overdue_op-ok :
    (now : ℕ) {S : Type 0} (tx : LifecycleTransaction S) (shop order reason : String) (s : S)
    {s' : S}
    → cancel_overdue_op now tx shop order reason s ≡ ok s'
    → (state : LifecycleState) × (tx.lock_order shop order s ≡ ok state)
      × (event : String) × (check_deadline state reason now ≡ ok event)
unfolding cancel_overdue_op
cancel_overdue_op-ok now tx shop order reason s h = ground arith

module _ (str : Strings) (service : Service) {S : Type 0} (repository : LifecycleRepository S) where
  open repository use {transaction as tx}

  -- A transition that reports no error was made from a locked state that allows it, and a payment
  -- was pending and not past its deadline.
  pub transition-safe :
      (shop order : String) (target : Status) (reason : String) (s : S)
      → (transition str service repository shop order target reason s).1 ≡ none
      → (state : LifecycleState) × (tx.lock_order shop order s ≡ ok state)
        × (can_transition state.status target ≡ true)
        × (target ≡ paid
            → (state.payment_status ≡ pending)
              × (passed state.payment_expires service.clock ≡ false))
  unfolding transition
  transition-safe shop order target reason s h =
      let (state, locked, checked) =
        transition_op-ok str service tx shop order target reason s
          (repository.commits (transition_op str service tx shop order target reason) s h) in
      let (allowed, payable) = check_transition-ok state target service.clock checked in
      (state, locked, allowed, payable)

  -- A cancellation that reports no error was made from a locked state and by an actor with a reason
  -- that the provider's rules allow.
  pub cancel-safe :
      (shop order actor reason : String) (s : S)
      → (cancel str service repository shop order actor reason s).1 ≡ none
      → (valid_cancellation_reason str actor reason ≡ true)
        × (state : LifecycleState) × (tx.lock_order shop order s ≡ ok state)
        × (can_cancel str state.provider state.status actor ≡ true)
  unfolding cancel
  cancel-safe shop order actor reason s h =
      elim (Bool-cases (valid_cancellation_reason str actor reason)) [
        | inr bad ↦ ground arith
        | inl good ↦
            (let (state, locked, allowed) = cancel_op-ok str service tx shop order actor reason s (
                repository.commits (cancel_op str service tx shop order actor reason) s
                  (ground arith)) in
              (good, state, locked, allowed))
      ]

  -- A deadline cancellation that reports no error was made from a locked unpaid order past its payment
  -- deadline, or a locked paid or processing order past its seller deadline.
  pub cancel_overdue-safe :
      (shop order reason : String) (s : S)
      → (cancel_overdue str service repository shop order reason s).1 ≡ none
      → (state : LifecycleState) × (tx.lock_order shop order s ≡ ok state)
        × (((state.status ≡ unpaid)
              × (state.payment_status ≡ pending)
              × IsDue state.payment_expires service.clock)
            ⊎ (((state.status ≡ paid) ⊎ (state.status ≡ processing))
                × IsDue state.seller_deadline service.clock))
  unfolding cancel_overdue
  cancel_overdue-safe shop order reason s h =
      let (state, locked, event, due) =
        cancel_overdue_op-ok service.clock tx shop order reason s
          (repository.commits (cancel_overdue_op service.clock tx shop order reason) s h) in
      (state, locked, (check_deadline-IsDue state reason event service.clock due).1)
