-- ===== src/Orders/Console/Agreement.antt =====
-- The console's actions (internal/orders/console.go) against the checks that the use cases make.
use enterprise_integration_s.Common.{
  ℕ, String, Bool, true, false, ◌&&◌, ◌||◌, List, [], ◌∷◌, ◌≡◌, refl, Result, ok, err, arith,
  str_eq, eq_iff,
}
use enterprise_integration_s.Orders.Status.{
  paid, processing, ready_to_ship, completed, can_transition,
}
use enterprise_integration_s.Orders.Provider.{Strings, can_cancel, valid_cancellation_reason}
use enterprise_integration_s.Orders.State.{LifecycleState}
use enterprise_integration_s.Orders.Service.{check_transition}
use enterprise_integration_s.Orders.Console.{
  CancellationOption, console_actions, all_reasons, valid_reasons, console_cancellations,
}

abbrev pub contains : String → List String → Bool
contains x [] = false
contains x (y ∷ ys) = str_eq y x || contains x ys

abbrev pub is_ok {ℓ κ} : {E : Type ℓ} {A : Type κ} → Result E A → Bool
is_ok (ok _) = true
is_ok (err _) = false

-- The console offers pay, process, ready_to_ship and complete exactly when the transition's checks
-- pass for that order at that instant.
pub console_actions-agree :
    (state : LifecycleState) (now : ℕ)
    → (contains "pay" (console_actions state now) ≡ is_ok (check_transition state paid now))
      × (contains "process" (console_actions state now)
          ≡ is_ok (check_transition state processing now))
      × (contains "ready_to_ship" (console_actions state now)
          ≡ is_ok (check_transition state ready_to_ship now))
      × (contains "complete" (console_actions state now)
          ≡ is_ok (check_transition state completed now))
unfolding console_actions check_transition can_transition
console_actions-agree state now = ground arith

-- Whether an option for the actor is offered that lists the reason.
abbrev pub offers : String → String → List CancellationOption → Bool
offers actor reason [] = false
offers actor reason (o ∷ os) =
    str_eq o.actor actor && contains reason o.reasons || offers actor reason os

contains-valid_reasons :
    (str : Strings) (actor reason : String) (rs : List String)
    → contains reason (valid_reasons str actor rs)
      ≡ (contains reason rs && valid_cancellation_reason str actor reason)
unfolding valid_reasons
contains-valid_reasons str actor reason [] = refl
contains-valid_reasons str actor reason (r ∷ rs) =
    ground (arith, eq_iff r reason, contains-valid_reasons str actor reason rs)

contains-valid_reasons_listed :
    (str : Strings) (actor reason : String) (rs : List String)
    → contains reason rs ≡ true
    → contains reason (valid_reasons str actor rs) ≡ valid_cancellation_reason str actor reason
contains-valid_reasons_listed str actor reason rs h = rw (contains-valid_reasons, h) refl

offers-console_cancellations :
    (str : Strings) (state : LifecycleState) (reason : String)
    → contains reason (valid_reasons str "CUSTOMER" all_reasons)
      ≡ valid_cancellation_reason str "CUSTOMER" reason
    → contains reason (valid_reasons str "SELLER" all_reasons)
      ≡ valid_cancellation_reason str "SELLER" reason
    → let options = console_cancellations str state in
      (offers "CUSTOMER" reason options ≡ (
        can_cancel str state.provider state.status "CUSTOMER"
        && valid_cancellation_reason str "CUSTOMER" reason))
      × (offers "SELLER" reason options ≡ (
          can_cancel str state.provider state.status "SELLER"
          && valid_cancellation_reason str "SELLER" reason))
unfolding console_cancellations
offers-console_cancellations str state reason c s = ground arith

-- Of the five customer and seller reasons the console offers to each of the two actors exactly those
-- with which a cancellation of that order passes both checks of `Cancel`.
pub console_cancellations-agree :
    (str : Strings) (state : LifecycleState) (reason : String)
    → contains reason all_reasons ≡ true
    → let options = console_cancellations str state in
      (offers "CUSTOMER" reason options ≡ (
        can_cancel str state.provider state.status "CUSTOMER"
        && valid_cancellation_reason str "CUSTOMER" reason))
      × (offers "SELLER" reason options ≡ (
          can_cancel str state.provider state.status "SELLER"
          && valid_cancellation_reason str "SELLER" reason))
console_cancellations-agree str state reason h =
    offers-console_cancellations str state reason
      (contains-valid_reasons_listed str "CUSTOMER" reason all_reasons h)
      (contains-valid_reasons_listed str "SELLER" reason all_reasons h)
