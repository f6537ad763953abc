-- ===== src/Orders/Console.antt =====
-- internal/orders/console.go: the actions that the control plane offers for an order.
pub mod Agreement
use enterprise_integration_s.Common.{
  ℕ, String, Bool, true, false, ◌&&◌, not, List, [], ◌∷◌, ◌++◌, if◌then◌else◌,
}
use enterprise_integration_s.Orders.Status.{
  Status, unpaid, paid, processing, ready_to_ship, completed, same_status, can_transition,
}
use enterprise_integration_s.Orders.Provider.{Strings, can_cancel, valid_cancellation_reason}
use enterprise_integration_s.Orders.State.{LifecycleState}
use enterprise_integration_s.Orders.Service.{is_pending, passed}

-- `CancellationOption`
pub record CancellationOption : Type 0 where
  pub actor : String
  pub reasons : List String

-- The loop over {action, target}.
candidate_actions : Status → List (String × Status) → List String
candidate_actions status [] = []
candidate_actions status ((action, target) ∷ rest) =
    (if can_transition status target then action ∷ [] else []) ++ candidate_actions status rest

abbrev candidates : List (String × Status)
candidates =
    ("process", processing) ∷ ("ready_to_ship", ready_to_ship) ∷ ("complete", completed) ∷ []

-- The first result of `ConsoleActions`.
unfoldable pub console_actions : LifecycleState → ℕ → List String
unfolding candidate_actions
console_actions state now =
    (if can_transition state.status paid
        && is_pending state.payment_status
        && not (passed state.payment_expires now)
      then "pay" ∷ []
      else [])
    ++ ((if same_status state.status unpaid && is_pending state.payment_status
          then "payment_failed" ∷ []
          else [])
        ++ candidate_actions state.status candidates)

abbrev all_reasons : List String
all_reasons =
    "CHANGE_OF_MIND" ∷ "DUPLICATE_ORDER" ∷ "ADDRESS_ISSUE" ∷ "OUT_OF_STOCK" ∷ "SELLER_UNFULFILLABLE"
    ∷ []

module _ (str : Strings) where
  unfoldable pub valid_reasons : String → List String → List String
  valid_reasons actor [] = []
  valid_reasons actor (reason ∷ rest) =
      (if valid_cancellation_reason str actor reason then reason ∷ [] else [])
      ++ valid_reasons actor rest

  cancellation_options : LifecycleState → List String → List CancellationOption
  cancellation_options state [] = []
  cancellation_options state (actor ∷ rest) =
      (if not (can_cancel str state.provider state.status actor)
        then []
        else record { actor = actor; reasons = valid_reasons actor all_reasons } ∷ [])
      ++ cancellation_options state rest

  -- The second result of `ConsoleActions`.
  unfoldable pub console_cancellations : LifecycleState → List CancellationOption
  unfolding cancellation_options
  console_cancellations state = cancellation_options state ("CUSTOMER" ∷ "SELLER" ∷ [])
