-- ===== src/Orders/Service.antt =====
-- internal/orders/service.go: the order lifecycle use cases, over any repository that keeps the
-- contract of Orders/State.
use Prim.Native.String.{len, slice}
use enterprise_integration_s.Common.{
  ℕ, String, concat, Bool, true, false, ◌&&◌, ◌||◌, not, Option, none, some, List, [], ◌∷◌, ◌++◌,
  Result, ok, err, ◌>>=◌, str_eq, if◌then◌else◌, ltb, ◌==◌,
}
use enterprise_integration_s.Orders.Status.{
  Status, paid, cancelled, same_status, status_text, can_transition,
}
use enterprise_integration_s.Orders.Provider.{Strings, shopee_like, normalise_provider, can_cancel}
use enterprise_integration_s.Orders.State.{
  PaymentStatus, pending, LifecycleState, TransitionUpdate, Error, invalid_transition, text, wrap,
  wrapping, Field, entry, object, LifecycleTransaction,
}

-- `Service`, less its repository: the clock's reading during the call, the identifier source and the
-- seller deadline.
pub record Service : Type 0 where
  pub clock : ℕ
  pub new_id : String → String
  pub seller_sla : ℕ

-- 24 * time.Hour
abbrev pub default_seller_sla : ℕ
default_seller_sla = 86400000000

unfoldable pub with_clock : Option ℕ → Service → Service
with_clock none service = service
with_clock (some clock) service = record service { clock = clock }

unfoldable pub with_id_generator : Option (String → String) → Service → Service
with_id_generator none service = service
with_id_generator (some generator) service = record service { new_id = generator }

unfoldable pub with_seller_sla : ℕ → Service → Service
with_seller_sla duration service =
    if ltb 0 duration then record service { seller_sla = duration } else service

apply_options : List (Service → Service) → Service → Service
apply_options [] service = service
apply_options (option ∷ options) service = apply_options options (option service)

-- `NewService`; `now` is what time.Now reads.
unfoldable pub new_service : ℕ → List (Service → Service) → Service
unfolding apply_options
new_service now options =
    apply_options options
      (record { clock = now; new_id = λ _. "simulator"; seller_sla = default_seller_sla })

abbrev pub is_pending : PaymentStatus → Bool
is_pending pending = true
is_pending _ = false

-- `at != nil && now.After(*at)`
abbrev pub passed : Option ℕ → ℕ → Bool
passed none now = false
passed (some at) now = ltb at now

-- `at == nil || at.After(now)`
abbrev pub not_due : Option ℕ → ℕ → Bool
not_due none now = true
not_due (some at) now = ltb now at

-- The checks of `Transition` on the locked state.
unfoldable pub check_transition : LifecycleState → Status → ℕ → Result Error (Unit {0})
check_transition state target now =
    if not (can_transition state.status target)
    then err (wrap "cannot transition" invalid_transition)
    else if same_status target paid
        && (not (is_pending state.payment_status) || passed state.payment_expires now)
    then err (wrap "payment is no longer pending" invalid_transition)
    else ok tt

abbrev pub no_update : Status → TransitionUpdate
no_update target = record {
  target = target;
  payment_reference = "";
  seller_sla = 0;
  cancellation_actor = "";
  cancellation_reason = "";
  payment_status = none;
}

-- The event payload of `Cancel` and `CancelOverdue`.
abbrev pub cancellation_payload : String → String → String → List Field
cancellation_payload order actor reason =
    entry "id" order
    ∷ entry "status" "CANCELLED"
    ∷ entry "cancellation_actor" actor
    ∷ entry "cancellation_reason" reason
    ∷ []

module _ (str : Strings) (service : Service) where
  -- The update of `Transition`: a payment gets a reference and, SHOPEE_LIKE, a seller deadline.
  unfoldable pub transition_update : LifecycleState → Status → Result Error TransitionUpdate
  unfolding no_update
  transition_update state target =
      if same_status target paid
      then (let raw_id = str.to_upper (service.new_id "") in
          if len raw_id == 0
          then err (text "generate payment reference: empty identifier")
          else ok (record (no_update target) {
            payment_reference = concat "SIM-PAY-" (slice raw_id 1 (len raw_id));
            seller_sla =
                if str_eq (normalise_provider str state.provider) shopee_like
                then service.seller_sla
                else 0;
          }))
      else ok (no_update target)

  -- The event payload of `Transition`.
  unfoldable pub transition_payload : String → TransitionUpdate → String → List Field
  transition_payload order update reason =
      (entry "id" order ∷ entry "status" (status_text update.target) ∷ [])
      ++ ((if str_eq update.payment_reference ""
            then []
            else object "payment"
                (("status", "PAID") ∷ ("reference", update.payment_reference) ∷ [])
              ∷ [])
          ++ (if str_eq reason "" then [] else entry "cancellation_reason" reason ∷ []))

  module _ {S : Type 0} (tx : LifecycleTransaction S) where
    open tx use {lock_order, update_order, commit_inventory, release_inventory, record_event}

    -- The operation that `Transition` runs in its transaction.
    unfoldable pub transition_op : String → String → Status → String → S → Result Error S
    transition_op shop order target reason s = do
      state ← lock_order shop order s
      _ ← check_transition state target service.clock
      update ← transition_update state target
      s₁ ← wrapping "update order transition" (update_order order update s)
      s₂ ←
          (if same_status target paid
            then wrapping "commit inventory reservation" (commit_inventory order s₁)
            else ok s₁)
      wrapping "record lifecycle event" (
          record_event shop (concat "order." (str.to_lower (status_text target))) order
            (transition_payload order update reason) s₂)

    -- The operation that `Cancel` runs in its transaction.
    unfoldable pub cancel_op : String → String → String → String → S → Result Error S
    cancel_op shop order actor reason s = do
      state ← lock_order shop order s
      s₁ ←
          (if not (can_cancel str state.provider state.status actor)
            then err (wrap "cannot cancel" invalid_transition)
            else wrapping "cancel order" (
                update_order order
                  (record (no_update cancelled) {
                    cancellation_actor = actor;
                    cancellation_reason = reason;
                  })
                  s))
      s₂ ← wrapping "release inventory reservation" (release_inventory order s₁)
      wrapping "record cancellation event"
          (record_event shop "order.cancelled" order (cancellation_payload order actor reason) s₂)
