-- ===== src/Orders/Provider.antt =====
-- internal/orders/provider.go: provider profiles and cancellation rules. Go's ToUpper, ToLower and
-- TrimSpace are the parameter `Strings`, as the profile and the actor are caller-supplied texts.
pub mod Cancellation
use enterprise_integration_s.Common.{
  String, Bool, true, false, ◌||◌, ◌≡◌, str_eq, not, if◌then◌else◌,
}
use enterprise_integration_s.Orders.Status.{
  Status, unpaid, paid, processing, cancelled, same_status, can_transition,
}

-- The functions of Go's package strings that the program calls.
pub record Strings : Type 0 where
  pub to_upper : String → String
  pub to_lower : String → String
  pub trim_space : String → String

abbrev pub shopee_like : String
shopee_like = "SHOPEE_LIKE"

abbrev pub tokopedia_like : String
tokopedia_like = "TOKOPEDIA_LIKE"

pub data Actor : Type 0 where
  customer seller system unknown_actor : Actor

-- The actor that an upper-case text names.
unfoldable pub actor_of : String → Actor
actor_of s =
    if str_eq s "CUSTOMER"
    then customer
    else if str_eq s "SELLER"
    then seller
    else if str_eq s "SYSTEM"
    then system
    else unknown_actor

pub data Reason : Type 0 where
  change_of_mind duplicate_order address_issue out_of_stock seller_unfulfillable : Reason
  payment_expired payment_failed seller_sla_expired unknown_reason : Reason

-- The reason that an upper-case text names.
unfoldable pub reason_of : String → Reason
reason_of s =
    if str_eq s "CHANGE_OF_MIND"
    then change_of_mind
    else if str_eq s "DUPLICATE_ORDER"
    then duplicate_order
    else if str_eq s "ADDRESS_ISSUE"
    then address_issue
    else if str_eq s "OUT_OF_STOCK"
    then out_of_stock
    else if str_eq s "SELLER_UNFULFILLABLE"
    then seller_unfulfillable
    else if str_eq s "PAYMENT_EXPIRED"
    then payment_expired
    else if str_eq s "PAYMENT_FAILED"
    then payment_failed
    else if str_eq s "SELLER_SLA_EXPIRED"
    then seller_sla_expired
    else unknown_reason

-- The table `allowed`; a missing key reads as false.
unfoldable pub reason_allowed : Actor → Reason → Bool
reason_allowed customer change_of_mind = true
reason_allowed customer duplicate_order = true
reason_allowed customer address_issue = true
reason_allowed seller out_of_stock = true
reason_allowed seller seller_unfulfillable = true
reason_allowed system payment_expired = true
reason_allowed system payment_failed = true
reason_allowed system seller_sla_expired = true
reason_allowed _ _ = false

-- The statuses from which SHOPEE_LIKE lets each actor cancel.
unfoldable pub shopee_can_cancel : Actor → Status → Bool
shopee_can_cancel customer s = same_status s unpaid || same_status s paid
shopee_can_cancel seller s = same_status s paid || same_status s processing
shopee_can_cancel system s = same_status s unpaid || same_status s paid || same_status s processing
shopee_can_cancel unknown_actor s = false

module _ (str : Strings) where
  open str use {to_upper, trim_space}

  unfoldable pub normalise_provider : String → String
  normalise_provider provider =
      let p = to_upper (trim_space provider) in if str_eq p "" then shopee_like else p

  unfoldable pub supports_provider : String → Bool
  supports_provider provider =
      let p = normalise_provider provider in str_eq p shopee_like || str_eq p tokopedia_like

  unfoldable pub can_cancel : String → Status → String → Bool
  can_cancel provider status actor =
      if not (str_eq (normalise_provider provider) shopee_like)
      then can_transition status cancelled
      else shopee_can_cancel (actor_of (to_upper actor)) status

  unfoldable pub valid_cancellation_reason : String → String → Bool
  valid_cancellation_reason actor reason =
      reason_allowed (actor_of (to_upper actor)) (reason_of (to_upper (trim_space reason)))
