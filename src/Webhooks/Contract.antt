-- ===== src/Webhooks/Contract.antt =====
-- The events of the webhook contract, the names that a SHOPEE_LIKE shop sees of them, and the delays
-- between attempts: events.go, provider.go and retry.go of internal/webhooks.
use enterprise_integration_s.Common.{
  ℕ, ◌≤◌, zero, suc, ◌≡◌, inl, inr, Bool-cases, String, Bool, true, false, ◌||◌, Option, none, some,
  List, [], ◌∷◌, str_eq, eq_iff, refl, arith, if◌then◌else◌, ltb,
}
use enterprise_integration_s.Common.Int.{ℤ, pos, negsuc}

abbrev is_one_of : List String → String → Bool
is_one_of [] event = false
is_one_of (x ∷ xs) event = str_eq event x || is_one_of xs event

abbrev supported_events : List String
supported_events =
    "product.created" ∷ "product.updated" ∷ "product.deleted" ∷ "order.created" ∷ "order.paid"
    ∷ "order.processing" ∷ "order.ready_to_ship" ∷ "order.shipped" ∷ "order.in_delivery"
    ∷ "order.delivered" ∷ "order.completed" ∷ "order.cancelled" ∷ "order.payment_expired"
    ∷ "order.payment_failed" ∷ "order.sla_expired" ∷ "shipment.delivery_failed"
    ∷ "shipment.returning" ∷ "shipment.returned" ∷ []

-- `SupportsEvent`
unfoldable pub supports_event : String → Bool
supports_event = is_one_of supported_events

abbrev product_events : List String
product_events = "product.created" ∷ "product.updated" ∷ "product.deleted" ∷ []

abbrev logistics_events : List String
logistics_events =
    "order.shipped" ∷ "order.in_delivery" ∷ "order.delivered" ∷ "shipment.delivery_failed"
    ∷ "shipment.returning" ∷ "shipment.returned" ∷ []

-- `ShopeeEvent`
unfoldable pub shopee_event : String → String
shopee_event event =
    if is_one_of product_events event
    then "item_update"
    else if is_one_of logistics_events event
    then "logistics_status_update"
    else "order_status_update"

-- `CanonicalShopeeEvent`
unfoldable pub canonical_shopee_event : String → Option String
canonical_shopee_event event =
    if str_eq event "item_update"
    then some "product.updated"
    else if str_eq event "order_status_update"
    then some "order.created"
    else if str_eq event "logistics_status_update"
    then some "order.shipped"
    else none

-- The canonical event of a SHOPEE_LIKE subscription is one that webhooks can subscribe to, and
-- deliveries of it carry the name that was subscribed to.
pub shopee_event-canonical_shopee_event :
    (event canonical : String)
    → canonical_shopee_event event ≡ some canonical
    → (shopee_event canonical ≡ event) × (supports_event canonical ≡ true)
unfolding canonical_shopee_event shopee_event supports_event
shopee_event-canonical_shopee_event event canonical e =
    elim (Bool-cases (str_eq event "item_update")) [
      | inl t ↦
          let name : event ≡ "item_update" = ground (arith, eq_iff event "item_update") in
          let found : canonical ≡ "product.updated" = ground arith in rw (found, name) (refl, refl)
      | inr n ↦ elim (Bool-cases (str_eq event "order_status_update")) [
        | inl t ↦
            let name : event ≡ "order_status_update" =
              ground (arith, eq_iff event "order_status_update") in
            let found : canonical ≡ "order.created" = ground arith in rw (found, name) (refl, refl)
        | inr m ↦
            let name : event ≡ "logistics_status_update" =
              ground (arith, eq_iff event "logistics_status_update") in
            let found : canonical ≡ "order.shipped" = ground arith in rw (found, name) (refl, refl)
      ]
    ]

-- `RetryAfter`, in seconds
abbrev retry_schedule : ℕ → ℕ
retry_schedule zero = 30
retry_schedule (suc zero) = 120
retry_schedule (suc (suc zero)) = 600
retry_schedule (suc (suc (suc _))) = 1800

unfoldable pub retry_after : ℤ → ℕ
retry_after (negsuc _) = retry_schedule 0
retry_after (pos zero) = retry_schedule 0
retry_after (pos (suc n)) = if ltb 4 (suc n) then retry_schedule 3 else retry_schedule n

retry_schedule-le : (n : ℕ) → retry_schedule n ≤ 1800
retry_schedule-le zero = omega arith
retry_schedule-le (suc zero) = omega arith
retry_schedule-le (suc (suc zero)) = omega arith
retry_schedule-le (suc (suc (suc n))) = omega arith

-- No delay is longer than half an hour.
pub retry_after-le : (n : ℕ) → retry_after (pos n) ≤ 1800
unfolding retry_after
retry_after-le zero = omega arith
retry_after-le (suc n) = elim (Bool-cases (ltb 4 (suc n))) [
  | inl t ↦ rw t (omega arith)
  | inr t ↦ rw t (retry_schedule-le n)
]
