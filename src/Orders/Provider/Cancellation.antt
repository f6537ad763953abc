-- ===== src/Orders/Provider/Cancellation.antt =====
-- Properties of the cancellation rules of internal/orders/provider.go.
use enterprise_integration_s.Common.{String, ◌≡◌, true, arith}
use enterprise_integration_s.Orders.Status.{Status, cancelled, can_transition}
use enterprise_integration_s.Orders.Provider.{
  Strings, Actor, shopee_can_cancel, actor_of, can_cancel,
}

shopee-can_transition :
    (a : Actor) (s : Status) → shopee_can_cancel a s ≡ true → can_transition s cancelled ≡ true
unfolding shopee_can_cancel can_transition
shopee-can_transition a s h = ground arith

-- Whatever the profile and the actor, an order that may be cancelled has the transition to
-- CANCELLED in the canonical table: no provider rule widens it.
pub can_cancel-can_transition :
    (str : Strings) (provider : String) (s : Status) (actor : String)
    → can_cancel str provider s actor ≡ true
    → can_transition s cancelled ≡ true
unfolding can_cancel
can_cancel-can_transition str provider s actor h =
    ground (arith, shopee-can_transition (actor_of (str.to_upper actor)) s)
