-- ===== src/Tokopedia.antt =====
-- internal/tokopedia/contract.go: the order statuses of the Tokopedia & Shop contract.
use enterprise_integration_s.Common.{
  ◌≡◌, refl, String, Bool, true, false, ◌||◌, Option, none, some, List, [], ◌∷◌, str_eq,
  if◌then◌else◌,
}
use enterprise_integration_s.Orders.Status.{
  Status, unpaid, paid, processing, ready_to_ship, shipped, in_delivery, delivered, completed,
  cancelled, returned, other, same_status,
}
use enterprise_integration_s.Orders.Provider.{Strings}

-- `OrderStatus`
unfoldable pub order_status : Status → String
order_status unpaid = "UNPAID"
order_status paid = "ON_HOLD"
order_status processing = "AWAITING_SHIPMENT"
order_status ready_to_ship = "AWAITING_COLLECTION"
order_status shipped = "IN_TRANSIT"
order_status in_delivery = "IN_TRANSIT"
order_status delivered = "DELIVERED"
order_status completed = "COMPLETED"
order_status cancelled = "CANCEL"
order_status returned = "CANCEL"
order_status (other s) = s

-- The `switch` of `CanonicalOrderStatuses`.
unfoldable pub statuses_of : String → Option (List Status)
statuses_of s =
    if str_eq s "UNPAID"
    then some (unpaid ∷ [])
    else if str_eq s "ON_HOLD"
    then some (paid ∷ [])
    else if str_eq s "AWAITING_SHIPMENT"
    then some (processing ∷ [])
    else if str_eq s "AWAITING_COLLECTION"
    then some (ready_to_ship ∷ [])
    else if str_eq s "IN_TRANSIT"
    then some (shipped ∷ in_delivery ∷ [])
    else if str_eq s "DELIVERED"
    then some (delivered ∷ [])
    else if str_eq s "COMPLETED"
    then some (completed ∷ [])
    else if str_eq s "CANCEL"
    then some (cancelled ∷ returned ∷ [])
    else none

-- `CanonicalOrderStatuses`
unfoldable pub canonical_order_statuses : Strings → String → Option (List Status)
canonical_order_statuses str status = statuses_of (str.to_upper (str.trim_space status))

abbrev pub lists : Status → Option (List Status) → Bool
lists s none = false
lists s (some found) = has s found
  where
    has : Status → List Status → Bool
    has s [] = false
    has s (x ∷ xs) = same_status s x || has s xs

-- Searching by the provider's status of an order finds the order's own status among the results, for
-- every status of the lifecycle whose provider text is left alone by trimming and upper-casing.
pub canonical_order_statuses-order_status :
    (str : Strings) (s : Status)
    → ((text : String) → s ≡ other text → ⊥)
    → str.to_upper (str.trim_space (order_status s)) ≡ order_status s
    → lists s (canonical_order_statuses str (order_status s)) ≡ true
unfolding canonical_order_statuses statuses_of order_status
canonical_order_statuses-order_status str unpaid known plain = rw plain refl
canonical_order_statuses-order_status str paid known plain = rw plain refl
canonical_order_statuses-order_status str processing known plain = rw plain refl
canonical_order_statuses-order_status str ready_to_ship known plain = rw plain refl
canonical_order_statuses-order_status str shipped known plain = rw plain refl
canonical_order_statuses-order_status str in_delivery known plain = rw plain refl
canonical_order_statuses-order_status str delivered known plain = rw plain refl
canonical_order_statuses-order_status str completed known plain = rw plain refl
canonical_order_statuses-order_status str cancelled known plain = rw plain refl
canonical_order_statuses-order_status str returned known plain = rw plain refl
canonical_order_statuses-order_status str (other text) known plain = absurd (known text refl)
