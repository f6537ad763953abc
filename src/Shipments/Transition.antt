-- ===== src/Shipments/Transition.antt =====
-- transitionShipment and shipmentAction of internal/server/lifecycle_handlers.go.
use enterprise_integration_s.Common.{
  ℕ, String, Bool, true, false, ◌&&◌, not, Option, none, some, [], ◌∷◌, ◌++◌, Result, ok, err,
  ◌>>=◌, str_eq, if◌then◌else◌,
}
use enterprise_integration_s.Common.Table.{update_where, query_row}
use enterprise_integration_s.Orders.Status.{
  Status, shipped as order_shipped, in_delivery as order_in_delivery, delivered as order_delivered,
  returned as order_returned, other,
}
use enterprise_integration_s.Orders.Provider.{Strings}
use enterprise_integration_s.Orders.State.{Error, text, entry}
use enterprise_integration_s.Store.{
  ShipmentStatus, created, shipped, in_delivery, delivered, delivery_failed, returning, returned,
  PackageRow, follows, ShipmentRow, Db, Env,
}
use enterprise_integration_s.Events.{record_event}
use enterprise_integration_s.Inventory.Holding.{fulfill_package}
use enterprise_integration_s.Repository.{order_in, inventory_error}
use enterprise_integration_s.Shipments.{
  found_order, transition_tx, can_ship, outstanding, moves_order,
}

abbrev pub shipment_is : String → ShipmentRow → Bool
shipment_is id s = str_eq s.id id

abbrev pub found_shipment : Option ShipmentRow → Result Error ShipmentRow
found_shipment none = err (text "no rows in result set")
found_shipment (some s) = ok s

-- COALESCE(s.package_id,'')
abbrev pub package_of : Option String → String
package_of none = ""
package_of (some id) = id

-- The SET list of the UPDATE of shipments.
abbrev pub stamp : Bool → ℕ → Option ℕ → Option ℕ
stamp set now old = if set then some now else old

abbrev pub same_shipment : ShipmentStatus → ShipmentStatus → Bool
same_shipment created created = true
same_shipment shipped shipped = true
same_shipment in_delivery in_delivery = true
same_shipment delivered delivered = true
same_shipment delivery_failed delivery_failed = true
same_shipment returning returning = true
same_shipment returned returned = true
same_shipment _ _ = false

abbrev pub moved_shipment : ℕ → ShipmentStatus → String → ShipmentRow → ShipmentRow
moved_shipment now target reason s = record s {
  status = target;
  delivery_failure_reason =
      if same_shipment target delivery_failed then reason else s.delivery_failure_reason;
  shipped_at = stamp (same_shipment target shipped) now s.shipped_at;
  delivered_at = stamp (same_shipment target delivered) now s.delivered_at;
  failed_at = stamp (same_shipment target delivery_failed) now s.failed_at;
  returning_at = stamp (same_shipment target returning) now s.returning_at;
  returned_at = stamp (same_shipment target returned) now s.returned_at;
}

-- Consuming the package's stock when its shipment is first SHIPPED.
abbrev pub consume_package : ShipmentStatus → String → Db → Result Error Db
consume_package shipped parcel db =
    if str_eq parcel ""
    then err (text "shipment does not have a fulfillment package")
    else inventory_error "fulfill package inventory" (fulfill_package parcel db)
consume_package _ parcel db = ok db

abbrev pub write_shipment : ℕ → String → ShipmentStatus → String → String → Db → Db
write_shipment now shipment target reason parcel db = record db {
  shipments = update_where (shipment_is shipment) (moved_shipment now target reason) db.shipments;
  packages =
      if str_eq parcel ""
      then db.packages
      else update_where (λ (p : PackageRow). str_eq p.id parcel)
          (λ p. record p { status = follows target }) db.packages;
}

-- shipmentEvent, with the status text of its payload.
abbrev pub shipment_event : ShipmentStatus → Option (String × String)
shipment_event delivery_failed = some ("shipment.delivery_failed", "DELIVERY_FAILED")
shipment_event returning = some ("shipment.returning", "RETURNING")
shipment_event returned = some ("shipment.returned", "RETURNED")
shipment_event _ = none

abbrev pub record_shipment :
    Env → String → String → String → String → Option (String × String) → Db → Db
record_shipment env shop shipment order reason none db = db
record_shipment env shop shipment order reason (some (event_type, status)) db =
    record_event env shop event_type shipment
      ((entry "id" shipment ∷ entry "order_id" order ∷ entry "status" status ∷ [])
        ++ (if str_eq reason "" then [] else entry "reason" reason ∷ []))
      db

module _ (str : Strings) (env : Env) (sla_seconds : ℕ) where
  -- `transitionShipment`, without the Begin and Commit that bracket it.
  unfoldable pub transition_shipment :
      String → String → ShipmentStatus → Status → String → Db → Result Error Db
  transition_shipment shop shipment target order_target reason db = do
    s ← found_shipment (query_row (shipment_is shipment) db.shipments)
    o ← found_order (query_row (order_in shop s.order_id) db.orders)
    let parcel = package_of s.package_id
    _ ← (if not (can_ship s.status target) then err (text "cannot transition shipment") else ok tt)
    move ← moves_order target o.status order_target (outstanding s.order_id db)
    consumed ← consume_package target parcel db
    let written = write_shipment env.now shipment target reason parcel consumed
    moved ←
        (if move
          then transition_tx str env sla_seconds shop s.order_id order_target "" written
          else ok written)
    ok (record_shipment env shop shipment s.order_id reason (shipment_event target) moved)

-- targets of shipmentAction
unfoldable pub shipment_target : String → Option (ShipmentStatus × Status)
shipment_target action =
    if str_eq action "SHIP"
    then some (shipped, order_shipped)
    else if str_eq action "IN_DELIVERY"
    then some (in_delivery, order_in_delivery)
    else if str_eq action "DELIVER"
    then some (delivered, order_delivered)
    else if str_eq action "DELIVERY_FAILED"
    then some (delivery_failed, other "")
    else if str_eq action "RETURN_TO_SENDER"
    then some (returning, other "")
    else if str_eq action "COMPLETE_RETURN"
    then some (returned, order_returned)
    else none

-- What a handler answers: a status code, with the tables as they are afterwards.
abbrev pub respond : Result Error Db → Db → Db × ℕ
respond (ok db') db = (db', 200)
respond (err e) db = (db, 400)

abbrev pub found_shop : Option ShipmentRow → Db → Option String
found_shop none db = none
found_shop (some s) db = elim (query_row (λ o. str_eq o.id s.order_id) db.orders) [
  | none ↦ none
  | some o ↦ some o.shop_id
]

module _ (str : Strings) (env : Env) (sla_seconds : ℕ) (may_access : String → Bool) where
  act_on : String → String → String → Option (ShipmentStatus × Status) → Db → Db × ℕ
  act_on shop shipment reason none db = (db, 400)
  act_on shop shipment reason (some (target, order_target)) db =
      if same_shipment target delivery_failed && str_eq (str.trim_space reason) ""
      then (db, 400)
      else respond
          (transition_shipment str env sla_seconds shop shipment target order_target
            (str.trim_space reason) db)
          db

  act_in : Option String → String → String → String → Db → Db × ℕ
  unfolding act_on
  act_in none shipment action reason db = (db, 404)
  act_in (some shop) shipment action reason db =
      if not (may_access shop)
      then (db, 403)
      else act_on shop shipment reason (shipment_target (str.to_upper action)) db

  -- `shipmentAction`, on a request with a readable body.
  unfoldable pub shipment_action : String → String → String → Db → Db × ℕ
  unfolding act_in
  shipment_action shipment action reason db =
      act_in (found_shop (query_row (shipment_is shipment) db.shipments) db) shipment action reason
        db
