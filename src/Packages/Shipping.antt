-- ===== src/Packages/Shipping.antt =====
-- createShipmentForOrder of internal/server/provider_fulfillment.go: the shipment of a package, or of
-- a new package of all that the order has left.
pub mod Rest
pub mod Safety
use enterprise_integration_s.Common.{
  ℕ, suc, String, concat, Bool, true, false, ◌&&◌, ◌||◌, not, Option, none, some, List, [], ◌∷◌,
  ◌++◌, Result, ok, err, ◌>>=◌, str_eq, if◌then◌else◌, is_some, ◌==◌,
}
use enterprise_integration_s.Common.Table.{affected, query_row}
use enterprise_integration_s.Orders.Provider.{Strings}
use enterprise_integration_s.Orders.State.{Error, text}
use enterprise_integration_s.Store.{
  OrderItemRow, PackageItemRow, PackageRow, PackageStatus, ready_to_ship, follows, ShipmentRow,
  created, Db, Env,
}
use enterprise_integration_s.Inventory.Allocation.{units, is_positive}
use enterprise_integration_s.Repository.{order_in}
use enterprise_integration_s.Packages.{
  in_package, remaining, insert_package, commit_package, found_row, fulfillment_of,
}
use Prim.Native.String.{slice, len}

-- `shipmentInput`
pub record ShipmentInput : Type 0 where
  pub shipping_provider : String
  pub pickup_type : String
  pub package_id : String

-- INSERT INTO package_items SELECT ... GROUP BY oi.id HAVING a positive rest: the rows it adds.
unfoldable pub remaining_contents :
    String → String → List OrderItemRow → List PackageItemRow → List PackageItemRow
remaining_contents parcel order [] rows = []
remaining_contents parcel order (oi ∷ items) rows =
    let rest = remaining_contents parcel order items rows in
    let left = remaining oi rows in
    if str_eq oi.order_id order && is_positive left
    then record { package_id = parcel; order_item_id = oi.id; quantity = units left } ∷ rest
    else rest

-- The same statement: its error on a key that is taken, and RowsAffected.
unfoldable pub insert_remaining : String → String → Db → Result Error Db
insert_remaining parcel order db =
    let added = remaining_contents parcel order db.order_items db.package_items in
    elim added [
      | [] ↦ err (text "order has no remaining items to package")
      | i ∷ rest ↦
          if is_some (query_row (in_package parcel) db.package_items)
          then err (text "assign package items")
          else ok (record db { package_items = (i ∷ rest) ++ db.package_items })
    ]

abbrev pub is_ready : PackageStatus → Bool
is_ready ready_to_ship = true
is_ready (follows _) = false

-- The checks on a package that the request names.
unfoldable pub check_package : Option PackageRow → List PackageItemRow → Result Error (Unit {0})
check_package none rows = err (text "package does not belong to order")
check_package (some p) rows =
    if not (is_ready p.status)
    then err (text "package must be READY_TO_SHIP")
    else if affected (in_package p.id) rows == 0
    then err (text "package must contain at least one item")
    else ok tt

abbrev pub new_shipment : String → String → String → String → ShipmentInput → ShipmentRow
new_shipment id order parcel tracking input = record {
  id = id;
  order_id = order;
  package_id = some parcel;
  tracking_number = tracking;
  shipping_provider = input.shipping_provider;
  pickup_type = input.pickup_type;
  status = created;
  delivery_failure_reason = "";
  shipped_at = none;
  delivered_at = none;
  failed_at = none;
  returning_at = none;
  returned_at = none;
}

abbrev pub ships : String → Option String → Bool
ships parcel none = false
ships parcel (some p) = str_eq p parcel

-- INSERT INTO shipments, with its three unique columns.
unfoldable pub insert_shipment : ShipmentRow → String → Db → Result Error Db
insert_shipment s parcel db =
    if is_some (
      query_row
        (λ x.
          (str_eq x.id s.id || str_eq x.tracking_number s.tracking_number)
          || ships parcel x.package_id)
        db.shipments)
    then err (text "create shipment")
    else ok (record db { shipments = s ∷ db.shipments })

module _ (str : Strings) (env : Env) where
  -- The input, trimmed and checked.
  unfoldable pub readable_input : ShipmentInput → Result Error ShipmentInput
  readable_input input =
      let provider = str.trim_space input.shipping_provider in
      let pickup = str.to_upper (str.trim_space input.pickup_type) in
      if str_eq provider "" || str_eq (str.trim_space input.pickup_type) ""
      then err (text "shipping_provider and pickup_type are required")
      else if not (str_eq pickup "PICKUP")
      then err (text "pickup_type must be PICKUP")
      else ok (record {
        shipping_provider = provider;
        pickup_type = pickup;
        package_id = str.trim_space input.package_id;
      })

  -- "GX" + strings.ToUpper(platform.NewID(""))[1:]
  abbrev pub tracking_of : ℕ → String
  tracking_of drawn =
      let raw = str.to_upper (env.new_id "" drawn) in concat "GX" (slice raw 1 (len raw))

  -- A new package of all that is left.
  unfoldable pub ship_rest : String → String → ShipmentInput → Db → Result Error Db
  unfolding insert_package insert_remaining insert_shipment commit_package
  ship_rest order warehouse input db = do
    let parcel = env.new_id "pkg" (suc (suc db.drawn))
    let shipment =
        new_shipment (env.new_id "shp" db.drawn) order parcel (tracking_of (suc db.drawn)) input
    opened ← insert_package parcel order warehouse (record db { drawn = suc (suc (suc db.drawn)) })
    filled ← insert_remaining parcel order opened
    shipped ← insert_shipment shipment parcel filled
    commit_package parcel shipped

  -- A package that the request names.
  unfoldable pub ship_package : String → String → ShipmentInput → Db → Result Error Db
  unfolding check_package insert_shipment
  ship_package order warehouse input db = do
    let parcel = input.package_id
    let shipment =
        new_shipment (env.new_id "shp" db.drawn) order parcel (tracking_of (suc db.drawn)) input
    _ ←
        check_package
          (query_row
            (λ p.
              (str_eq p.id parcel && str_eq p.order_id order) && str_eq p.warehouse_id warehouse)
            db.packages)
          db.package_items
    insert_shipment shipment parcel (record db { drawn = suc (suc db.drawn) })

  -- `createShipmentForOrder`
  unfoldable pub create_shipment_for_order : String → String → ShipmentInput → Db → Result Error Db
  unfolding readable_input fulfillment_of
  create_shipment_for_order shop order raw db = do
    input ← readable_input raw
    o ← found_row "no rows in result set" (query_row (order_in shop order) db.orders)
    warehouse ← fulfillment_of "shipment can only be created for READY_TO_SHIP orders" o
    if str_eq input.package_id ""
        then ship_rest order warehouse input db
        else ship_package order warehouse input db
