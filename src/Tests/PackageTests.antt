-- ===== src/Tests/PackageTests.antt =====
-- Packages and shipments of one paid order of three cups.
use enterprise_integration_s.Common.{◌≡◌, ◌↔◌, refl, true, none, some, [], ◌∷◌, ok, arith}
use enterprise_integration_s.Common.Int.{pos}
use enterprise_integration_s.Common.Table.{All}
use enterprise_integration_s.Common.Sorting.{sort_by}
use enterprise_integration_s.Orders.Status.{
  ready_to_ship, shipped as order_shipped, can_transition, status_text,
}
use enterprise_integration_s.Orders.State.{settled, entry}
use enterprise_integration_s.Store.{ReservationRow, committed, fulfilled, Db, shipped, follows}
use enterprise_integration_s.Events.{record_event}
use enterprise_integration_s.Inventory.Holding.{
  package_fulfillments, join_reservations, join_items, fulfill_package, fulfill_locked,
  fulfill_items, fulfill_item, all_fulfillable,
}
use enterprise_integration_s.Inventory.Invariant.{Inv}
use enterprise_integration_s.Inventory.Invariant.Fulfill.Package.{
  IsReserved, IsFulfilled, fulfill_package-Inv,
}
use enterprise_integration_s.Packages.{
  Allocation, PackageInput, requested, fill_package, create_package_for_order, fulfillment_of,
  insert_package, pack_items, pack_item, insert_content, commit_package, all_allocations,
  new_package,
}
use enterprise_integration_s.Packages.Control.{create_control_package}
use enterprise_integration_s.Packages.Control.Agreement.{create_control_package-agrees}
use enterprise_integration_s.Packages.Contents.{Packed}
use enterprise_integration_s.Packages.Contents.Created.{
  PackageCreated, fill_unchecked, fill_package-unchecked, create_package_for_order-Packed,
}
use enterprise_integration_s.Packages.Shipping.{
  ShipmentInput, create_shipment_for_order, readable_input, ship_rest, insert_remaining,
  remaining_contents, insert_shipment, new_shipment,
}
use enterprise_integration_s.Packages.Shipping.Safety.{
  HasOneShipment, NewShipment, IsAllPacked, create_shipment_for_order-NewShipment,
}
use enterprise_integration_s.Shipments.{transition_tx, check_move, moves_order, can_ship}
use enterprise_integration_s.Shipments.Transition.{transition_shipment}
use enterprise_integration_s.Shipments.Stock.{transition_shipment-Inv}
use enterprise_integration_s.Tests.Fixtures.{env, strings, order_row, db}

abbrev reservation : ReservationRow
reservation = record {
  id = "res1";
  order_id = "ord1";
  order_item_id = "item1";
  product_id = "prd1";
  warehouse_id = "wh1";
  quantity = 3;
  fulfilled_quantity = 0;
  status = committed;
  committed_at = some 50;
  released_at = none;
}

abbrev ready : Db
ready = record db {
  orders =
      record order_row {
        status = ready_to_ship;
        payment_status = settled;
        fulfillment_warehouse_id = some "wh1";
      }
      ∷ [];
  inventory =
      record {
        warehouse_id = "wh1";
        product_id = "prd1";
        on_hand_quantity = 10;
        reserved_quantity = 3;
      }
      ∷ [];
  products =
      record {
        id = "prd1";
        shop_id = "shop1";
        sku = "S1";
        name = "Cup";
        category = "Mugs";
        description = "";
        price = 500;
        status = "ACTIVE";
        stock = 7;
      }
      ∷ [];
  reservations = reservation ∷ [];
  order_items =
      record {
        id = "item1";
        order_id = "ord1";
        product_id = "prd1";
        sku = "S1";
        product_name = "Cup";
        price = 500;
        quantity = 3;
        subtotal = pos 1500;
      }
      ∷ [];
}

abbrev two_cups : Allocation
two_cups = record { order_item_id = "item1"; quantity = pos 2 }

abbrev request : PackageInput
request = record { order_item_ids = []; items = two_cups ∷ [] }

abbrev packed : Db
packed = record ready {
  packages = new_package "pkg" "ord1" "wh1" ∷ [];
  package_items = record { package_id = "pkg"; order_item_id = "item1"; quantity = 2 } ∷ [];
  drawn = 1;
}

ready-Packed : Packed ready
ready-Packed = record {
  one_item = λ item. ground arith;
  one_content = λ p i. ground arith;
  fits = (ground arith, tt);
  filled = tt;
}

create-run : create_package_for_order env "shop1" "ord1" request ready ≡ ok packed
unfolding create_package_for_order requested fulfillment_of fill_package insert_package pack_items
    pack_item insert_content commit_package all_allocations
create-run = refl

create_package_for_order-Packed_example :
    Packed packed × PackageCreated env "ord1" (requested request) ready packed
unfolding requested
create_package_for_order-Packed_example =
    create_package_for_order-Packed env "shop1" "ord1" request ready packed create-run ready-Packed

fill_package-unchecked_example :
    fill_package env "ord1" "wh1" (two_cups ∷ []) ready
    ≡ fill_unchecked env "ord1" "wh1" (two_cups ∷ []) ready
fill_package-unchecked_example =
    fill_package-unchecked env "ord1" "wh1" two_cups [] ready ready-Packed

create_control_package-agrees_example :
    (create_control_package (λ _. true) env "shop1" "ord1" (two_cups ∷ []) ready ≡ (packed, 201))
    ↔ (create_package_for_order env "shop1" "ord1" request ready ≡ ok packed)
create_control_package-agrees_example =
    create_control_package-agrees (λ _. true) env "shop1" "ord1" two_cups [] ready packed refl refl
      ready-Packed.one_item (refl, tt)

abbrev asked : ShipmentInput
asked = record { shipping_provider = "JNE"; pickup_type = "PICKUP"; package_id = "" }

abbrev sent : Db
sent = record ready {
  packages = new_package "pkg" "ord1" "wh1" ∷ [];
  package_items = record { package_id = "pkg"; order_item_id = "item1"; quantity = 3 } ∷ [];
  shipments = new_shipment "shp" "ord1" "pkg" "GX" asked ∷ [];
  drawn = 3;
}

send-run : create_shipment_for_order strings env "shop1" "ord1" asked ready ≡ ok sent
unfolding create_shipment_for_order readable_input fulfillment_of ship_rest insert_package
    insert_remaining remaining_contents insert_shipment commit_package all_allocations
send-run = refl

create_shipment_for_order-NewShipment_example :
    Packed sent
    × HasOneShipment sent
    × NewShipment "ord1" ready sent
    × (strings.trim_space asked.package_id ≡ "" → IsAllPacked "ord1" sent)
create_shipment_for_order-NewShipment_example =
    create_shipment_for_order-NewShipment strings env "shop1" "ord1" asked ready sent send-run
      ready-Packed (λ p. ground arith)

sent-Inv : Inv sent
sent-Inv = record {
  conserved = λ p. ground arith;
  accounted = λ w p. ground arith;
  keyed = record {
    one_stock = λ w p. ground arith;
    one_product = λ p. ground arith;
    known_product = (refl, tt);
  };
}

sent-IsReserved : IsReserved sent
sent-IsReserved = record { one_id = λ id. ground arith; one_item = λ p i. ground arith }

abbrev fulfilled_db : Db
fulfilled_db = record sent {
  inventory =
      record {
        warehouse_id = "wh1";
        product_id = "prd1";
        on_hand_quantity = 7;
        reserved_quantity = 0;
      }
      ∷ [];
  reservations = record reservation { fulfilled_quantity = 3; status = fulfilled } ∷ [];
}

fulfill_package-Inv_example :
    Inv fulfilled_db × All (IsFulfilled fulfilled_db.reservations) (package_fulfillments "pkg" sent)
unfolding fulfill_package package_fulfillments join_reservations join_items sort_by fulfill_locked
    fulfill_items fulfill_item all_fulfillable
fulfill_package-Inv_example =
    fulfill_package-Inv "pkg" sent fulfilled_db refl sent-Inv sent-IsReserved

abbrev travelling : Db
travelling = record fulfilled_db {
  orders =
      record order_row {
        status = order_shipped;
        payment_status = settled;
        fulfillment_warehouse_id = some "wh1";
      }
      ∷ [];
  packages = record (new_package "pkg" "ord1" "wh1") { status = follows shipped } ∷ [];
  shipments =
      record (new_shipment "shp" "ord1" "pkg" "GX" asked) {
        status = shipped;
        shipped_at = some 100;
      }
      ∷ [];
  events =
      record {
        id = "evt";
        shop_id = "shop1";
        event_type = "order.SHIPPED";
        aggregate_id = "ord1";
        payload = entry "id" "ord1" ∷ entry "status" "SHIPPED" ∷ [];
      }
      ∷ [];
  outbox = record { id = "out"; event_id = "evt"; published_at = none; created_at = 100 } ∷ [];
  drawn = 5;
}

transition_shipment-Inv_example : Inv travelling
unfolding transition_shipment transition_tx check_move moves_order can_ship can_transition
    record_event status_text fulfill_package package_fulfillments join_reservations join_items
    sort_by fulfill_locked fulfill_items fulfill_item all_fulfillable
transition_shipment-Inv_example =
    transition_shipment-Inv strings env 172800 "shop1" "shp" shipped order_shipped "" sent
      travelling refl sent-Inv sent-IsReserved
