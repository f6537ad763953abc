-- ===== src/Tests/SimulationTests.antt =====
-- A simulated order of three cups.
use enterprise_integration_s.Common.{refl, none, some, [], ◌∷◌, ◌≡◌, ok}
use enterprise_integration_s.Common.Int.{pos}
use enterprise_integration_s.Common.Sorting.{sort_by}
use enterprise_integration_s.Orders.State.{entry}
use enterprise_integration_s.Store.{OrderRow, active, Db}
use enterprise_integration_s.Events.{record_event}
use enterprise_integration_s.Inventory.Allocation.{
  allocate, allocate_from, aggregate_required_quantity, active_warehouses, is_eligible,
  reserve_lines, reserve_line, all_within, add_required, assign_warehouse,
}
use enterprise_integration_s.Inventory.Invariant.{Inv}
use enterprise_integration_s.Simulation.{
  OrderedItem, place_order, insert_order, add_items, add_item, insert_item, set_total,
}
use enterprise_integration_s.Simulation.Total.{Placed, place_order-Placed}
use enterprise_integration_s.Tests.Fixtures.{env, strings, order_row, db}
use enterprise_integration_s.Tests.InventoryTests.{db-Inv}

abbrev three_cups : OrderedItem
three_cups = record { product_id = "prd1"; quantity = pos 3 }

abbrev placed_row : OrderRow
placed_row = record order_row {
  id = "ord";
  order_number = "SIM-";
  payment_expires_at = some 150;
  fulfillment_warehouse_id = some "wh1";
}

abbrev placed_db : Db
placed_db = record db {
  orders = placed_row ∷ order_row ∷ [];
  inventory =
      record {
        warehouse_id = "wh1";
        product_id = "prd1";
        on_hand_quantity = 10;
        reserved_quantity = 3;
      }
      ∷ [];
  products =
      record {
        id = "prd1";
        shop_id = "shop1";
        sku = "S1";
        name = "Cup";
        category = "Mugs";
        description = "";
        price = 500;
        status = "ACTIVE";
        stock = 7;
      }
      ∷ [];
  reservations =
      record {
        id = "res";
        order_id = "ord";
        order_item_id = "item";
        product_id = "prd1";
        warehouse_id = "wh1";
        quantity = 3;
        fulfilled_quantity = 0;
        status = active;
        committed_at = none;
        released_at = none;
      }
      ∷ [];
  order_items =
      record {
        id = "item";
        order_id = "ord";
        product_id = "prd1";
        sku = "S1";
        product_name = "Cup";
        price = 500;
        quantity = 3;
        subtotal = pos 1500;
      }
      ∷ [];
  events =
      record {
        id = "evt";
        shop_id = "shop1";
        event_type = "order.created";
        aggregate_id = "ord";
        payload =
            entry "id" "ord"
            ∷ entry "order_number" "SIM-"
            ∷ entry "status" "UNPAID"
            ∷ entry "fulfillment_warehouse_id" "wh1"
            ∷ [];
      }
      ∷ [];
  outbox = record { id = "out"; event_id = "evt"; published_at = none; created_at = 100 } ∷ [];
  drawn = 6;
}

place-run : place_order strings env 50 "shop1" (three_cups ∷ []) db ≡ ok placed_db
unfolding place_order insert_order add_items add_item insert_item set_total record_event allocate
    allocate_from aggregate_required_quantity sort_by active_warehouses is_eligible reserve_lines
    reserve_line all_within add_required assign_warehouse
place-run = refl

place_order-Placed_example : Inv placed_db × Placed env 1 db placed_db
place_order-Placed_example =
    place_order-Placed strings env 50 "shop1" (three_cups ∷ []) db placed_db place-run db-Inv
