-- ===== src/Tests/Fixtures.antt =====
-- One shop with one warehouse, one product and one unpaid order.
use enterprise_integration_s.Common.{true, none, some, [], ◌∷◌}
use enterprise_integration_s.Common.Int.{pos}
use enterprise_integration_s.Orders.Status.{unpaid}
use enterprise_integration_s.Orders.Provider.{Strings}
use enterprise_integration_s.Orders.State.{pending, LifecycleState}
use enterprise_integration_s.Orders.Service.{Service}
use enterprise_integration_s.Store.{OrderRow, WarehouseRow, Db, Env}
use enterprise_integration_s.Inventory.Allocation.{Line}

abbrev pub env : Env
env = record { now = 100; new_id = λ prefix n. prefix }

abbrev pub strings : Strings
strings = record { to_upper = λ s. s; to_lower = λ s. s; trim_space = λ s. s }

abbrev pub service : Service
service = record { clock = 100; new_id = λ prefix. "_1"; seller_sla = 1000000 }

abbrev pub warehouse : WarehouseRow
warehouse = record {
  id = "wh1";
  shop_id = "shop1";
  code = "A";
  name = "Main";
  active = true;
  priority = pos 1;
}

abbrev pub order_row : OrderRow
order_row = record {
  id = "ord1";
  order_number = "SIM-1";
  shop_id = "shop1";
  status = unpaid;
  payment_status = pending;
  payment_reference = "";
  paid_at = none;
  payment_expires_at = some 200;
  payment_failed_at = none;
  payment_failure_reason = "";
  seller_deadline_at = none;
  deadline_claimed_until = none;
  cancellation_actor = "";
  cancellation_reason = "";
  fulfillment_warehouse_id = none;
  total_amount = pos 1500;
}

abbrev pub line : Line
line = record { order_item_id = "item1"; product_id = "prd1"; quantity = pos 3 }

abbrev pub db : Db
db = record {
  shops = record { id = "shop1"; provider_profile = "SHOPEE_LIKE" } ∷ [];
  orders = order_row ∷ [];
  warehouses = warehouse ∷ [];
  inventory =
      record {
        warehouse_id = "wh1";
        product_id = "prd1";
        on_hand_quantity = 10;
        reserved_quantity = 0;
      }
      ∷ [];
  products =
      record {
        id = "prd1";
        shop_id = "shop1";
        sku = "S1";
        name = "Cup";
        category = "Mugs";
        description = "";
        price = 500;
        status = "ACTIVE";
        stock = 10;
      }
      ∷ [];
  reservations = [];
  order_items = [];
  packages = [];
  package_items = [];
  shipments = [];
  events = [];
  outbox = [];
  drawn = 0;
}

abbrev pub state : LifecycleState
state = record {
  status = unpaid;
  provider = "SHOPEE_LIKE";
  payment_status = pending;
  payment_expires = some 200;
  seller_deadline = none;
}
