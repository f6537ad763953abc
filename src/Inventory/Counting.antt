-- ===== src/Inventory/Counting.antt =====
-- A stock count by an operator: updateWarehouseInventory of internal/server/control_inventory.go. A
-- response is its status code. Access control is a parameter, and so is whether expected_updated_at
-- refuses the row that is found, since the model keeps no updated_at column.
use enterprise_integration_s.Common.{
  ℕ, ◌+◌, ◌-◌, ◌^◌, String, Bool, not, ◌||◌, Option, none, some, List, ◌∷◌, str_eq, if◌then◌else◌,
  ltb,
}
use enterprise_integration_s.Common.Int.{ℤ, pos, negsuc}
use enterprise_integration_s.Common.Table.{update_where, query_row}
use enterprise_integration_s.Store.{WarehouseRow, InventoryRow, ProductRow, Db}
use enterprise_integration_s.Inventory.Allocation.{stored_at}
use enterprise_integration_s.Inventory.Holding.{product_is}

abbrev pub on_hand_before : Option InventoryRow → ℕ
on_hand_before none = 0
on_hand_before (some r) = r.on_hand_quantity

abbrev pub reserved_before : Option InventoryRow → ℕ
reserved_before none = 0
reserved_before (some r) = r.reserved_quantity

abbrev pub count_row : ℕ → InventoryRow → InventoryRow
count_row n r = record r { on_hand_quantity = n }

-- INSERT ... ON CONFLICT (warehouse_id,product_id) DO UPDATE SET on_hand_quantity
abbrev pub upsert_count :
    String → String → ℕ → Option InventoryRow → List InventoryRow → List InventoryRow
upsert_count warehouse product n none rows =
    record {
      warehouse_id = warehouse;
      product_id = product;
      on_hand_quantity = n;
      reserved_quantity = 0;
    }
    ∷ rows
upsert_count warehouse product n (some _) rows =
    update_where (stored_at warehouse product) (count_row n) rows

-- stock+$1 with $1 = the count less the previous one
abbrev pub adjust_stock : ℕ → ℕ → ProductRow → ProductRow
adjust_stock n previous r = record r { stock = r.stock + n - previous }

abbrev pub counted : String → String → ℕ → Option InventoryRow → Db → Db
counted warehouse product n row db = record db {
  inventory = upsert_count warehouse product n row db.inventory;
  products = update_where (product_is product) (adjust_stock n (on_hand_before row)) db.products;
}

-- The writes; 500 where a column refuses one: both are INTEGER, and CHECK (stock >= 0).
unfoldable pub write_count : String → String → ℕ → Option InventoryRow → ProductRow → Db → Db × ℕ
write_count warehouse product n row p db =
    if ltb n (reserved_before row)
    then (db, 400)
    else if ltb (2 ^ 31 - 1) n
        || ltb (p.stock + n) (on_hand_before row)
        || ltb (2 ^ 31 - 1) (p.stock + n - on_hand_before row)
    then (db, 500)
    else (counted warehouse product n row db, 200)

module _ (may_access : String → Bool) (refuses : Option InventoryRow → Bool) where
  unfoldable pub count_found :
      String → String → ℕ → Option WarehouseRow → Option ProductRow → Db → Db × ℕ
  count_found warehouse product n none p db = (db, 404)
  count_found warehouse product n (some w) none db = (db, 404)
  count_found warehouse product n (some w) (some p) db =
      let row = query_row (stored_at warehouse product) db.inventory in
      if not (str_eq w.shop_id p.shop_id)
      then (db, 404)
      else if not (may_access w.shop_id)
      then (db, 403)
      else if refuses row
      then (db, 409)
      else write_count warehouse product n row p db

  -- `updateWarehouseInventory`
  unfoldable pub update_warehouse_inventory : String → String → ℤ → Db → Db × ℕ
  update_warehouse_inventory warehouse product (negsuc _) db = (db, 400)
  update_warehouse_inventory warehouse product (pos n) db =
      count_found warehouse product n
        (query_row (λ (w : WarehouseRow). str_eq w.id warehouse) db.warehouses)
        (query_row (product_is product) db.products) db
