-- ===== src/Inventory/Allocation.antt =====
-- internal/inventory/reservation.go: the statements and loops, with the CHECK and UNIQUE constraints
-- that the tables put on them (migrations 007 and 008). An order of the same product's lines is the
-- one that insertion sort gives; Go's sort.Slice may choose another.
use enterprise_integration_s.Common.{
  ℕ, suc, ◌+◌, ◌-◌, ◌%◌, ◌^◌, String, Bool, true, false, ◌&&◌, ◌||◌, not, none, some, List, [], ◌∷◌,
  Result, ok, err, ◌>>=◌, str_eq, if◌then◌else◌, ltb, leb, ◌==◌, is_some,
}
use enterprise_integration_s.Common.Int.{ℤ, pos, negsuc, ltb_ℤ}
use enterprise_integration_s.Common.Table.{update_where, affected, select_where, query_row}
use enterprise_integration_s.Common.Sorting.{sort_by, text_before}
use enterprise_integration_s.Store.{
  WarehouseRow, InventoryRow, ProductRow, active, ReservationRow, Db, Env,
}

pub data Error : Type 0 where
  no_eligible_warehouse : Error
  text : String → Error

-- `Line`; Quantity is a signed int.
pub record Line : Type 0 where
  pub order_item_id : String
  pub product_id : String
  pub quantity : ℤ

abbrev pub units : ℤ → ℕ
units (pos n) = n
units (negsuc _) = 0

abbrev pub is_positive : ℤ → Bool
is_positive (pos n) = ltb 0 n
is_positive (negsuc _) = false

-- `required[key]` and `required[key] += n` on a Go map; int is 64 bits wide.
unfoldable pub required_of : String → List (String × ℕ) → ℕ
required_of key [] = 0
required_of key ((k, n) ∷ rest) =
    let more = required_of key rest in if str_eq k key then n else more

unfoldable pub add_required : String → ℕ → List (String × ℕ) → List (String × ℕ)
add_required key n [] = (key, n % 2 ^ 64) ∷ []
add_required key n ((k, m) ∷ rest) =
    let more = (k, m) ∷ add_required key n rest in
    if str_eq k key then (k, (m + n) % 2 ^ 64) ∷ rest else more

unfoldable pub aggregate_from : List (String × ℕ) → List Line → Result Error (List (String × ℕ))
aggregate_from required [] = ok required
aggregate_from required (line ∷ lines) =
    let rest = aggregate_from (add_required line.product_id (units line.quantity) required) lines in
    if str_eq line.product_id "" || str_eq line.order_item_id "" || not (is_positive line.quantity)
    then err no_eligible_warehouse
    else rest

-- `aggregateRequiredQuantity`
unfoldable pub aggregate_required_quantity : List Line → Result Error (List (String × ℕ))
unfolding aggregate_from
aggregate_required_quantity = aggregate_from []

-- ORDER BY priority DESC, code ASC
abbrev pub warehouse_before : WarehouseRow → WarehouseRow → Bool
warehouse_before a b =
    ltb_ℤ b.priority a.priority || (not (ltb_ℤ a.priority b.priority) && text_before a.code b.code)

unfoldable pub active_warehouses : String → Db → List WarehouseRow
active_warehouses shop db =
    sort_by warehouse_before (select_where (λ w. str_eq w.shop_id shop && w.active) db.warehouses)

-- WHERE warehouse_id=$ AND product_id=$
abbrev pub stored_at : String → String → InventoryRow → Bool
stored_at warehouse product r = str_eq r.warehouse_id warehouse && str_eq r.product_id product

-- `onHand-reserved < required`, where a required quantity from 2 ^ 63 on reads as negative.
abbrev pub is_short : InventoryRow → ℕ → Bool
is_short r required =
    ltb required (2 ^ 63) && ltb r.on_hand_quantity (r.reserved_quantity + required)

-- The loop over the product identifiers for one warehouse: a missing row or a short one excludes it.
unfoldable pub is_eligible : String → List (String × ℕ) → List InventoryRow → Bool
is_eligible warehouse [] rows = true
is_eligible warehouse ((product, required) ∷ rest) rows =
    let others = is_eligible warehouse rest rows in
    elim (query_row (stored_at warehouse product) rows) [
      | none ↦ false
      | some r ↦ if is_short r required then false else others
    ]

-- The CHECK constraints of warehouse_inventory on every row.
unfoldable pub all_within : List InventoryRow → Bool
all_within [] = true
all_within (r ∷ rows) = leb r.reserved_quantity r.on_hand_quantity && all_within rows

abbrev pub reserve_row : ℕ → InventoryRow → InventoryRow
reserve_row n r = record r { reserved_quantity = r.reserved_quantity + n }

abbrev pub sellable : String → ℕ → ProductRow → Bool
sellable product n r = str_eq r.id product && str_eq r.status "ACTIVE" && leb n r.stock

abbrev pub take_stock : ℕ → ProductRow → ProductRow
take_stock n r = record r { stock = r.stock - n }

module _ (env : Env) where
  open env use {now, new_id}

  -- The row that the INSERT of one line adds.
  abbrev pub new_reservation : String → String → Line → Db → ReservationRow
  new_reservation order warehouse line db = record {
    id = new_id "res" db.drawn;
    order_id = order;
    order_item_id = line.order_item_id;
    product_id = line.product_id;
    warehouse_id = warehouse;
    quantity = units line.quantity;
    fulfilled_quantity = 0;
    status = active;
    committed_at = none;
    released_at = none;
  }

  -- The two UPDATEs and the INSERT of one line.
  abbrev pub write_line : String → String → Line → Db → Db
  write_line order warehouse line db =
      let n = units line.quantity in
      record db {
        inventory = update_where (stored_at warehouse line.product_id) (reserve_row n) db.inventory;
        products = update_where (sellable line.product_id n) (take_stock n) db.products;
        reservations = new_reservation order warehouse line db ∷ db.reservations;
        drawn = suc db.drawn;
      }

  -- The body of the loop over the ordered lines of `Allocate`: the CHECK constraint of the first
  -- statement, RowsAffected of the second, and the UNIQUE columns of the third.
  unfoldable pub reserve_line : String → String → Line → Db → Result Error Db
  reserve_line order warehouse line db =
      let db' = write_line order warehouse line db in
      if not (all_within db'.inventory)
      then err (text "reserve warehouse inventory")
      else if not (affected (sellable line.product_id (units line.quantity)) db.products == 1)
      then err (text "product availability drift")
      else if is_some (
          query_row
            (λ r. str_eq r.id (new_id "res" db.drawn) || str_eq r.order_item_id line.order_item_id)
            db.reservations)
      then err (text "record inventory reservation")
      else ok db'

  unfoldable pub reserve_lines : String → String → List Line → Db → Result Error Db
  reserve_lines order warehouse [] db = ok db
  reserve_lines order warehouse (line ∷ lines) db =
      reserve_line order warehouse line db >>= reserve_lines order warehouse lines

  unfoldable pub assign_warehouse : String → String → Db → Db
  assign_warehouse order warehouse db = record db {
    orders =
        update_where (λ r. str_eq r.id order)
          (λ r. record r { fulfillment_warehouse_id = some warehouse }) db.orders;
  }

  -- The loop over the candidates: the first eligible one takes every line.
  unfoldable pub allocate_from :
      String
      → List (String × ℕ)
      → List Line
      → List WarehouseRow
      → Db
      → Result Error (WarehouseRow × Db)
  unfolding assign_warehouse
  allocate_from order required lines [] db = err no_eligible_warehouse
  allocate_from order required lines (warehouse ∷ rest) db =
      let others = allocate_from order required lines rest db in
      elim (is_eligible warehouse.id required db.inventory) [
        | true ↦
            (reserve_lines order warehouse.id lines db >>= λ db'.
            ok (warehouse, assign_warehouse order warehouse.id db'))
        | false ↦ others
      ]

  -- `Allocate`
  unfoldable pub allocate : String → String → List Line → Db → Result Error (WarehouseRow × Db)
  allocate shop order [] db = err no_eligible_warehouse
  allocate shop order (line ∷ lines) db = do
    let ordered = sort_by (λ a b. text_before a.product_id b.product_id) (line ∷ lines)
    required ← aggregate_required_quantity ordered
    allocate_from order (sort_by (λ a b. text_before a.0 b.0) required) ordered
        (active_warehouses shop db) db
