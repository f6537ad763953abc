-- ===== src/Products/Catalogue.antt =====
-- internal/repository/products/postgres.go: the catalogue on the tables. The numbers of an event's
-- payload are left out, and so are the errors of Begin and Commit.
use enterprise_integration_s.Common.{
  ℕ, ◌^◌, String, Bool, not, ◌&&◌, ◌||◌, Option, none, some, List, [], ◌∷◌, Result, ok, err, ◌>>=◌,
  str_eq, if◌then◌else◌, is_some,
}
use enterprise_integration_s.Common.Int.{ℤ, pos, ltb_ℤ}
use enterprise_integration_s.Common.Table.{update_where, query_row}
use enterprise_integration_s.Orders.State.{Field, entry}
use enterprise_integration_s.Store.{
  ShopRow, WarehouseRow, InventoryRow, ProductRow, ReservationRow, Db, Env,
}
use enterprise_integration_s.Events.{record_event}
use enterprise_integration_s.Inventory.Allocation.{Error, units, stored_at}
use enterprise_integration_s.Inventory.Holding.{is_live, product_is}
use enterprise_integration_s.Inventory.Warehouses.{ensure_default_warehouse}
use enterprise_integration_s.Products.{
  ProductError, duplicate_sku, product_not_found, product_in_use, database_error,
  invalid_product_input, InitialInventory, Product, Patch, Manager, is_negative, is_product_status,
}

-- Whether a signed value goes into a 32-bit INTEGER with a CHECK that it is not negative.
abbrev pub is_count : ℤ → Bool
is_count z = not (ltb_ℤ z (pos 0)) && ltb_ℤ z (pos (2 ^ 31))

-- CHECK (price >= 0) and CHECK (status IN ('ACTIVE', 'INACTIVE', 'DELETED'))
abbrev pub is_storable : ℤ → String → Bool
is_storable price status =
    not (is_negative price) && (is_product_status status || str_eq status "DELETED")

abbrev pub product_row : Product → ProductRow
product_row p = record {
  id = p.id;
  shop_id = p.shop_id;
  sku = p.draft.sku;
  name = p.draft.name;
  category = p.draft.category;
  description = p.draft.description;
  price = units p.draft.price;
  status = p.draft.status;
  stock = units p.draft.stock;
}

abbrev pub is_known_shop : String → Db → Bool
is_known_shop shop db = is_some (query_row (λ (s : ShopRow). str_eq s.id shop) db.shops)

-- INSERT INTO products, with the keys id and (shop_id, sku), the reference to the shop and the
-- checks on price and stock. A duplicate key of either kind is reported as the SKU's.
unfoldable pub insert_product : Product → Db → Result ProductError Db
insert_product p db =
    if not (is_count p.draft.stock) || not (is_storable p.draft.price p.draft.status)
    then err database_error
    else if is_some (query_row (product_is p.id) db.products)
        || is_some (
            query_row (λ (r : ProductRow). str_eq r.shop_id p.shop_id && str_eq r.sku p.draft.sku)
              db.products)
    then err duplicate_sku
    else if not (is_known_shop p.shop_id db)
    then err database_error
    else ok (record db { products = product_row p ∷ db.products })

abbrev pub inventory_row : String → InitialInventory → InventoryRow
inventory_row product a = record {
  warehouse_id = a.warehouse_id;
  product_id = product;
  on_hand_quantity = units a.on_hand_quantity;
  reserved_quantity = 0;
}

-- INSERT INTO warehouse_inventory ... WHERE EXISTS, with its key and its checks.
unfoldable pub insert_inventory : String → String → InitialInventory → Db → Result ProductError Db
insert_inventory shop product a db =
    if not (
      is_some (
        query_row (λ (w : WarehouseRow). str_eq w.id a.warehouse_id && str_eq w.shop_id shop)
          db.warehouses))
    then err invalid_product_input
    else if not (is_count a.on_hand_quantity)
        || is_some (query_row (stored_at a.warehouse_id product) db.inventory)
    then err database_error
    else ok (record db { inventory = inventory_row product a ∷ db.inventory })

unfoldable pub insert_allocations :
    String → String → List InitialInventory → Db → Result ProductError Db
insert_allocations shop product [] db = ok db
insert_allocations shop product (a ∷ rest) db =
    insert_inventory shop product a db >>= insert_allocations shop product rest

abbrev pub defaulted :
    ℤ → Result Error (String × Db) → Result ProductError (List InitialInventory × Db)
defaulted stock (err _) = err database_error
defaulted stock (ok (warehouse, db)) =
    ok (record { warehouse_id = warehouse; on_hand_quantity = stock } ∷ [], db)

-- The initial inventory, or all the stock in the default warehouse.
unfoldable pub allocations_of :
    Product → List InitialInventory → Db → Result ProductError (List InitialInventory × Db)
allocations_of p [] db = defaulted p.draft.stock (ensure_default_warehouse p.shop_id db)
allocations_of p (a ∷ rest) db = ok (a ∷ rest, db)

-- The text fields of an event about a product.
abbrev pub product_payload : ProductRow → List Field
product_payload r =
    entry "id" r.id
    ∷ entry "sku" r.sku
    ∷ entry "name" r.name
    ∷ entry "category" r.category
    ∷ entry "status" r.status
    ∷ []

-- A product of the shop that is not archived.
abbrev pub is_listed : String → String → ProductRow → Bool
is_listed shop product r =
    str_eq r.id product && str_eq r.shop_id shop && not (str_eq r.status "DELETED")

abbrev pub coalesce : {A : Type 0} → Option A → A → A
coalesce none a = a
coalesce (some b) a = b

abbrev pub units_of : Option ℤ → Option ℕ
units_of none = none
units_of (some z) = some (units z)

abbrev pub patched : Patch → ProductRow → ProductRow
patched patch r = record r {
  name = coalesce patch.name r.name;
  category = coalesce patch.category r.category;
  description = coalesce patch.description r.description;
  price = coalesce (units_of patch.price) r.price;
  status = coalesce patch.status r.status;
}

abbrev pub or_missing : {A : Type 0} → Option A → Result ProductError A
or_missing none = err product_not_found
or_missing (some r) = ok r

-- A reservation that still needs the product, which the caller has found in the shop: the join with
-- products adds nothing.
abbrev pub needs : String → ReservationRow → Bool
needs product r = str_eq r.product_id product && is_live r.status

module _ (env : Env) where
  -- `Create`
  unfoldable pub create : Product → Db → Result ProductError Db
  create p db = do
    inserted ← insert_product p db
    (allocations, opened) ← allocations_of p p.draft.initial_inventory inserted
    stored ← insert_allocations p.shop_id p.id allocations opened
    ok (record_event env p.shop_id "product.created" p.id (product_payload (product_row p)) stored)

  -- `Update`
  unfoldable pub update : String → String → Patch → Db → Result ProductError (ProductRow × Db)
  update shop product patch db = do
    found ← or_missing (query_row (is_listed shop product) db.products)
    let r = patched patch found
    _ ←
        (if is_storable (coalesce patch.price (pos found.price)) r.status
          then ok tt
          else err database_error)
    let written = record db {
      products = update_where (is_listed shop product) (patched patch) db.products;
    }
    ok (r, record_event env shop "product.updated" product (product_payload r) written)

  -- `Archive`
  unfoldable pub archive : String → String → Db → Result ProductError Db
  archive shop product db = do
    _ ← or_missing (query_row (is_listed shop product) db.products)
    _ ← (if is_some (query_row (needs product) db.reservations) then err product_in_use else ok tt)
    let written = record db {
      products =
          update_where (is_listed shop product) (λ r. record r { status = "DELETED" }) db.products;
    }
    ok (record_event env shop "product.deleted" product (entry "id" product ∷ []) written)

  abbrev pub postgresql_creator : Manager
  postgresql_creator = record { create = create; update = update; archive = archive }
