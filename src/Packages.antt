-- ===== src/Packages.antt =====
-- The allocation of an order's items to a package: createPackageForOrder of
-- internal/server/provider_fulfillment.go. The foreign keys of the INSERTs hold, since the order is
-- locked, its warehouse is its own foreign key, and the items have just been read.
pub mod Control
pub mod Shipping
pub mod Contents
use enterprise_integration_s.Common.{
  ℕ, suc, String, Bool, true, ◌&&◌, not, Option, none, some, List, [], ◌∷◌, ◌++◌, map, Result, ok,
  err, ◌>>=◌, str_eq, if◌then◌else◌, ltb, leb, is_some,
}
use enterprise_integration_s.Common.Int.{ℤ, pos, sub_ℕ, ltb_ℤ}
use enterprise_integration_s.Common.Table.{affected, select_where, query_row, total}
use enterprise_integration_s.Orders.Status.{ready_to_ship as order_ready, same_status}
use enterprise_integration_s.Orders.State.{Error, text}
use enterprise_integration_s.Store.{
  OrderRow, OrderItemRow, PackageItemRow, PackageRow, ready_to_ship, Db, Env,
}
use enterprise_integration_s.Inventory.Allocation.{units, is_positive}
use enterprise_integration_s.Repository.{order_in}
use enterprise_integration_s.Shipments.{found_order}

-- One element of `packageInput.Items`; Quantity is a signed int.
pub record Allocation : Type 0 where
  pub order_item_id : String
  pub quantity : ℤ

-- `packageInput`
pub record PackageInput : Type 0 where
  pub order_item_ids : List String
  pub items : List Allocation

abbrev pub whole_item : String → Allocation
whole_item item = record { order_item_id = item; quantity = pos 0 }

-- The appends to `allocations`.
unfoldable pub requested : PackageInput → List Allocation
requested input = input.items ++ map whole_item input.order_item_ids

abbrev pub item_is : String → OrderItemRow → Bool
item_is item oi = str_eq oi.id item

abbrev pub in_package : String → PackageItemRow → Bool
in_package parcel i = str_eq i.package_id parcel

abbrev pub content_is : String → String → PackageItemRow → Bool
content_is parcel item i = str_eq i.package_id parcel && str_eq i.order_item_id item

abbrev pub packed_of : String → PackageItemRow → ℕ
packed_of item i = if str_eq i.order_item_id item then i.quantity else 0

-- SELECT oi.quantity-COALESCE((SELECT sum(quantity) ...),0)
abbrev pub remaining : OrderItemRow → List PackageItemRow → ℤ
remaining oi rows = sub_ℕ oi.quantity (total (packed_of oi.id) rows)

abbrev pub pack : String → String → ℕ → List PackageItemRow → List PackageItemRow
pack parcel item n rows = record { package_id = parcel; order_item_id = item; quantity = n } ∷ rows

-- INSERT INTO package_items, whose key is (package_id, order_item_id) and whose quantity is positive.
unfoldable pub insert_content :
    String → String → ℤ → List PackageItemRow → Result Error (List PackageItemRow)
insert_content parcel item n rows =
    if not (is_positive n)
    then err (text "allocate package item")
    else if is_some (query_row (content_is parcel item) rows)
    then err (text "allocate package item")
    else ok (pack parcel item (units n) rows)

-- QueryRow, with the error of a query that finds no row.
abbrev pub found_row : {R : Type 0} → String → Option R → Result Error R
found_row message none = err (text message)
found_row message (some r) = ok r

-- The items of an order are read, and the contents of packages are written, by the loop of
-- createPackageForOrder.
module _ (parcel order : String) (order_items : List OrderItemRow) where
  abbrev pub asked_quantity : ℤ → ℤ → ℤ
  asked_quantity asked left = if is_positive asked then asked else left

  -- The body of the loop.
  unfoldable pub pack_item : Allocation → List PackageItemRow → Result Error (List PackageItemRow)
  unfolding insert_content
  pack_item a rows = do
    oi ←
        found_row "items must belong to this order and have remaining quantity"
          (query_row (λ oi. str_eq oi.id a.order_item_id && str_eq oi.order_id order) order_items)
    let left = remaining oi rows
    _ ←
        (if not (is_positive left)
          then err (text "items must belong to this order and have remaining quantity")
          else ok tt)
    let quantity = asked_quantity a.quantity left
    _ ←
        (if not (is_positive quantity)
          then err (text "package quantity must be positive")
          else ok tt)
    again ←
        found_row "package quantity exceeds remaining item quantity"
          (query_row (item_is a.order_item_id) order_items)
    _ ←
        (if ltb_ℤ (remaining again rows) quantity
          then err (text "package quantity exceeds remaining item quantity")
          else ok tt)
    insert_content parcel a.order_item_id quantity rows

  unfoldable pub pack_items :
      List Allocation → List PackageItemRow → Result Error (List PackageItemRow)
  pack_items [] rows = ok rows
  pack_items (a ∷ rest) rows = pack_item a rows >>= pack_items rest

-- INSERT INTO packages
abbrev pub new_package : String → String → String → PackageRow
new_package parcel order warehouse = record {
  id = parcel;
  order_id = order;
  warehouse_id = warehouse;
  status = ready_to_ship;
}

unfoldable pub insert_package : String → String → String → Db → Result Error Db
insert_package parcel order warehouse db =
    if is_some (query_row (λ (p : PackageRow). str_eq p.id parcel) db.packages)
    then err (text "create package")
    else ok (record db { packages = new_package parcel order warehouse ∷ db.packages })

-- The triggers of migrations 011 and 012, which COMMIT runs for the rows of the new package: no item
-- is allocated beyond its quantity, and the package is not empty.
abbrev pub holds_allocation : List OrderItemRow → List PackageItemRow → String → Bool
holds_allocation order_items rows item = elim (query_row (item_is item) order_items) [
  | none ↦ true
  | some oi ↦ leb (total (packed_of item) rows) oi.quantity
]

unfoldable pub all_allocations :
    List OrderItemRow → List PackageItemRow → List PackageItemRow → Bool
all_allocations order_items rows [] = true
all_allocations order_items rows (i ∷ rest) =
    holds_allocation order_items rows i.order_item_id && all_allocations order_items rows rest

unfoldable pub commit_package : String → Db → Result Error Db
unfolding all_allocations
commit_package parcel db =
    let contents = select_where (in_package parcel) db.package_items in
    if all_allocations db.order_items db.package_items contents
      && ltb 0 (affected (in_package parcel) db.package_items)
    then ok db
    else err (text "commit package")

-- The checks on the locked order: its warehouse.
unfoldable pub fulfillment_of : String → OrderRow → Result Error String
fulfillment_of message o =
    if not (same_status o.status order_ready)
    then err (text message)
    else elim o.fulfillment_warehouse_id [
      | none ↦ err (text "order does not have a fulfillment warehouse")
      | some warehouse ↦
          if str_eq warehouse ""
          then err (text "order does not have a fulfillment warehouse")
          else ok warehouse
    ]

module _ (env : Env) where
  -- The statements of createPackageForOrder from the INSERT of the package to the COMMIT.
  unfoldable pub fill_package : String → String → List Allocation → Db → Result Error Db
  unfolding insert_package
  fill_package order warehouse allocations db = do
    let parcel = env.new_id "pkg" db.drawn
    opened ← insert_package parcel order warehouse (record db { drawn = suc db.drawn })
    rows ← pack_items parcel order opened.order_items allocations opened.package_items
    commit_package parcel (record opened { package_items = rows })

  -- `createPackageForOrder`
  unfoldable pub create_package_for_order : String → String → PackageInput → Db → Result Error Db
  create_package_for_order shop order input db = elim (requested input) [
    | [] ↦ err (text "items or order_item_ids is required")
    | a ∷ rest ↦
        (found_row "order not found" (query_row (order_in shop order) db.orders)
          >>= fulfillment_of "packages can only be allocated for READY_TO_SHIP orders"
          >>= λ warehouse. fill_package order warehouse (a ∷ rest) db)
  ]
