-- ===== src/Inventory/Holding.antt =====
-- internal/inventory/reservation.go: what becomes of a reservation, by payment (Commit),
-- cancellation (Release) and shipment (FulfillPackage).
use enterprise_integration_s.Common.{
  ℕ, ◌+◌, ◌-◌, ◌^◌, String, Bool, true, false, ◌&&◌, ◌||◌, not, Option, none, some, List, [], ◌∷◌,
  ◌++◌, map, Result, ok, err, ◌>>=◌, str_eq, if◌then◌else◌, ltb, leb, ◌==◌,
}
use enterprise_integration_s.Common.Sorting.{sort_by, text_before}
use enterprise_integration_s.Common.Table.{update_where, affected, select_where}
use enterprise_integration_s.Store.{
  InventoryRow, ProductRow, ReservationStatus, active, committed, released, fulfilled,
  ReservationRow, PackageItemRow, Db,
}
use enterprise_integration_s.Inventory.Allocation.{Error, text, stored_at}

abbrev pub is_active : ReservationStatus → Bool
is_active active = true
is_active _ = false

-- status IN ('ACTIVE','COMMITTED')
abbrev pub is_live : ReservationStatus → Bool
is_live active = true
is_live committed = true
is_live _ = false

-- COALESCE(at, now())
abbrev pub coalesce : Option ℕ → ℕ → Option ℕ
coalesce none now = some now
coalesce (some at) now = some at

abbrev pub commit_row : ℕ → ReservationRow → ReservationRow
commit_row now r = record r { status = committed; committed_at = coalesce r.committed_at now }

-- `Commit`
unfoldable pub commit : ℕ → String → Db → Result Error Db
commit now order db = ok (record db {
  reservations =
      update_where (λ r. str_eq r.order_id order && is_active r.status) (commit_row now)
        db.reservations;
})

abbrev pub release_mark : ℕ → ReservationRow → ReservationRow
release_mark now r = record r { status = released; released_at = coalesce r.released_at now }

-- The rows that the first statement of `Release` returns.
pub record Released : Type 0 where
  pub warehouse_id : String
  pub product_id : String
  pub quantity : ℕ

abbrev pub live_of : String → ReservationRow → Bool
live_of order r = str_eq r.order_id order && is_live r.status

abbrev pub returning : ReservationRow → Released
returning r = record {
  warehouse_id = r.warehouse_id;
  product_id = r.product_id;
  quantity = r.quantity - r.fulfilled_quantity;
}

abbrev pub releasable : Released → InventoryRow → Bool
releasable row r =
    stored_at row.warehouse_id row.product_id r && leb row.quantity r.reserved_quantity

abbrev pub unreserve : ℕ → InventoryRow → InventoryRow
unreserve n r = record r { reserved_quantity = r.reserved_quantity - n }

abbrev pub product_is : String → ProductRow → Bool
product_is product r = str_eq r.id product

abbrev pub add_stock : ℕ → ProductRow → ProductRow
add_stock n r = record r { stock = r.stock + n }

-- Whether stock+$1 is too large for the INTEGER column.
abbrev pub overflows : Released → ProductRow → Bool
overflows row r = product_is row.product_id r && ltb (2 ^ 31 - 1) (r.stock + row.quantity)

-- The body of the loop over the released rows.
unfoldable pub release_row : Released → Db → Result Error Db
release_row row db =
    if row.quantity == 0
    then ok db
    else if not (affected (releasable row) db.inventory == 1)
    then err (text "warehouse reservation drift")
    else if not (affected (overflows row) db.products == 0)
    then err (text "restore available product stock")
    else ok (record db {
      inventory = update_where (releasable row) (unreserve row.quantity) db.inventory;
      products = update_where (product_is row.product_id) (add_stock row.quantity) db.products;
    })

unfoldable pub release_rows : List Released → Db → Result Error Db
release_rows [] db = ok db
release_rows (row ∷ rows) db = release_row row db >>= release_rows rows

-- `Release`
unfoldable pub release : ℕ → String → Db → Result Error Db
release now order db =
    release_rows (map returning (select_where (live_of order) db.reservations))
      (record db { reservations = update_where (live_of order) (release_mark now) db.reservations })

-- One row of the join that `FulfillPackage` locks.
pub record Fulfillment : Type 0 where
  pub reservation : ReservationRow
  pub package_quantity : ℕ

unfoldable pub join_items : ReservationRow → List PackageItemRow → List Fulfillment
join_items r [] = []
join_items r (item ∷ items) =
    (if str_eq item.order_item_id r.order_item_id
      then record { reservation = r; package_quantity = item.quantity } ∷ []
      else [])
    ++ join_items r items

unfoldable pub join_reservations : List ReservationRow → List PackageItemRow → List Fulfillment
join_reservations [] items = []
join_reservations (r ∷ rs) items = join_items r items ++ join_reservations rs items

-- The locking SELECT of `FulfillPackage`, ordered by product.
unfoldable pub package_fulfillments : String → Db → List Fulfillment
unfolding join_reservations join_items
package_fulfillments parcel db =
    sort_by (λ a b. text_before a.reservation.product_id b.reservation.product_id)
      (join_reservations db.reservations
        (select_where (λ item. str_eq item.package_id parcel) db.package_items))

abbrev pub consumable : Fulfillment → InventoryRow → Bool
consumable item r =
    stored_at item.reservation.warehouse_id item.reservation.product_id r
    && leb item.package_quantity r.on_hand_quantity
    && leb item.package_quantity r.reserved_quantity

abbrev pub consume : ℕ → InventoryRow → InventoryRow
consume n r = record r {
  on_hand_quantity = r.on_hand_quantity - n;
  reserved_quantity = r.reserved_quantity - n;
}

abbrev pub fulfill_row : ℕ → ReservationRow → ReservationRow
fulfill_row n r = record r {
  fulfilled_quantity = r.fulfilled_quantity + n;
  status = if r.fulfilled_quantity + n == r.quantity then fulfilled else r.status;
}

-- CHECK (fulfilled_quantity <= quantity) on every reservation.
unfoldable pub all_fulfillable : List ReservationRow → Bool
all_fulfillable [] = true
all_fulfillable (r ∷ rows) = leb r.fulfilled_quantity r.quantity && all_fulfillable rows

-- The body of the loop over the locked rows.
unfoldable pub fulfill_item : Fulfillment → Db → Result Error Db
fulfill_item item db =
    let r = item.reservation in
    let n = item.package_quantity in
    let rows = update_where (λ x. str_eq x.id r.id) (fulfill_row n) db.reservations in
    if not (is_live r.status) || ltb r.quantity (r.fulfilled_quantity + n)
    then err (text "cannot fulfill reservation")
    else if not (affected (consumable item) db.inventory == 1)
    then err (text "warehouse fulfillment drift")
    else if not (all_fulfillable rows)
    then err (text "mark reservation fulfilled")
    else ok (record db {
      inventory = update_where (consumable item) (consume n) db.inventory;
      reservations = rows;
    })

unfoldable pub fulfill_items : List Fulfillment → Db → Result Error Db
fulfill_items [] db = ok db
fulfill_items (item ∷ items) db = fulfill_item item db >>= fulfill_items items

unfoldable pub fulfill_locked : List Fulfillment → Db → Result Error Db
fulfill_locked [] db = err (text "package has no inventory reservations")
fulfill_locked (item ∷ items) db = fulfill_items (item ∷ items) db

-- `FulfillPackage`
unfoldable pub fulfill_package : String → Db → Result Error Db
unfolding fulfill_locked
fulfill_package parcel db = fulfill_locked (package_fulfillments parcel db) db
