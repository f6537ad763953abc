-- ===== src/Inventory/Invariant/Fulfill.antt =====
-- One row of the loop of `FulfillPackage`.
pub mod Package
use enterprise_integration_s.Common.{
  ℕ, ◌+◌, ◌≤◌, ◌≡◌, ◌∙◌, refl, sym, String, Bool, true, false, ◌&&◌, str_eq, eq_iff, if◌then◌else◌,
  List, [], ◌∷◌, ◌++◌, some, arith, Bool-cases, inl, inr, ok, leb, Result-cases,
}
use enterprise_integration_s.Common.Table.{
  affected, total, All, All-map, All-update_where, query_row, update_where, select_where,
  total-update_one, affected-update_where, query_row-update_where,
}
use enterprise_integration_s.Common.Keys.{total-update_found}
use enterprise_integration_s.Common.Keys.Found.{
  affected-none, All-both, All-append, affected-append, affected-select_where, keyed_found,
}
use enterprise_integration_s.Common.Sorting.{sort_by, text_before}
use enterprise_integration_s.Common.Sorting.Laws.{affected-sort_by, All-sort_by}
use enterprise_integration_s.Store.{InventoryRow, ReservationRow, PackageItemRow, Db}
use enterprise_integration_s.Inventory.Allocation.{stored_at}
use enterprise_integration_s.Inventory.Holding.{
  product_is, is_live, Fulfillment, join_items, join_reservations, package_fulfillments, consumable,
  consume, fulfill_row, fulfill_item, fulfill_items, fulfill_locked, fulfill_package,
}
use enterprise_integration_s.Inventory.Invariant.{
  on_hand_of, reserved_of, reserved_at, held_at, IsConserved, IsAccounted, IsKeyed, Inv,
}

abbrev pub reservation_is : String → ReservationRow → Bool
reservation_is id r = str_eq r.id id

-- A locked row is the reservation that its identifier finds.
abbrev pub IsStored : List ReservationRow → Fulfillment → Type 0
IsStored rows f = query_row (reservation_is f.reservation.id) rows ≡ some f.reservation

abbrev pub fulfilled_by : Fulfillment → List ReservationRow → List ReservationRow
fulfilled_by f rows =
    update_where (reservation_is f.reservation.id) (fulfill_row f.package_quantity) rows

abbrev pub after : Fulfillment → Db → Db
after f db = record db {
  inventory = update_where (consumable f) (consume f.package_quantity) db.inventory;
  reservations = fulfilled_by f db.reservations;
}

pub fulfill_item-ok :
    (f : Fulfillment) (db db' : Db)
    → fulfill_item f db ≡ ok db'
    → (is_live f.reservation.status ≡ true)
      × (f.reservation.fulfilled_quantity + f.package_quantity ≤ f.reservation.quantity)
      × (affected (consumable f) db.inventory ≡ 1)
      × (db' ≡ after f db)
unfolding fulfill_item
fulfill_item-ok f db db' h = ground arith

consume-on_hand_of :
    (f : Fulfillment) (p : String) (r : InventoryRow)
    → consumable f r ≡ true
    → on_hand_of p (consume f.package_quantity r)
        + (if str_eq f.reservation.product_id p then f.package_quantity else 0)
      ≡ on_hand_of p r + 0
consume-on_hand_of f p r h = ground (
  arith,
  eq_iff r.product_id f.reservation.product_id,
  eq_iff r.product_id p,
  eq_iff f.reservation.product_id p,
)

consume-reserved_of :
    (f : Fulfillment) (p : String) (r : InventoryRow)
    → consumable f r ≡ true
    → reserved_of p (consume f.package_quantity r)
        + (if str_eq f.reservation.product_id p then f.package_quantity else 0)
      ≡ reserved_of p r + 0
consume-reserved_of f p r h = ground (
  arith,
  eq_iff r.product_id f.reservation.product_id,
  eq_iff r.product_id p,
  eq_iff f.reservation.product_id p,
)

consume-reserved_at :
    (f : Fulfillment) (w p : String) (r : InventoryRow)
    → consumable f r ≡ true
    → reserved_at w p (consume f.package_quantity r)
        + (if str_eq f.reservation.warehouse_id w && str_eq f.reservation.product_id p
            then f.package_quantity
            else 0)
      ≡ reserved_at w p r + 0
consume-reserved_at f w p r h = ground (
  arith,
  eq_iff r.product_id f.reservation.product_id,
  eq_iff r.product_id p,
  eq_iff f.reservation.product_id p,
  eq_iff r.warehouse_id f.reservation.warehouse_id,
  eq_iff r.warehouse_id w,
  eq_iff f.reservation.warehouse_id w,
)

held_at-fulfill_row :
    (n : ℕ) (w p : String) (r : ReservationRow)
    → is_live r.status ≡ true
    → r.fulfilled_quantity + n ≤ r.quantity
    → held_at w p (fulfill_row n r)
        + (if str_eq r.warehouse_id w && str_eq r.product_id p then n else 0)
      ≡ held_at w p r
held_at-fulfill_row n w p r live fits = ground arith

module _ (f : Fulfillment) (db : Db) (live : is_live f.reservation.status ≡ true)
    (fits : f.reservation.fulfilled_quantity + f.package_quantity ≤ f.reservation.quantity)
    (one : affected (consumable f) db.inventory ≡ 1)
    (few : affected (reservation_is f.reservation.id) db.reservations ≤ 1)
    (stored : IsStored db.reservations f) where
  after-IsConserved : IsConserved db → IsConserved (after f db)
  after-IsConserved h p =
      let n = f.package_quantity in
      let moved = if str_eq f.reservation.product_id p then n else 0 in
      let shelf =
        total-update_one (consumable f) (consume n) (on_hand_of p) moved 0 db.inventory one
          (consume-on_hand_of f p) in
      let held =
        total-update_one (consumable f) (consume n) (reserved_of p) moved 0 db.inventory one
          (consume-reserved_of f p) in
      omega (arith, h p, shelf, held)

  after-IsAccounted : IsAccounted db → IsAccounted (after f db)
  after-IsAccounted h w p =
      let n = f.package_quantity in
      let r = f.reservation in
      let moved = if str_eq r.warehouse_id w && str_eq r.product_id p then n else 0 in
      let reserved =
        total-update_one (consumable f) (consume n) (reserved_at w p) moved 0 db.inventory one
          (consume-reserved_at f w p) in
      let held =
        total-update_found (reservation_is r.id) (fulfill_row n) (held_at w p) db.reservations
          {r = r} few stored in
      omega (arith, h w p, reserved, held, held_at-fulfill_row n w p r live fits)

  after-IsKeyed : IsKeyed db → IsKeyed (after f db)
  after-IsKeyed k = record {
    one_stock = λ w p.
        rw
          (affected-update_where (stored_at w p) (consumable f) (consume f.package_quantity)
            (λ r. refl) db.inventory)
          (k.one_stock w p);
    one_product = k.one_product;
    known_product =
        All-update_where (λ r. affected (product_is r.product_id) db.products ≡ 1)
          (reservation_is f.reservation.id) (fulfill_row f.package_quantity) (λ r _ e. e)
          db.reservations k.known_product;
  }

  pub after-Inv : Inv db → Inv (after f db)
  after-Inv v = record {
    conserved = after-IsConserved v.conserved;
    accounted = after-IsAccounted v.accounted;
    keyed = after-IsKeyed v.keyed;
  }
