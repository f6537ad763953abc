-- ===== src/Inventory/Invariant.antt =====
-- The accounting invariants of the warehouse stock.
pub mod Reserve
pub mod Allocate
pub mod Releasing
pub mod Release
pub mod Counting
pub mod Fulfill
use enterprise_integration_s.Common.{
  ℕ, ◌+◌, ◌-◌, ◌^◌, ◌≤◌, ◌≡◌, String, Bool, true, false, ◌&&◌, str_eq, if◌then◌else◌, List,
}
use enterprise_integration_s.Common.Table.{affected, total, All}
use enterprise_integration_s.Store.{InventoryRow, ProductRow, ReservationRow, Db}
use enterprise_integration_s.Inventory.Allocation.{stored_at}
use enterprise_integration_s.Inventory.Holding.{is_live, product_is}

abbrev pub stock_of : String → ProductRow → ℕ
stock_of product r = if str_eq r.id product then r.stock else 0

abbrev pub on_hand_of : String → InventoryRow → ℕ
on_hand_of product r = if str_eq r.product_id product then r.on_hand_quantity else 0

abbrev pub reserved_of : String → InventoryRow → ℕ
reserved_of product r = if str_eq r.product_id product then r.reserved_quantity else 0

abbrev pub reserved_at : String → String → InventoryRow → ℕ
reserved_at warehouse product r = if stored_at warehouse product r then r.reserved_quantity else 0

-- What a reservation still holds in its warehouse.
abbrev pub held_at : String → String → ReservationRow → ℕ
held_at warehouse product r =
    if (str_eq r.warehouse_id warehouse && str_eq r.product_id product) && is_live r.status
    then r.quantity - r.fulfilled_quantity
    else 0

-- What an order still holds of a product, in any warehouse.
abbrev pub held_by : String → String → ReservationRow → ℕ
held_by order product r =
    if (str_eq r.order_id order && str_eq r.product_id product) && is_live r.status
    then r.quantity - r.fulfilled_quantity
    else 0

-- The INTEGER column products.stock has room for what the order still holds.
abbrev pub HasRoom : String → Db → Type 0
HasRoom order db =
    (product : String)
    → total (stock_of product) db.products + total (held_by order product) db.reservations
      ≤ 2 ^ 31 - 1

-- The sellable stock of each product is what its warehouses hold and have not reserved.
abbrev pub IsConserved : Db → Type 0
IsConserved db =
    (product : String)
    → total (stock_of product) db.products + total (reserved_of product) db.inventory
      ≡ total (on_hand_of product) db.inventory

-- What each warehouse has reserved of each product is what its live reservations hold.
abbrev pub IsAccounted : Db → Type 0
IsAccounted db =
    (warehouse product : String)
    → total (reserved_at warehouse product) db.inventory
      ≡ total (held_at warehouse product) db.reservations

-- The primary keys of the two stock tables, and the foreign key from reservations to products.
pub record IsKeyed (db : Db) : Type 0 where
  pub one_stock :
      (warehouse product : String) → affected (stored_at warehouse product) db.inventory ≤ 1
  pub one_product : (product : String) → affected (product_is product) db.products ≤ 1
  pub known_product : All (λ r. affected (product_is r.product_id) db.products ≡ 1) db.reservations

pub record Inv (db : Db) : Type 0 where
  pub conserved : IsConserved db
  pub accounted : IsAccounted db
  pub keyed : IsKeyed db
