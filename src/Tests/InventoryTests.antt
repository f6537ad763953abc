-- ===== src/Tests/InventoryTests.antt =====
-- Allocation, release and cancellation of one order in one warehouse.
use enterprise_integration_s.Common.{
  String, str_eq, if◌then◌else◌, ◌≤◌, true, false, ◌≡◌, refl, false, none, [], ◌∷◌, ok, arith,
}
use enterprise_integration_s.Common.Sorting.{sort_by}
use enterprise_integration_s.Common.Table.{All}
use enterprise_integration_s.Orders.Provider.{
  can_cancel, normalise_provider, valid_cancellation_reason, actor_of, reason_of, reason_allowed,
  shopee_can_cancel,
}
use enterprise_integration_s.Orders.UseCases.{cancel}
use enterprise_integration_s.Store.{WarehouseRow, Db}
use enterprise_integration_s.Inventory.Allocation.{
  write_line, assign_warehouse, allocate, allocate_from, aggregate_required_quantity,
  active_warehouses, is_eligible, reserve_lines, reserve_line, all_within, add_required,
}
use enterprise_integration_s.Inventory.Holding.{live_of, release}
use enterprise_integration_s.Inventory.Invariant.{HasRoom, Inv}
use enterprise_integration_s.Inventory.Invariant.Allocate.{allocate-Inv}
use enterprise_integration_s.Common.Int.{pos}
use enterprise_integration_s.Inventory.Counting.{update_warehouse_inventory}
use enterprise_integration_s.Inventory.Invariant.Counting.{update_warehouse_inventory-Inv}
use enterprise_integration_s.Inventory.Refinement.{
  Shelf, asked, take, give, Represents, allocate-release-refines,
}
use enterprise_integration_s.Inventory.Invariant.Release.{release-total}
use enterprise_integration_s.Tests.Fixtures.{env, strings, service, warehouse, line, db, state}
use enterprise_integration_s.Repository.{lock_order, postgres_repository}
use enterprise_integration_s.Repository.Cancellation.{healthy, IsCancelled, cancel-total}

pub db-Inv : Inv db
db-Inv = record {
  conserved = λ p. ground arith;
  accounted = λ w p. ground arith;
  keyed = record {
    one_stock = λ w p. ground arith;
    one_product = λ p. ground arith;
    known_product = tt;
  };
}

abbrev allocated : WarehouseRow × Db
allocated =
    unfold assign_warehouse in
    (warehouse, assign_warehouse env "ord1" "wh1" (write_line env "ord1" "wh1" line db))

pub db-HasRoom : HasRoom "ord1" db
db-HasRoom p = ground arith

allocate-run : allocate env "shop1" "ord1" (line ∷ []) db ≡ ok allocated
unfolding allocate allocate_from aggregate_required_quantity sort_by active_warehouses is_eligible
    reserve_lines reserve_line all_within add_required
allocate-run = refl

allocate-Inv_example : Inv allocated.1
allocate-Inv_example = allocate-Inv env "shop1" "ord1" (line ∷ []) db allocate-run db-Inv

allocated-HasRoom : HasRoom "ord1" allocated.1
unfolding assign_warehouse
allocated-HasRoom p = ground arith

release-total_example :
    (db' : Db) × (release 150 "ord1" allocated.1 ≡ ok db')
    × Inv db'
    × All (λ r. live_of "ord1" r ≡ false) db'.reservations
    × (db'.orders ≡ allocated.1.orders)
release-total_example = release-total 150 "ord1" allocated.1 allocate-Inv_example allocated-HasRoom

cancel-total_example :
    (db' : Db) × (cancel strings service
        (postgres_repository env healthy)
        "shop1"
        "ord1"
        "CUSTOMER"
        "CHANGE_OF_MIND"
        db
      ≡ (db', none))
    × Inv db'
    × All (λ r. live_of "ord1" r ≡ false) db'.reservations
    × IsCancelled "ord1" db'.orders
unfolding lock_order can_cancel normalise_provider valid_cancellation_reason actor_of reason_of
    reason_allowed shopee_can_cancel
cancel-total_example =
    cancel-total strings service env "shop1" "ord1" "CUSTOMER" "CHANGE_OF_MIND" db state db-Inv
      db-HasRoom refl refl refl

update_warehouse_inventory-Inv_example :
    Inv (update_warehouse_inventory (λ _. true) (λ _. false) "wh1" "prd1" (pos 25) db).0
update_warehouse_inventory-Inv_example =
    update_warehouse_inventory-Inv (λ _. true) (λ _. false) "wh1" "prd1" (pos 25) db db-Inv

abbrev shelf : Shelf
shelf = record { free = λ p. if str_eq "prd1" p then 10 else 0; held = λ o p. 0 }

allocate-release-refines_example :
    ((p : String) → asked p (line ∷ []) ≤ shelf.free p)
    × Represents allocated.1 (take "ord1" (line ∷ []) shelf)
    × (db' : Db) × (release 150 "ord1" allocated.1 ≡ ok db')
    × Represents db' (give "ord1" (take "ord1" (line ∷ []) shelf))
allocate-release-refines_example =
    allocate-release-refines env "shop1" "ord1" (line ∷ []) db {chosen = allocated} shelf 150
      allocate-run db-Inv (record { free = λ p. ground arith; held = λ o p. refl })
      (λ p. ground arith)
