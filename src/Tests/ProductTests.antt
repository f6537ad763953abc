-- ===== src/Tests/ProductTests.antt =====
-- A new product with five pieces in the main warehouse, and the archival of a product nobody ordered.
use enterprise_integration_s.Common.{refl, [], ◌∷◌, ◌≡◌, ok, arith}
use enterprise_integration_s.Common.Int.{pos}
use enterprise_integration_s.Orders.State.{entry}
use enterprise_integration_s.Store.{ProductRow, Db}
use enterprise_integration_s.Events.{record_event}
use enterprise_integration_s.Inventory.Invariant.{Inv}
use enterprise_integration_s.Products.{
  Draft, Product, create, normalise_draft, with_inventory, sum_inventory,
}
use enterprise_integration_s.Products.Catalogue.{
  create as persist, postgresql_creator, insert_product, insert_inventory, insert_allocations,
  allocations_of, product_row, product_payload, archive,
}
use enterprise_integration_s.Products.Stock.{create-Inv}
use enterprise_integration_s.Products.Archival.{Archived, archive-Archived}
use enterprise_integration_s.Tests.Fixtures.{env, strings, db}
use enterprise_integration_s.Tests.InventoryTests.{db-Inv}

abbrev plate : Draft
plate = record {
  sku = "S2";
  name = "Plate";
  category = "";
  description = "";
  price = pos 900;
  stock = pos 0;
  status = "";
  initial_inventory = record { warehouse_id = "wh1"; on_hand_quantity = pos 5 } ∷ [];
}

abbrev created_plate : Product
created_plate = record {
  id = "prd";
  shop_id = "shop1";
  draft = record plate { category = "Uncategorized"; status = "ACTIVE"; stock = pos 5 };
}

abbrev created_db : Db
created_db =
    unfold record_event in
    record_event env "shop1" "product.created" "prd" (product_payload (product_row created_plate))
      (record db {
        products = product_row created_plate ∷ db.products;
        inventory =
            record {
              warehouse_id = "wh1";
              product_id = "prd";
              on_hand_quantity = 5;
              reserved_quantity = 0;
            }
            ∷ db.inventory;
        drawn = 1;
      })

create-run :
    create strings env (postgresql_creator env) "shop1" plate db ≡ ok (created_plate, created_db)
unfolding create normalise_draft with_inventory sum_inventory persist insert_product
    insert_inventory insert_allocations allocations_of record_event
create-run = refl

create-Inv_example : Inv created_db
create-Inv_example = create-Inv strings env "shop1" plate db (omega arith) create-run db-Inv

abbrev deleted_cup : ProductRow
deleted_cup = record {
  id = "prd1";
  shop_id = "shop1";
  sku = "S1";
  name = "Cup";
  category = "Mugs";
  description = "";
  price = 500;
  status = "DELETED";
  stock = 10;
}

abbrev archived_db : Db
archived_db =
    unfold record_event in
    record_event env "shop1" "product.deleted" "prd1" (entry "id" "prd1" ∷ [])
      (record db { products = deleted_cup ∷ [] })

archive-run : archive env "shop1" "prd1" db ≡ ok archived_db
unfolding archive record_event
archive-run = refl

archive-Archived_example : Archived "shop1" "prd1" archived_db
archive-Archived_example = archive-Archived env "shop1" "prd1" db archive-run db-Inv
