-- ===== src/Inventory/Invariant/Counting.antt =====
-- A stock count keeps the accounting invariants.
use enterprise_integration_s.Common.{
  ℕ, ◌+◌, ◌-◌, ◌^◌, ◌≤◌, ◌≡◌, ◌∙◌, sym, refl, String, Bool, true, ◌&&◌, ◌||◌, Option, none, some,
  Option-cases, str_eq, eq_iff, arith, inl, inr, Bool-cases, if◌then◌else◌, ltb,
}
use enterprise_integration_s.Common.Int.{ℤ, pos, negsuc}
use enterprise_integration_s.Common.Table.{
  All-map, affected, total, query_row, affected-update_where, total-update_where_same,
}
use enterprise_integration_s.Common.Keys.{query_row_holds, total-update_found, affected-query_none}
use enterprise_integration_s.Store.{WarehouseRow, InventoryRow, ProductRow, Db}
use enterprise_integration_s.Inventory.Allocation.{stored_at}
use enterprise_integration_s.Inventory.Holding.{product_is}
use enterprise_integration_s.Inventory.Counting.{
  on_hand_before, reserved_before, count_row, adjust_stock, counted, write_count, count_found,
  update_warehouse_inventory,
}
use enterprise_integration_s.Inventory.Invariant.{
  stock_of, on_hand_of, reserved_of, reserved_at, IsConserved, IsAccounted, IsKeyed, Inv,
}

module _ (warehouse product : String) (n : ℕ) (p : ProductRow) (db : Db)
    (known : query_row (product_is product) db.products ≡ some p) where
  stock-counted :
      (row : Option InventoryRow) (x : String)
      → Inv db
      → on_hand_before row ≤ p.stock + n
      → total (stock_of x) (counted warehouse product n row db).products
          + (if str_eq product x then on_hand_before row else 0)
        ≡ total (stock_of x) db.products + (if str_eq product x then n else 0)
  stock-counted row x v enough =
      let moved =
        total-update_found (product_is product) (adjust_stock n (on_hand_before row)) (stock_of x)
          db.products (v.keyed.one_product product) known in
      let mine : product_is product p ≡ true =
        query_row_holds (product_is product) db.products known in
      ground (arith, eq_iff p.id product)

  counted-IsConserved :
      (row : Option InventoryRow)
      → query_row (stored_at warehouse product) db.inventory ≡ row
      → on_hand_before row ≤ p.stock + n
      → Inv db
      → IsConserved (counted warehouse product n row db)
  counted-IsConserved none found enough v x =
      ground (arith, stock-counted none x v enough, v.conserved x)
  counted-IsConserved (some r) found enough v x =
      let on_hand =
        total-update_found (stored_at warehouse product) (count_row n) (on_hand_of x) db.inventory
          (v.keyed.one_stock warehouse product) found in
      let reserved =
        total-update_where_same (stored_at warehouse product) (count_row n) (reserved_of x)
          (λ _ _. refl) db.inventory in
      let mine : stored_at warehouse product r ≡ true =
        query_row_holds (stored_at warehouse product) db.inventory found in
      ground (arith, stock-counted (some r) x v enough, v.conserved x, eq_iff r.product_id product)

  counted-IsAccounted :
      (row : Option InventoryRow) → Inv db → IsAccounted (counted warehouse product n row db)
  counted-IsAccounted none v w x = ground (arith, v.accounted w x)
  counted-IsAccounted (some r) v w x =
      total-update_where_same (stored_at warehouse product) (count_row n) (reserved_at w x)
        (λ _ _. refl) db.inventory
      ∙ v.accounted w x

  counted-IsKeyed :
      (row : Option InventoryRow)
      → query_row (stored_at warehouse product) db.inventory ≡ row
      → Inv db
      → IsKeyed (counted warehouse product n row db)
  counted-IsKeyed row found v = record {
    one_stock = one_stock row found;
    one_product = λ x. rw (same x) (v.keyed.one_product x);
    known_product = All-map (λ r e. rw (same r.product_id) e) db.reservations v.keyed.known_product;
  }
    where
      same :
          (x : String)
          → affected (product_is x) (counted warehouse product n row db).products
            ≡ affected (product_is x) db.products
      same x =
          affected-update_where (product_is x) (product_is product)
            (adjust_stock n (on_hand_before row)) (λ r. refl) db.products

      one_stock :
          (row : Option InventoryRow)
          → query_row (stored_at warehouse product) db.inventory ≡ row
          → (w x : String)
          → affected (stored_at w x) (counted warehouse product n row db).inventory ≤ 1
      one_stock (some r) found w x =
          rw
            (affected-update_where (stored_at w x) (stored_at warehouse product) (count_row n)
              (λ _. refl) db.inventory)
            (v.keyed.one_stock w x)
      one_stock none found w x =
          let free = affected-query_none (stored_at warehouse product) db.inventory found in
          elim (Bool-cases (str_eq warehouse w && str_eq product x)) [
            | inr other ↦ rw other (omega (arith, v.keyed.one_stock w x))
            | inl same_key ↦
                let same_w : warehouse ≡ w = ground (arith, eq_iff warehouse w) in
                let same_x : product ≡ x = ground (arith, eq_iff product x) in
                let none_there : affected (stored_at w x) db.inventory ≡ 0 =
                  rw (sym same_w, sym same_x) free in
                rw same_key (omega (arith, none_there))
          ]

  counted-Inv :
      (row : Option InventoryRow)
      → query_row (stored_at warehouse product) db.inventory ≡ row
      → on_hand_before row ≤ p.stock + n
      → Inv db
      → Inv (counted warehouse product n row db)
  counted-Inv row found enough v = record {
    conserved = counted-IsConserved row found enough v;
    accounted = counted-IsAccounted row v;
    keyed = counted-IsKeyed row found v;
  }

write_count-Inv :
    (warehouse product : String) (n : ℕ) (p : ProductRow) (db : Db) (row : Option InventoryRow)
    → query_row (product_is product) db.products ≡ some p
    → query_row (stored_at warehouse product) db.inventory ≡ row
    → Inv db
    → Inv (write_count warehouse product n row p db).0
unfolding write_count
write_count-Inv warehouse product n p db row known found v =
    elim (Bool-cases (ltb n (reserved_before row))) [
      | inl few ↦ rw few v
      | inr enough ↦
          elim (Bool-cases (
            ltb (2 ^ 31 - 1) n
            || ltb (p.stock + n) (on_hand_before row)
            || ltb (2 ^ 31 - 1) (p.stock + n - on_hand_before row))) [
              | inl short ↦ rw (enough, short) v
              | inr covered ↦
                  rw (enough, covered)
                    (counted-Inv warehouse product n p db known row found (ground arith) v)
            ]
    ]

-- A stock count keeps the accounting invariants, whatever it answers.
pub update_warehouse_inventory-Inv :
    (may_access : String → Bool) (refuses : Option InventoryRow → Bool) (warehouse product : String)
    (count : ℤ) (db : Db)
    → Inv db
    → Inv (update_warehouse_inventory may_access refuses warehouse product count db).0
unfolding update_warehouse_inventory count_found
update_warehouse_inventory-Inv may_access refuses warehouse product (negsuc m) db v = v
update_warehouse_inventory-Inv may_access refuses warehouse product (pos n) db v =
    elim (Option-cases (query_row (λ (w : WarehouseRow). str_eq w.id warehouse) db.warehouses)) [
      | inl missing ↦ rw missing v
      | inr (w, there) ↦ elim (Option-cases (query_row (product_is product) db.products)) [
        | inl missing ↦ rw (there, missing) v
        | inr (p, known) ↦
            let row = query_row (stored_at warehouse product) db.inventory in
            let written = write_count-Inv warehouse product n p db row known refl v in
            elim (Bool-cases (str_eq w.shop_id p.shop_id)) [
              | inr apart ↦ rw (there, known, apart) v
              | inl together ↦ elim (Bool-cases (may_access w.shop_id)) [
                | inr closed ↦ rw (there, known, together, closed) v
                | inl open_to ↦ elim (Bool-cases (refuses row)) [
                  | inl stale ↦ rw (there, known, together, open_to, stale) v
                  | inr current ↦ rw (there, known, together, open_to, current) written
                ]
              ]
            ]
      ]
    ]
