-- ===== src/Inventory/Invariant/Reserve.antt =====
-- One reserved line keeps the accounting invariants.
use enterprise_integration_s.Common.{
  ℕ, ◌+◌, ◌≡◌, refl, String, true, ◌&&◌, str_eq, eq_iff, if◌then◌else◌, arith, ok,
}
use enterprise_integration_s.Common.Table.{
  affected, total-update_one, total-update_where_same, affected-update_where, affected-le, All-map,
}
use enterprise_integration_s.Store.{InventoryRow, ProductRow, Db, Env}
use enterprise_integration_s.Inventory.Allocation.{
  Line, units, stored_at, reserve_row, sellable, take_stock, write_line, new_reservation,
  reserve_line,
}
use enterprise_integration_s.Inventory.Holding.{product_is}
use enterprise_integration_s.Inventory.Invariant.{
  stock_of, on_hand_of, reserved_of, reserved_at, held_at, IsConserved, IsAccounted, IsKeyed, Inv,
}

reserve-reserved_of :
    (warehouse product p : String) (n : ℕ) (r : InventoryRow)
    → stored_at warehouse product r ≡ true
    → reserved_of p (reserve_row n r) + 0 ≡ reserved_of p r + (if str_eq product p then n else 0)
reserve-reserved_of warehouse product p n r h =
    ground (arith, eq_iff r.product_id product, eq_iff r.product_id p, eq_iff product p)

pub take-stock_of :
    (product p : String) (n : ℕ) (r : ProductRow)
    → sellable product n r ≡ true
    → stock_of p (take_stock n r) + (if str_eq product p then n else 0) ≡ stock_of p r + 0
take-stock_of product p n r h = ground (arith, eq_iff r.id product, eq_iff r.id p, eq_iff product p)

reserve-reserved_at :
    (warehouse product w p : String) (n : ℕ) (r : InventoryRow)
    → stored_at warehouse product r ≡ true
    → reserved_at w p (reserve_row n r) + 0
      ≡ reserved_at w p r + (if str_eq warehouse w && str_eq product p then n else 0)
reserve-reserved_at warehouse product w p n r h = ground (
  arith,
  eq_iff r.product_id product,
  eq_iff r.product_id p,
  eq_iff product p,
  eq_iff r.warehouse_id warehouse,
  eq_iff r.warehouse_id w,
  eq_iff warehouse w,
)

pub reserve_line-ok :
    (env : Env) (order warehouse : String) (line : Line) (db db' : Db)
    → reserve_line env order warehouse line db ≡ ok db'
    → (affected (sellable line.product_id (units line.quantity)) db.products ≡ 1)
      × (db' ≡ write_line env order warehouse line db)
unfolding reserve_line
reserve_line-ok env order warehouse line db db' h = ground arith

held_at-new_reservation :
    (env : Env) (order warehouse : String) (line : Line) (db : Db) (w p : String)
    → held_at w p (new_reservation env order warehouse line db)
      ≡ (if str_eq warehouse w && str_eq line.product_id p then units line.quantity else 0)
held_at-new_reservation env order warehouse line db w p = ground arith

module _ (env : Env) (order warehouse : String) (line : Line) (db : Db)
    (stored : affected (stored_at warehouse line.product_id) db.inventory ≡ 1)
    (sold : affected (sellable line.product_id (units line.quantity)) db.products ≡ 1) where
  write_line-IsConserved : IsConserved db → IsConserved (write_line env order warehouse line db)
  write_line-IsConserved h p =
      let n = units line.quantity in
      let product = line.product_id in
      let moved = if str_eq product p then n else 0 in
      let taken =
        total-update_one (sellable product n) (take_stock n) (stock_of p) moved 0 db.products sold
          (take-stock_of product p n) in
      let held =
        total-update_one (stored_at warehouse product) (reserve_row n) (reserved_of p) 0 moved
          db.inventory stored (reserve-reserved_of warehouse product p n) in
      let kept =
        total-update_where_same (stored_at warehouse product) (reserve_row n) (on_hand_of p)
          (λ r _. refl) db.inventory in
      omega (arith, h p, taken, held, kept)

  write_line-IsAccounted : IsAccounted db → IsAccounted (write_line env order warehouse line db)
  write_line-IsAccounted h w p =
      let n = units line.quantity in
      let product = line.product_id in
      let moved = if str_eq warehouse w && str_eq product p then n else 0 in
      let held =
        total-update_one (stored_at warehouse product) (reserve_row n) (reserved_at w p) 0 moved
          db.inventory stored (reserve-reserved_at warehouse product w p n) in
      omega (arith, h w p, held, held_at-new_reservation env order warehouse line db w p)

  write_line-IsKeyed : IsKeyed db → IsKeyed (write_line env order warehouse line db)
  write_line-IsKeyed k = record {
    one_stock = λ w p.
        rw
          (affected-update_where (stored_at w p) (stored_at warehouse line.product_id)
            (reserve_row (units line.quantity)) (λ r. refl) db.inventory)
          (k.one_stock w p);
    one_product = λ p. rw (same p) (k.one_product p);
    known_product = (
      rw (same line.product_id) (
          omega (
            arith,
            k.one_product line.product_id,
            affected-le (sellable line.product_id (units line.quantity))
                (product_is line.product_id) (λ r e. ground arith) db.products,
          )),
      All-map (λ r e. rw (same r.product_id) e) db.reservations k.known_product,
    );
  }
    where
      same :
          (p : String)
          → affected (product_is p) (write_line env order warehouse line db).products
            ≡ affected (product_is p) db.products
      same p =
          affected-update_where (product_is p) (sellable line.product_id (units line.quantity))
            (take_stock (units line.quantity)) (λ r. refl) db.products

  write_line-Inv : Inv db → Inv (write_line env order warehouse line db)
  write_line-Inv v = record {
    conserved = write_line-IsConserved v.conserved;
    accounted = write_line-IsAccounted v.accounted;
    keyed = write_line-IsKeyed v.keyed;
  }

-- A reserved line keeps the invariants, where the warehouse has a row for its product.
pub reserve_line-Inv :
    (env : Env) (order warehouse : String) (line : Line) (db db' : Db)
    → affected (stored_at warehouse line.product_id) db.inventory ≡ 1
    → reserve_line env order warehouse line db ≡ ok db'
    → Inv db
    → Inv db'
reserve_line-Inv env order warehouse line db db' stored h v =
    let (sold, e) = reserve_line-ok env order warehouse line db db' h in
    rw e (write_line-Inv env order warehouse line db stored sold v)
