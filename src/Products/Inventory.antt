-- ===== src/Products/Inventory.antt =====
-- What the initial inventory of a new product adds to the stock tables.
use enterprise_integration_s.Common.{
  ℕ, ◌+◌, ◌*◌, ◌%◌, ◌^◌, ◌<◌, ◌≤◌, ◌≡◌, refl, sym, ◌∙◌, String, ◌||◌, none, List, [], ◌∷◌, ok,
  str_eq, eq_iff, if◌then◌else◌, arith, length, bind-ok, Bool-cases, inl, inr,
}
use enterprise_integration_s.Common.Table.{affected, total, query_row, affected-none_le}
use enterprise_integration_s.Common.Keys.{affected-query_none}
use enterprise_integration_s.Orders.Provider.{Strings}
use enterprise_integration_s.Store.{Db}
use enterprise_integration_s.Inventory.Allocation.{units, stored_at}
use enterprise_integration_s.Inventory.Invariant.{on_hand_of, reserved_of, reserved_at}
use enterprise_integration_s.Products.{
  InitialInventory, sum_inventory, reject_if, trimmed, is_negative, member,
}
use enterprise_integration_s.Products.Catalogue.{
  inventory_row, insert_inventory, insert_allocations,
}

abbrev pub quantity_of : InitialInventory → ℕ
quantity_of a = units a.on_hand_quantity

-- The inventory of `product` has grown by `n` units on hand, none of them reserved.
pub record Stocked (product : String) (n : ℕ) (db db' : Db) : Type 0 where
  pub on_hand :
      (q : String)
      → total (on_hand_of q) db'.inventory
        ≡ total (on_hand_of q) db.inventory + (if str_eq product q then n else 0)
  pub reserved :
      (q : String) → total (reserved_of q) db'.inventory ≡ total (reserved_of q) db.inventory
  pub reserved_in :
      (w q : String) → total (reserved_at w q) db'.inventory ≡ total (reserved_at w q) db.inventory
  pub one_stock :
      ((w q : String) → affected (stored_at w q) db.inventory ≤ 1)
      → (w q : String) → affected (stored_at w q) db'.inventory ≤ 1
  pub products : db'.products ≡ db.products
  pub reservations : db'.reservations ≡ db.reservations

insert_inventory-ok :
    (shop product : String) (a : InitialInventory) (db : Db) {db' : Db}
    → insert_inventory shop product a db ≡ ok db'
    → (db' ≡ record db { inventory = inventory_row product a ∷ db.inventory })
      × (query_row (stored_at a.warehouse_id product) db.inventory ≡ none)
      × (quantity_of a < 2 ^ 31)
unfolding insert_inventory
insert_inventory-ok shop product a db {db'} e = ground arith

inventory_row-Stocked :
    (product : String) (a : InitialInventory) (db : Db)
    → query_row (stored_at a.warehouse_id product) db.inventory ≡ none
    → Stocked product
        (quantity_of a)
        db
        (record db { inventory = inventory_row product a ∷ db.inventory })
inventory_row-Stocked product a db new = record {
  on_hand = λ q. ground arith;
  reserved = λ q. ground arith;
  reserved_in = λ w q. ground arith;
  one_stock = λ one w q. elim (Bool-cases (stored_at w q (inventory_row product a))) [
    | inl t ↦
        let is_w : a.warehouse_id ≡ w = ground (arith, eq_iff a.warehouse_id w) in
        let is_q : product ≡ q = ground (arith, eq_iff product q) in
        let none_at = affected-query_none (stored_at a.warehouse_id product) db.inventory new in
        let gone =
          affected-none_le (stored_at a.warehouse_id product) (stored_at w q)
            (λ r h. ground (arith, is_w, is_q)) db.inventory none_at in
        rw t (omega arith)
    | inr f ↦ rw f (omega (arith, one w q))
  ];
  products = refl;
  reservations = refl;
}

Stocked-trans :
    (product : String) (n m : ℕ) (db mid db' : Db)
    → Stocked product n db mid
    → Stocked product m mid db'
    → Stocked product (n + m) db db'
Stocked-trans product n m db mid db' a b = record {
  on_hand = λ q. ground (arith, a.on_hand q, b.on_hand q);
  reserved = λ q. b.reserved q ∙ a.reserved q;
  reserved_in = λ w q. b.reserved_in w q ∙ a.reserved_in w q;
  one_stock = λ one. b.one_stock (a.one_stock one);
  products = b.products ∙ a.products;
  reservations = b.reservations ∙ a.reservations;
}

Stocked-none : (product : String) (db : Db) → Stocked product 0 db db
Stocked-none product db = record {
  on_hand = λ q. ground arith;
  reserved = λ q. refl;
  reserved_in = λ w q. refl;
  one_stock = λ one. one;
  products = refl;
  reservations = refl;
}

pub insert_allocations-Stocked :
    (shop product : String) (allocations : List InitialInventory) (db : Db) {db' : Db}
    → insert_allocations shop product allocations db ≡ ok db'
    → Stocked product (total quantity_of allocations) db db'
      × (total quantity_of allocations ≤ length allocations * 2 ^ 31)
unfolding insert_allocations
insert_allocations-Stocked shop product [] db {db'} e =
    let same : db ≡ db' = ground arith in (rw (sym same) (Stocked-none product db), omega arith)
insert_allocations-Stocked shop product (a ∷ rest) db {db'} e =
    let (mid, first, later) =
      bind-ok (insert_inventory shop product a db) (insert_allocations shop product rest) {b = db'}
        e in
    let (written, new, few) = insert_inventory-ok shop product a db first in
    let one : Stocked product (quantity_of a) db mid =
      rw written (inventory_row-Stocked product a db new) in
    let (more, bound) = insert_allocations-Stocked shop product rest mid later in
    (
      Stocked-trans product (quantity_of a) (total quantity_of rest) db mid db' one more,
      omega arith,
    )

-- The stock of the sum is what the allocations hold, as far as 64 bits go.
pub sum_inventory-total :
    (str : Strings) (seen : List String) (n : ℕ) (given : List InitialInventory)
    {allocations : List InitialInventory} {s : ℕ}
    → sum_inventory str seen n given ≡ ok (allocations, s)
    → (s % 2 ^ 64 ≡ (n + total quantity_of allocations) % 2 ^ 64)
      × (length allocations ≡ length given)
unfolding sum_inventory
sum_inventory-total str seen n [] {allocations} {s} e = (ground arith, ground arith)
sum_inventory-total str seen n (x ∷ given) {allocations} {s} e =
    let a = trimmed str x in
    let (_, _, e₁) =
      bind-ok (reject_if (str_eq a.warehouse_id "" || is_negative a.on_hand_quantity)) _
        {b = (allocations, s)} e in
    let (_, _, e₂) = bind-ok (reject_if (member a.warehouse_id seen)) _ {b = (allocations, s)} e₁ in
    let (found, e₃, e₄) =
      bind-ok (sum_inventory str (a.warehouse_id ∷ seen) ((n + quantity_of a) % 2 ^ 64) given) _
        {b = (allocations, s)} e₂ in
    let (sum, many) =
      sum_inventory-total str (a.warehouse_id ∷ seen) ((n + quantity_of a) % 2 ^ 64) given
        {allocations = found.0} {s = found.1} e₃ in
    let is_list : a ∷ found.0 ≡ allocations = ground arith in
    let is_sum : found.1 ≡ s = ground arith in
    rw (sym is_list, sym is_sum) (omega (arith, sum), omega (arith, many))
