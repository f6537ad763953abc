-- ===== src/Products/Stock.antt =====
-- A new product keeps the accounting of the warehouse stock.
use enterprise_integration_s.Common.{
  ℕ, suc, ◌*◌, ◌%◌, ◌^◌, ◌≤◌, ◌≡◌, refl, sym, ap, ◌∙◌, String, true, false, none, List, [], ◌∷◌,
  Result, ok, err, str_eq, eq_iff, arith, length, bind-ok, Bool-cases, inl, inr, ◌⊎◌, ◌<◌, not, ltb,
}
use enterprise_integration_s.Common.Int.{ℤ, pos, int64}
use enterprise_integration_s.Common.Table.{affected, total, query_row, All-map}
use enterprise_integration_s.Common.Keys.{affected-query_none}
use enterprise_integration_s.Orders.Provider.{Strings}
use enterprise_integration_s.Store.{Db, Env}
use enterprise_integration_s.Inventory.Allocation.{Error, units}
use enterprise_integration_s.Inventory.Holding.{product_is}
use enterprise_integration_s.Inventory.Warehouses.{ensure_default_warehouse}
use enterprise_integration_s.Inventory.Invariant.{
  reserved_at, IsConserved, IsAccounted, IsKeyed, Inv,
}
use enterprise_integration_s.Events.{record_event}
use enterprise_integration_s.Products.{
  InitialInventory, Draft, Product, with_inventory, sum_inventory, normalise_draft, create,
  reject_if, trimmed_draft, is_incomplete, or_default, is_product_status,
}
use enterprise_integration_s.Products.Catalogue.{
  create as persist, insert_product, product_row, product_payload, insert_allocations,
  allocations_of, defaulted, postgresql_creator,
}
use enterprise_integration_s.Products.Inventory.{
  quantity_of, Stocked, insert_allocations-Stocked, sum_inventory-total,
}

insert_product-ok :
    (p : Product) (db : Db) {db' : Db}
    → insert_product p db ≡ ok db'
    → (db' ≡ record db { products = product_row p ∷ db.products })
      × (query_row (product_is p.id) db.products ≡ none)
      × (p.draft.stock ≡ pos (units p.draft.stock))
unfolding insert_product
insert_product-ok p db {db'} e = (ground arith, ground arith, ground arith)

-- The default warehouse changes nothing that the accounting reads.
allocations_of-kept :
    (p : Product) (given : List InitialInventory) (db : Db) {allocations : List InitialInventory}
    {db' : Db}
    → allocations_of p given db ≡ ok (allocations, db')
    → (db'.inventory ≡ db.inventory)
      × (db'.products ≡ db.products)
      × (db'.reservations ≡ db.reservations)
unfolding allocations_of ensure_default_warehouse
allocations_of-kept p [] db {allocations} {db'} e = (ground arith, ground arith, ground arith)
allocations_of-kept p (a ∷ rest) db {allocations} {db'} e =
    (ground arith, ground arith, ground arith)

-- A product that the tables did not have, with a stock of `n` that its warehouses were given.
module _ (p : Product) (n : ℕ) (db opened db' : Db) (inv : Inv db)
    (new : affected (product_is p.id) db.products ≡ 0) (same_stock : units p.draft.stock ≡ n)
    (same_inventory : opened.inventory ≡ db.inventory) (st : Stocked p.id n opened db')
    (products : db'.products ≡ product_row p ∷ db.products)
    (reservations : db'.reservations ≡ db.reservations) where
  created-IsConserved : IsConserved db'
  created-IsConserved q =
      let on_hand = rw same_inventory at (st.on_hand q) in
      let reserved = rw same_inventory at (st.reserved q) in
      rw products (ground (arith, inv.conserved q, on_hand, reserved))

  created-IsAccounted : IsAccounted db'
  created-IsAccounted w q =
      rw reservations
        (st.reserved_in w q ∙ ap (total (reserved_at w q)) same_inventory ∙ inv.accounted w q)

  others_apart : (r : String) → affected (product_is r) db.products ≡ 1 → str_eq p.id r ≡ false
  others_apart r one = elim (Bool-cases (str_eq p.id r)) [
    | inl t ↦
        let same : p.id ≡ r = ground (arith, eq_iff p.id r) in
        absurd (ground (arith, rw same at new))
    | inr f ↦ f
  ]

  created-IsKeyed : IsKeyed db'
  created-IsKeyed = record {
    one_stock = st.one_stock (rw same_inventory inv.keyed.one_stock);
    one_product = λ q. rw products (elim (Bool-cases (str_eq p.id q)) [
      | inl t ↦
          let same : p.id ≡ q = ground (arith, eq_iff p.id q) in ground (arith, rw same at new)
      | inr f ↦ ground (arith, inv.keyed.one_product q)
    ]);
    known_product =
        rw (products, reservations)
          (All-map (λ r one. ground (arith, others_apart r.product_id one)) db.reservations
            inv.keyed.known_product);
  }

  created-Inv : Inv db'
  created-Inv = record {
    conserved = created-IsConserved;
    accounted = created-IsAccounted;
    keyed = created-IsKeyed;
  }

-- The stock of a draft is the sum, to 64 bits, of the initial inventory that it has, if any.
abbrev pub IsStocked : Draft → Type 0
IsStocked d =
    (d.initial_inventory ≡ [])
    ⊎ ((s : ℕ) × (d.stock ≡ int64 s)
        × (s % 2 ^ 64 ≡ total quantity_of d.initial_inventory % 2 ^ 64)
        × (length d.initial_inventory < 2 ^ 32))

with_inventory-IsStocked :
    (str : Strings) (d : Draft) (given : List InitialInventory) {d' : Draft}
    → d.initial_inventory ≡ given
    → length given < 2 ^ 32
    → with_inventory str d given ≡ ok d'
    → IsStocked d'
unfolding with_inventory
with_inventory-IsStocked str d [] {d'} same few e =
    let is_d : d ≡ d' = ground arith in rw (sym is_d) (inl same)
with_inventory-IsStocked str d (a ∷ more) {d'} same few e =
    let (found, sums, done) = bind-ok (sum_inventory str [] 0 (a ∷ more)) _ {b = d'} e in
    let (sum, many) =
      sum_inventory-total str [] 0 (a ∷ more) {allocations = found.0} {s = found.1} sums in
    let written : Draft = record d { initial_inventory = found.0; stock = int64 found.1 } in
    let is_d : written ≡ d' = ground arith in
    rw (sym is_d) (inr (found.1, refl, omega (arith, sum), omega (arith, many, few)))

normalise_draft-IsStocked :
    (str : Strings) (given : Draft) {d : Draft}
    → length given.initial_inventory < 2 ^ 32
    → normalise_draft str given ≡ ok d
    → IsStocked d
unfolding normalise_draft
normalise_draft-IsStocked str given {d} few e =
    let trim = trimmed_draft str given in
    let (_, _, e₁) = bind-ok (reject_if (is_incomplete str trim)) _ {b = d} e in
    let (stocked, found, e₂) =
      bind-ok (with_inventory str trim trim.initial_inventory) _ {b = d} e₁ in
    let sums =
      with_inventory-IsStocked str trim trim.initial_inventory {d' = stocked} refl few found in
    let complete : Draft = record stocked {
      category = or_default "Uncategorized" stocked.category;
      status = or_default "ACTIVE" stocked.status;
    } in
    let (_, _, e₃) = bind-ok (reject_if (not (is_product_status complete.status))) _ {b = d} e₂ in
    let is_d : complete ≡ d = ground arith in rw (sym is_d) sums

int64-pos : (s t : ℕ) → s % 2 ^ 64 ≡ t % 2 ^ 64 → t < 2 ^ 63 → int64 s ≡ pos t
int64-pos s t same few =
    let bits : s % 2 ^ 64 ≡ t = omega (arith, same, few) in
    let low : ltb t (2 ^ 63) ≡ true = ground (arith, few) in rw (bits, low) refl

defaulted-total :
    (stock : ℤ) (r : Result Error (String × Db)) {allocations : List InitialInventory} {opened : Db}
    → defaulted stock r ≡ ok (allocations, opened)
    → total quantity_of allocations ≡ units stock
defaulted-total stock (err _) e = absurd cc
defaulted-total stock (ok (warehouse, db)) {allocations} e =
    let whole : InitialInventory = record { warehouse_id = warehouse; on_hand_quantity = stock } in
    let is_whole : whole ∷ [] ≡ allocations = ground arith in rw (sym is_whole) (omega arith)

-- What the allocations of an accepted product add up to is its stock.
allocations_of-total :
    (p : Product) (given : List InitialInventory) (db : Db) {allocations : List InitialInventory}
    {opened : Db}
    → p.draft.initial_inventory ≡ given
    → IsStocked p.draft
    → p.draft.stock ≡ pos (units p.draft.stock)
    → allocations_of p given db ≡ ok (allocations, opened)
    → total quantity_of allocations ≤ length allocations * 2 ^ 31
    → units p.draft.stock ≡ total quantity_of allocations
unfolding allocations_of ensure_default_warehouse
allocations_of-total p [] db {allocations} {opened} same stocked count e bound = sym (
    defaulted-total p.draft.stock (ensure_default_warehouse p.shop_id db)
      {allocations = allocations} {opened = opened} e)
allocations_of-total p (a ∷ rest) db {allocations} {opened} same stocked count e bound =
    elim stocked [
      | inl none_given ↦ absurd cc
      | inr (s, is_s, sum, few) ↦
          let is_given : p.draft.initial_inventory ≡ allocations = same ∙ ground arith in
          let exact =
            int64-pos s (total quantity_of allocations) (rw is_given at sum)
              (omega (arith, rw is_given at few)) in
          let both : pos (units p.draft.stock) ≡ pos (total quantity_of allocations) =
            sym count ∙ is_s ∙ exact in
          ground arith
    ]

-- What the accounting reads is three tables.
pub same_tables-Inv :
    (db db' : Db)
    → db'.inventory ≡ db.inventory
    → db'.products ≡ db.products
    → db'.reservations ≡ db.reservations
    → Inv db
    → Inv db'
same_tables-Inv db db' same_i same_p same_r inv = record {
  conserved = λ q. rw (same_i, same_p) (inv.conserved q);
  accounted = λ w q. rw (same_i, same_r) (inv.accounted w q);
  keyed = record {
    one_stock = λ w q. rw same_i (inv.keyed.one_stock w q);
    one_product = λ q. rw same_p (inv.keyed.one_product q);
    known_product = rw (same_p, same_r) inv.keyed.known_product;
  };
}

persist-Inv :
    (env : Env) (p : Product) (db : Db) {db' : Db}
    → IsStocked p.draft
    → persist env p db ≡ ok db'
    → Inv db
    → Inv db'
unfolding persist record_event
persist-Inv env p db {db'} stocked e inv =
    let (inserted, e₁, e₂) = bind-ok (insert_product p db) _ {b = db'} e in
    let ((allocations, opened), e₃, e₄) =
      bind-ok (allocations_of p p.draft.initial_inventory inserted) _ {b = db'} e₂ in
    let (stored, e₅, e₆) =
      bind-ok (insert_allocations p.shop_id p.id allocations opened) _ {b = db'} e₄ in
    let (is_inserted, new, count) = insert_product-ok p db e₁ in
    let (same_i, same_p, same_r) = allocations_of-kept p p.draft.initial_inventory inserted e₃ in
    let (st, bound) = insert_allocations-Stocked p.shop_id p.id allocations opened e₅ in
    let sum =
      allocations_of-total p p.draft.initial_inventory inserted refl stocked count e₃ bound in
    let inv' =
      created-Inv p (total quantity_of allocations) db opened stored inv
        (affected-query_none (product_is p.id) db.products new) sum
        (same_i ∙ ap (λ (d : Db). d.inventory) is_inserted) st
        (st.products ∙ same_p ∙ ap (λ (d : Db). d.products) is_inserted)
        (st.reservations ∙ same_r ∙ ap (λ (d : Db). d.reservations) is_inserted) in
    let last : Db =
      record_event env p.shop_id "product.created" p.id (product_payload (product_row p)) stored in
    let is_last : last ≡ db' = ground arith in
    rw (sym is_last) (same_tables-Inv stored last refl refl refl inv')

-- Where the accounting invariants hold, a product that the service creates in PostgreSQL, with an
-- initial inventory of fewer than 2^32 warehouses or none, keeps them, for the new product too.
pub create-Inv :
    (str : Strings) (env : Env) (shop : String) (given : Draft) (db : Db) {product : Product}
    {db' : Db}
    → length given.initial_inventory < 2 ^ 32
    → create str env (postgresql_creator env) shop given db ≡ ok (product, db')
    → Inv db
    → Inv db'
unfolding create
create-Inv str env shop given db {product} {db'} few e inv =
    let (d, e₁, e₂) = bind-ok (normalise_draft str given) _ {b = (product, db')} e in
    let p : Product = record { id = env.new_id "prd" db.drawn; shop_id = shop; draft = d } in
    let drawn : Db = record db { drawn = suc db.drawn } in
    let (stored, e₃, e₄) = bind-ok (persist env p drawn) _ {b = (product, db')} e₂ in
    let is_stored : stored ≡ db' = ground arith in
    rw (sym is_stored) (
      persist-Inv env p drawn (normalise_draft-IsStocked str given few e₁) e₃
        (same_tables-Inv db drawn refl refl refl inv))
