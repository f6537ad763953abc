-- ===== src/Products/Archival.antt =====
-- An archived product is one that no live reservation needs.
use enterprise_integration_s.Common.{
  ◌≡◌, refl, sym, String, false, none, List, [], ◌∷◌, ok, err, arith, bind-ok, Bool-cases, inl, inr,
  is_some, if◌then◌else◌,
}
use enterprise_integration_s.Common.Table.{
  affected, query_row, update_where, All-map, total-update_where_same, affected-update_where,
}
use enterprise_integration_s.Common.Keys.{affected-query_none}
use enterprise_integration_s.Orders.State.{entry}
use enterprise_integration_s.Store.{ProductRow, Db, Env}
use enterprise_integration_s.Events.{record_event}
use enterprise_integration_s.Inventory.Holding.{product_is}
use enterprise_integration_s.Inventory.Invariant.{stock_of, Inv}
use enterprise_integration_s.Products.{product_in_use}
use enterprise_integration_s.Products.Catalogue.{archive, is_listed, needs, or_missing}
use enterprise_integration_s.Products.Stock.{same_tables-Inv}

pub record Archived (shop product : String) (db : Db) : Type 0 where
  pub unlisted : affected (is_listed shop product) db.products ≡ 0
  pub unneeded : affected (needs product) db.reservations ≡ 0
  pub inv : Inv db

abbrev deleted : ProductRow → ProductRow
deleted r = record r { status = "DELETED" }

abbrev withdrawn : String → String → Db → Db
withdrawn shop product db = record db {
  products = update_where (is_listed shop product) deleted db.products;
}

update_where-none :
    (shop product : String) (rows : List ProductRow)
    → affected (is_listed shop product) (update_where (is_listed shop product) deleted rows) ≡ 0
update_where-none shop product [] = refl
update_where-none shop product (r ∷ rows) =
    let gone : is_listed shop product (deleted r) ≡ false = ground arith in
    let rest = update_where-none shop product rows in
    elim (Bool-cases (is_listed shop product r)) [
      | inl t ↦ rw (t, gone) (omega (arith, rest))
      | inr f ↦ rw (f, f) (omega (arith, rest))
    ]

withdrawn-Inv : (shop product : String) (db : Db) → Inv db → Inv (withdrawn shop product db)
withdrawn-Inv shop product db inv =
    let q = is_listed shop product in
    let kept : (p : String)
        → affected (product_is p) (update_where q deleted db.products)
          ≡ affected (product_is p) db.products =
      λ p. affected-update_where (product_is p) q deleted (λ r. refl) db.products in
    record {
      conserved = λ p.
          rw (total-update_where_same q deleted (stock_of p) (λ r _. refl) db.products)
            (inv.conserved p);
      accounted = inv.accounted;
      keyed = record {
        one_stock = inv.keyed.one_stock;
        one_product = λ p. rw (kept p) (inv.keyed.one_product p);
        known_product =
            All-map (λ r one. rw (kept r.product_id) one) db.reservations inv.keyed.known_product;
      };
    }

-- Where the accounting invariants hold and Archive succeeds, the product is no longer
-- listed, no active or committed reservation is of it, and the invariants still hold.
pub archive-Archived :
    (env : Env) (shop product : String) (db : Db) {db' : Db}
    → archive env shop product db ≡ ok db'
    → Inv db
    → Archived shop product db'
unfolding archive record_event
archive-Archived env shop product db {db'} e inv =
    let (_, _, e₁) =
      bind-ok (or_missing (query_row (is_listed shop product) db.products)) _ {b = db'} e in
    let (_, free, e₂) =
      bind-ok
        (if is_some (query_row (needs product) db.reservations) then err product_in_use else ok tt)
        _ {b = db'} e₁ in
    let last : Db =
      record_event env shop "product.deleted" product (entry "id" product ∷ [])
        (withdrawn shop product db) in
    let is_last : last ≡ db' = ground arith in
    let unneeded : query_row (needs product) db.reservations ≡ none = ground arith in
    rw (sym is_last) (record {
      unlisted = update_where-none shop product db.products;
      unneeded = affected-query_none (needs product) db.reservations unneeded;
      inv =
          same_tables-Inv (withdrawn shop product db) last refl refl refl
            (withdrawn-Inv shop product db inv);
    })
