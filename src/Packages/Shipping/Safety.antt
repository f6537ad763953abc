-- ===== src/Packages/Shipping/Safety.antt =====
-- The shipments that createShipmentForOrder creates.
use enterprise_integration_s.Common.{
  suc, ◌≤◌, ◌≡◌, ◌∙◌, refl, sym, String, true, ◌&&◌, ◌||◌, str_eq, eq_iff, List, ◌∷◌, ◌++◌, none,
  some, arith, Bool-cases, Option-cases, inl, inr, ok, bind-ok, length, List-cases,
}
use enterprise_integration_s.Common.Table.{
  affected, total, query_row, All, All-map, affected-none_le,
}
use enterprise_integration_s.Common.Keys.{query_row_holds, affected-query_none}
use enterprise_integration_s.Common.Keys.Found.{affected-append}
use enterprise_integration_s.Orders.Provider.{Strings}
use enterprise_integration_s.Store.{PackageItemRow, PackageRow, ShipmentRow, created, Db, Env}
use enterprise_integration_s.Repository.{order_in}
use enterprise_integration_s.Packages.{
  in_package, packed_of, insert_package, commit_package, found_row, fulfillment_of, new_package,
}
use enterprise_integration_s.Packages.Contents.{Packed}
use enterprise_integration_s.Packages.Contents.Filling.{insert_package-ok}
use enterprise_integration_s.Packages.Shipping.{
  ShipmentInput, remaining_contents, insert_remaining, check_package, new_shipment, ships,
  insert_shipment, readable_input, tracking_of, ship_rest, ship_package, create_shipment_for_order,
}
use enterprise_integration_s.Packages.Shipping.Rest.{
  rest_complete, rest-Fits, rest-HasOneContent, rest-kept, rest-count,
}

-- shipments_package_unique_idx
abbrev pub HasOneShipment : Db → Type 0
HasOneShipment db = (parcel : String) → affected (λ s. ships parcel s.package_id) db.shipments ≤ 1

-- The one shipment that a request has added, for a package with contents.
pub record NewShipment (order : String) (db db' : Db) : Type 0 where
  pub s : ShipmentRow
  pub parcel : String
  pub added : db'.shipments ≡ s ∷ db.shipments
  pub of_order : s.order_id ≡ order
  pub of_package : s.package_id ≡ some parcel
  pub is_created : s.status ≡ created
  pub contains : 1 ≤ affected (in_package parcel) db'.package_items
  pub orders_same : db'.orders ≡ db.orders

-- Every item of the order is allocated to its last unit.
abbrev pub IsAllPacked : String → Db → Type 0
IsAllPacked order db =
    All
      (λ oi.
        str_eq oi.order_id order ≡ true → total (packed_of oi.id) db.package_items ≡ oi.quantity)
      db.order_items

insert_shipment-ok :
    (s : ShipmentRow) (parcel : String) (db db' : Db)
    → insert_shipment s parcel db ≡ ok db'
    → (affected (λ x. ships parcel x.package_id) db.shipments ≡ 0)
      × (db' ≡ record db { shipments = s ∷ db.shipments })
unfolding insert_shipment
insert_shipment-ok s parcel db db' h =
    let taken = λ (x : ShipmentRow).
      (str_eq x.id s.id || str_eq x.tracking_number s.tracking_number)
      || ships parcel x.package_id in
    elim (Option-cases (query_row taken db.shipments)) [
      | inr (x, there) ↦ ground arith
      | inl free ↦ (
        affected-none_le taken (λ x. ships parcel x.package_id) (λ x e. ground arith) db.shipments
            (affected-query_none taken db.shipments free),
        ground arith,
      )
    ]

added-HasOneShipment :
    (s : ShipmentRow) (parcel : String) (rows : List ShipmentRow)
    → s.package_id ≡ some parcel
    → affected (λ x. ships parcel x.package_id) rows ≡ 0
    → ((p : String) → affected (λ x. ships p x.package_id) rows ≤ 1)
    → (p : String) → affected (λ x. ships p x.package_id) (s ∷ rows) ≤ 1
added-HasOneShipment s parcel rows named free one p =
    rw named (elim (Bool-cases (str_eq parcel p)) [
      | inr apart ↦ rw apart (omega (arith, one p))
      | inl same ↦ let here = rw ((eq_iff parcel p).0 same) at free in rw same (omega (arith, here))
    ])

commit_package-same : (parcel : String) (db db' : Db) → commit_package parcel db ≡ ok db' → db ≡ db'
unfolding commit_package
commit_package-same parcel db db' h = ground arith

insert_remaining-ok :
    (parcel order : String) (db db' : Db)
    → insert_remaining parcel order db ≡ ok db'
    → let added = remaining_contents parcel order db.order_items db.package_items in
      (1 ≤ length added)
      × (query_row (in_package parcel) db.package_items ≡ none)
      × (db' ≡ record db { package_items = added ++ db.package_items })
unfolding insert_remaining
insert_remaining-ok parcel order db db' h =
    elim (List-cases (remaining_contents parcel order db.order_items db.package_items)) [
      | inl e ↦ let h = rw (e, insert_remaining) at h in absurd cc
      | inr (i, rest, e) ↦ elim (Option-cases (query_row (in_package parcel) db.package_items)) [
        | inr (x, taken) ↦ let h = rw (e, insert_remaining, taken) at h in absurd cc
        | inl free ↦
            let h = rw (e, insert_remaining, free) at h in rw e (ground arith, free, ground arith)
      ]
    ]

check_package-ok :
    (order warehouse parcel : String) (db : Db)
    → check_package
        (query_row
          (λ p. (str_eq p.id parcel && str_eq p.order_id order) && str_eq p.warehouse_id warehouse)
          db.packages)
        db.package_items
      ≡ ok tt
    → 1 ≤ affected (in_package parcel) db.package_items
unfolding check_package
check_package-ok order warehouse parcel db h =
    let mine = λ (p : PackageRow).
      (str_eq p.id parcel && str_eq p.order_id order) && str_eq p.warehouse_id warehouse in
    elim (Option-cases (query_row mine db.packages)) [
      | inl missing ↦ let h = rw missing at h in absurd cc
      | inr (p, found) ↦
          let key = query_row_holds mine db.packages {r = p} found in
          let same : p.id ≡ parcel = ground (arith, eq_iff p.id parcel) in
          let h = rw found at h in rw (sym same) (ground arith)
    ]

module _ (str : Strings) (env : Env) (order warehouse : String) (input : ShipmentInput)
    (db db' : Db) (v : Packed db) (one : HasOneShipment db) where
  abbrev added_contents : List PackageItemRow
  added_contents =
      remaining_contents (env.new_id "pkg" (suc (suc db.drawn))) order db.order_items
        db.package_items

  abbrev rest_shipment : ShipmentRow
  rest_shipment =
      new_shipment (env.new_id "shp" db.drawn) order (env.new_id "pkg" (suc (suc db.drawn)))
        (tracking_of str env (suc db.drawn)) input

  abbrev rest_opened : Db
  rest_opened = record db {
    packages = new_package (env.new_id "pkg" (suc (suc db.drawn))) order warehouse ∷ db.packages;
    drawn = suc (suc (suc db.drawn));
  }

  abbrev rest_shipped : Db
  rest_shipped = record rest_opened {
    package_items = added_contents ++ db.package_items;
    shipments = rest_shipment ∷ db.shipments;
  }

  rest_shipped-NewShipment :
      1 ≤ length added_contents
      → query_row (in_package (env.new_id "pkg" (suc (suc db.drawn)))) db.package_items ≡ none
      → affected (λ x. ships (env.new_id "pkg" (suc (suc db.drawn))) x.package_id) db.shipments ≡ 0
      → Packed rest_shipped
        × HasOneShipment rest_shipped
        × NewShipment order db rest_shipped
        × IsAllPacked order rest_shipped
  rest_shipped-NewShipment some_left free unsent =
      let parcel = env.new_id "pkg" (suc (suc db.drawn)) in
      let count =
        rw ((eq_iff parcel parcel).1 refl) at
          (rest-count parcel order db.package_items db.order_items parcel) in
      let contains : 1 ≤ affected (in_package parcel) (added_contents ++ db.package_items) = omega (
        arith,
        count,
        some_left,
        affected-append (in_package parcel) added_contents db.package_items,
      ) in
      (
        record {
          one_item = v.one_item;
          one_content =
              rest-HasOneContent parcel order db.package_items db.order_items v.one_item free
                v.one_content;
          fits = rest-Fits parcel order db.package_items db.order_items v.one_item v.fits;
          filled = (
            contains,
            All-map
                (λ p some_there. omega (
                  arith,
                  rest-kept parcel order db.package_items db.order_items v.one_item p.id,
                  some_there,
                ))
                db.packages v.filled,
          );
        },
        added-HasOneShipment rest_shipment parcel db.shipments refl unsent one,
        record {
          s = rest_shipment;
          parcel = parcel;
          added = refl;
          of_order = refl;
          of_package = refl;
          is_created = refl;
          contains = contains;
          orders_same = refl;
        },
        rest_complete parcel order db.package_items db.order_items v.one_item v.fits,
      )

  ship_rest-NewShipment :
      ship_rest str env order warehouse input db ≡ ok db'
      → Packed db' × HasOneShipment db' × NewShipment order db db' × IsAllPacked order db'
  unfolding ship_rest
  ship_rest-NewShipment h =
      let parcel = env.new_id "pkg" (suc (suc db.drawn)) in
      let drawn : Db = record db { drawn = suc (suc (suc db.drawn)) } in
      let (opened, inserted, h₁) =
        bind-ok (insert_package parcel order warehouse drawn) _ {b = db'} h in
      let h₁ = rw (insert_package-ok parcel order warehouse drawn opened inserted) at h₁ in
      let (filled, rested, h₂) =
        bind-ok (insert_remaining parcel order rest_opened) _ {b = db'} h₁ in
      let (some_left, free, filled_is) =
        insert_remaining-ok parcel order rest_opened filled rested in
      let h₂ = rw filled_is at h₂ in
      let full : Db = record rest_opened { package_items = added_contents ++ db.package_items } in
      let (shipped, sent, h₃) =
        bind-ok (insert_shipment rest_shipment parcel full) _ {b = db'} h₂ in
      let (unsent, shipped_is) = insert_shipment-ok rest_shipment parcel full shipped sent in
      let last : rest_shipped ≡ db' = sym shipped_is ∙ commit_package-same parcel shipped db' h₃ in
      rw (sym last) (rest_shipped-NewShipment some_left free unsent)

  ship_package-NewShipment :
      ship_package str env order warehouse input db ≡ ok db'
      → Packed db' × HasOneShipment db' × NewShipment order db db'
  unfolding ship_package
  ship_package-NewShipment h =
      let parcel = input.package_id in
      let shipment =
        new_shipment (env.new_id "shp" db.drawn) order parcel (tracking_of str env (suc db.drawn))
          input in
      let drawn : Db = record db { drawn = suc (suc db.drawn) } in
      let (u, checked, sent) = bind-ok _ (λ _. insert_shipment shipment parcel drawn) {b = db'} h in
      let contains = check_package-ok order warehouse parcel db checked in
      let (unsent, last) = insert_shipment-ok shipment parcel drawn db' sent in
      rw last (
        record {
          one_item = v.one_item;
          one_content = v.one_content;
          fits = v.fits;
          filled = v.filled;
        },
        added-HasOneShipment shipment parcel db.shipments refl unsent one,
        record {
          s = shipment;
          parcel = parcel;
          added = refl;
          of_order = refl;
          of_package = refl;
          is_created = refl;
          contains = contains;
          orders_same = refl;
        },
      )

readable_input-package :
    (str : Strings) (env : Env) (raw input : ShipmentInput)
    → readable_input str env raw ≡ ok input
    → input.package_id ≡ str.trim_space raw.package_id
unfolding readable_input
readable_input-package str env raw input h = ground arith

-- Where the contents of the packages are sound and no package has two shipments, a shipment that
-- createShipmentForOrder creates leaves both so. It is the only new shipment, CREATED, for the order,
-- and for a package that is not empty; no order has changed. Where the request names no package, every
-- item of the order is then allocated to its last unit.
pub create_shipment_for_order-NewShipment :
    (str : Strings) (env : Env) (shop order : String) (raw : ShipmentInput) (db db' : Db)
    → create_shipment_for_order str env shop order raw db ≡ ok db'
    → Packed db
    → HasOneShipment db
    → Packed db'
      × HasOneShipment db'
      × NewShipment order db db'
      × (str.trim_space raw.package_id ≡ "" → IsAllPacked order db')
unfolding create_shipment_for_order
create_shipment_for_order-NewShipment str env shop order raw db db' h v one =
    let (input, readable, h₁) = bind-ok (readable_input str env raw) _ {b = db'} h in
    let (o, found, h₂) =
      bind-ok (found_row _ (query_row (order_in shop order) db.orders)) _ {b = db'} h₁ in
    let (warehouse, ready, h₃) = bind-ok (fulfillment_of _ o) _ {b = db'} h₂ in
    let named = readable_input-package str env raw input readable in
    elim (Bool-cases (str_eq input.package_id "")) [
      | inl unnamed ↦
          let h₃ = rw unnamed at h₃ in
          let (packed, single, new, all) =
            ship_rest-NewShipment str env order warehouse input db db' v one h₃ in
          (packed, single, new, λ _. all)
      | inr given ↦
          let h₃ = rw given at h₃ in
          let (packed, single, new) =
            ship_package-NewShipment str env order warehouse input db db' v one h₃ in
          (packed, single, new, λ blank. absurd (ground (arith, eq_iff input.package_id "")))
    ]
