-- ===== src/Packages/Control/Agreement.antt =====
-- The dashboard and the providers create the same packages.
use enterprise_integration_s.Common.{
  ℕ, suc, ◌≤◌, ◌≡◌, ◌↔◌, refl, String, Bool, true, false, ◌&&◌, str_eq, List, [], ◌∷◌, ◌++◌, Option,
  none, some, arith, Bool-cases, Option-cases, inl, inr, ok, err, Result, ◌>>=◌,
}
use enterprise_integration_s.Common.Int.{ℤ, pos, negsuc, ltb_ℤ}
use enterprise_integration_s.Common.Table.{query_row, All}
use enterprise_integration_s.Common.Keys.{query_row_only, affected-query_none}
use enterprise_integration_s.Common.Table.{query_row-affected, affected-none_le}
use enterprise_integration_s.Orders.Status.{ready_to_ship, same_status}
use enterprise_integration_s.Orders.State.{Error}
use enterprise_integration_s.Store.{OrderRow, OrderItemRow, PackageItemRow, Db, Env}
use enterprise_integration_s.Inventory.Allocation.{is_positive}
use enterprise_integration_s.Repository.{order_in}
use enterprise_integration_s.Packages.{
  Allocation, requested, item_is, content_is, remaining, pack_item, pack_items, insert_package,
  commit_package, found_row, fulfillment_of, fill_package, create_package_for_order,
}
use enterprise_integration_s.Packages.Contents.{HasOneItem}
use enterprise_integration_s.Packages.Control.{
  or_code, control_item, control_items, control_warehouse, control_fill, respond_created,
  create_control_package,
}

append-nil : {A : Type 0} (xs : List A) → xs ++ [] ≡ xs
append-nil [] = refl
append-nil (x ∷ xs) = rw (append-nil xs) refl

-- Two handlers that succeed with the same tables, or both fail.
data Agrees {A : Type 0} : Result Error A → Result ℕ A → Type 0 where
  both_ok : (a : A) → Agrees (ok a) (ok a)
  both_err : (e : Error) (code : ℕ) → 400 ≤ code → Agrees (err e) (err code)

Agrees-bind :
    {A B : Type 0} {r : Result Error A} {s : Result ℕ A} {f : A → Result Error B}
    {g : A → Result ℕ B}
    → Agrees r s
    → ((a : A) → Agrees (f a) (g a))
    → Agrees (r >>= f) (s >>= g)
Agrees-bind (both_ok a) h = h a
Agrees-bind (both_err e code c) h = both_err e code c

Agrees-or_code :
    {A : Type 0} (code : ℕ) (r : Result Error A) → 400 ≤ code → Agrees r (or_code code r)
Agrees-or_code code (ok a) c = both_ok a
Agrees-or_code code (err e) c = both_err e code c

enough_left : (n left : ℤ) → is_positive n ≡ true → ltb_ℤ left n ≡ false → is_positive left ≡ true
enough_left (pos n) (pos m) p h = ground arith
enough_left (pos n) (negsuc m) p h = ground arith
enough_left (negsuc n) left p h = cc

module _ (parcel order : String) (order_items : List OrderItemRow)
    (one : HasOneItem order_items) where
  -- The item of the order is the item of that identifier.
  same_item :
      (item : String) {oi : OrderItemRow}
      → query_row (λ x. str_eq x.id item && str_eq x.order_id order) order_items ≡ some oi
      → query_row (item_is item) order_items ≡ some oi
  same_item item {oi} h =
      let mine = λ (x : OrderItemRow). str_eq x.id item && str_eq x.order_id order in
      elim (Option-cases (query_row (item_is item) order_items)) [
        | inl missing ↦
            let some_there = query_row-affected mine order_items {r = oi} h in
            let none_there =
              affected-none_le (item_is item) mine (λ x e. ground arith) order_items
                (affected-query_none (item_is item) order_items missing) in
            absurd (omega (arith, some_there, none_there))
        | inr (x, found) ↦
            let (only, _) =
              query_row_only (item_is item) mine (λ y e. ground arith) order_items {r = x}
                (one item) found in
            ground arith
      ]

  item-Agrees :
      (a : Allocation) (rows : List PackageItemRow)
      → is_positive a.quantity ≡ true
      → Agrees
          (pack_item parcel order order_items a rows)
          (control_item parcel order order_items a rows)
  unfolding pack_item control_item
  item-Agrees a rows p =
      elim (Option-cases
        (query_row (λ x. str_eq x.id a.order_item_id && str_eq x.order_id order) order_items)) [
          | inl e ↦ rw e (both_err _ 400 (omega arith))
          | inr (oi, e) ↦
              let again = same_item a.order_item_id {oi = oi} e in
              elim (Bool-cases (ltb_ℤ (remaining oi rows) a.quantity)) [
                | inr enough ↦
                    let left = enough_left a.quantity (remaining oi rows) p enough in
                    elim (Option-cases (query_row (content_is parcel a.order_item_id) rows)) [
                      | inl free ↦ rw (e, again, p, left, enough, p, free) (both_ok _)
                      | inr (i, taken) ↦
                          rw (e, again, p, left, enough, p, taken) (both_err _ 500 (omega arith))
                    ]
                | inl short ↦ elim (Bool-cases (is_positive (remaining oi rows))) [
                  | inl left ↦ rw (e, again, p, left, short, p) (both_err _ 400 (omega arith))
                  | inr none_left ↦ rw (e, p, none_left, short) (both_err _ 400 (omega arith))
                ]
              ]
        ]

  items-Agrees :
      (items : List Allocation) (rows : List PackageItemRow)
      → All (λ a. is_positive a.quantity ≡ true) items
      → Agrees
          (pack_items parcel order order_items items rows)
          (control_items parcel order order_items items rows)
  unfolding pack_items control_items
  items-Agrees [] rows p = both_ok rows
  items-Agrees (a ∷ rest) rows p =
      Agrees-bind (item-Agrees a rows p.0) (λ rows'. items-Agrees rest rows' p.1)

warehouse-Agrees :
    (o : Option OrderRow)
    → Agrees
        (found_row "order not found" o
          >>= fulfillment_of "packages can only be allocated for READY_TO_SHIP orders")
        (control_warehouse o)
unfolding fulfillment_of
warehouse-Agrees none = both_err _ 404 (omega arith)
warehouse-Agrees (some o) = elim (Bool-cases (same_status o.status ready_to_ship)) [
  | inr other ↦ rw other (both_err _ 400 (omega arith))
  | inl ready ↦ elim (Option-cases o.fulfillment_warehouse_id) [
    | inl missing ↦ rw (ready, missing) (both_err _ 400 (omega arith))
    | inr (w, there) ↦ elim (Bool-cases (str_eq w "")) [
      | inl blank ↦ rw (ready, there, blank) (both_err _ 400 (omega arith))
      | inr named ↦ rw (ready, there, named) (both_ok w)
    ]
  ]
]

insert_package-same :
    (parcel order warehouse : String) (db db' : Db)
    → insert_package parcel order warehouse db ≡ ok db'
    → db'.order_items ≡ db.order_items
unfolding insert_package
insert_package-same parcel order warehouse db db' h = ground arith

Agrees-bind_ok :
    {A B : Type 0} {r : Result Error A} {s : Result ℕ A} {f : A → Result Error B}
    {g : A → Result ℕ B}
    → Agrees r s
    → ((a : A) → r ≡ ok a → Agrees (f a) (g a))
    → Agrees (r >>= f) (s >>= g)
Agrees-bind_ok (both_ok a) h = h a refl
Agrees-bind_ok (both_err e code c) h = both_err e code c

fill-Agrees :
    (env : Env) (order warehouse : String) (items : List Allocation) (db : Db)
    → HasOneItem db.order_items
    → All (λ a. is_positive a.quantity ≡ true) items
    → Agrees (fill_package env order warehouse items db) (control_fill env order warehouse items db)
unfolding fill_package control_fill
fill-Agrees env order warehouse items db one p =
    let parcel = env.new_id "pkg" db.drawn in
    let drawn : Db = record db { drawn = suc db.drawn } in
    Agrees-bind_ok (Agrees-or_code 500 (insert_package parcel order warehouse drawn) (omega arith))
      (λ opened inserted.
        let same = insert_package-same parcel order warehouse drawn opened inserted in
        Agrees-bind
          (items-Agrees parcel order opened.order_items (rw same one) items opened.package_items p)
          (λ rows.
            Agrees-or_code 500 (commit_package parcel (record opened { package_items = rows }))
              (omega arith)))

Agrees-created :
    {r : Result Error Db} {s : Result ℕ Db} (db db' : Db)
    → Agrees r s
    → (respond_created s db ≡ (db', 201)) ↔ (r ≡ ok db')
Agrees-created db db' (both_ok a) = ((λ h. ground arith), (λ h. ground arith))
Agrees-created db db' (both_err e code c) = ((λ h. absurd (ground arith)), (λ h. absurd cc))

-- For a request of items with positive quantities, in a shop that the operator may access, the
-- dashboard's createControlPackage answers 201 exactly where the providers' createPackageForOrder
-- succeeds, and the tables are then the same.
pub create_control_package-agrees :
    (may_access : String → Bool) (env : Env) (shop order : String) (item : Allocation)
    (items : List Allocation) (db db' : Db)
    → may_access shop ≡ true
    → str_eq order "" ≡ false
    → HasOneItem db.order_items
    → All (λ a. is_positive a.quantity ≡ true) (item ∷ items)
    → (create_control_package may_access env shop order (item ∷ items) db ≡ (db', 201)) ↔ (
        create_package_for_order env shop order
          (record { order_item_ids = []; items = item ∷ items })
          db
        ≡ ok db')
unfolding create_control_package create_package_for_order requested
create_control_package-agrees may_access env shop order item items db db' open_to named one p =
    rw (open_to, named, append-nil items)
      (Agrees-created db db' (
        Agrees-bind (warehouse-Agrees (query_row (order_in shop order) db.orders))
          (λ warehouse. fill-Agrees env order warehouse (item ∷ items) db one p)))
