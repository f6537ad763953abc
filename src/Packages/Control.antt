-- ===== src/Packages/Control.antt =====
-- createControlPackage of internal/server/control_fulfillment.go: the dashboard's own allocation of
-- items to a package. A response is its status code; access control is a parameter.
pub mod Agreement
use enterprise_integration_s.Common.{
  ℕ, suc, String, Bool, true, ◌&&◌, ◌||◌, not, Option, none, some, List, [], ◌∷◌, Result, ok, err,
  ◌>>=◌, str_eq, if◌then◌else◌, is_some,
}
use enterprise_integration_s.Common.Int.{ℤ, ltb_ℤ}
use enterprise_integration_s.Common.Table.{query_row}
use enterprise_integration_s.Orders.Status.{ready_to_ship, same_status}
use enterprise_integration_s.Orders.State.{Error}
use enterprise_integration_s.Store.{OrderRow, OrderItemRow, PackageItemRow, Db, Env}
use enterprise_integration_s.Inventory.Allocation.{is_positive}
use enterprise_integration_s.Repository.{order_in}
use enterprise_integration_s.Packages.{
  Allocation, remaining, insert_content, insert_package, commit_package,
}

-- A failed step of the transaction, as the response that is written for it.
abbrev pub or_code : {A : Type 0} → ℕ → Result Error A → Result ℕ A
or_code code (ok a) = ok a
or_code code (err _) = err code

module _ (parcel order : String) (order_items : List OrderItemRow) where
  abbrev pub check_quantity : Option OrderItemRow → ℤ → List PackageItemRow → Result ℕ (Unit {0})
  check_quantity none quantity rows = err 400
  check_quantity (some oi) quantity rows =
      if not (is_positive quantity) || ltb_ℤ (remaining oi rows) quantity then err 400 else ok tt

  -- The body of the loop over the input's items.
  unfoldable pub control_item : Allocation → List PackageItemRow → Result ℕ (List PackageItemRow)
  unfolding insert_content
  control_item a rows = do
    _ ←
        check_quantity
          (query_row (λ oi. str_eq oi.id a.order_item_id && str_eq oi.order_id order) order_items)
          a.quantity rows
    or_code 500 (insert_content parcel a.order_item_id a.quantity rows)

  unfoldable pub control_items :
      List Allocation → List PackageItemRow → Result ℕ (List PackageItemRow)
  control_items [] rows = ok rows
  control_items (a ∷ rest) rows = control_item a rows >>= control_items rest

abbrev pub control_warehouse : Option OrderRow → Result ℕ String
control_warehouse none = err 404
control_warehouse (some o) =
    if not (same_status o.status ready_to_ship) then err 400 else elim o.fulfillment_warehouse_id [
      | none ↦ err 400
      | some warehouse ↦ if str_eq warehouse "" then err 400 else ok warehouse
    ]

abbrev pub respond_created : Result ℕ Db → Db → Db × ℕ
respond_created (ok db') db = (db', 201)
respond_created (err code) db = (db, code)

module _ (env : Env) where
  unfoldable pub control_fill : String → String → List Allocation → Db → Result ℕ Db
  unfolding insert_package commit_package
  control_fill order warehouse items db = do
    let parcel = env.new_id "pkg" db.drawn
    opened ←
        or_code 500 (insert_package parcel order warehouse (record db { drawn = suc db.drawn }))
    rows ← control_items parcel order opened.order_items items opened.package_items
    or_code 500 (commit_package parcel (record opened { package_items = rows }))

module _ (may_access : String → Bool) (env : Env) where
  -- `createControlPackage`, on a request with a readable body.
  unfoldable pub create_control_package : String → String → List Allocation → Db → Db × ℕ
  create_control_package shop order [] db = if not (may_access shop) then (db, 403) else (db, 400)
  create_control_package shop order (item ∷ items) db =
      if not (may_access shop)
      then (db, 403)
      else if str_eq order ""
      then (db, 400)
      else respond_created
          (control_warehouse (query_row (order_in shop order) db.orders) >>= λ warehouse.
            control_fill env order warehouse (item ∷ items) db)
          db
