-- ===== src/Inventory/Warehouses.antt =====
-- EnsureDefaultWarehouse of internal/inventory/reservation.go: the warehouse of a shop that has set up
-- none. The keys of the table are id and (shop_id, code), and shop_id refers to a shop (migration 008).
use enterprise_integration_s.Common.{
  String, concat, Bool, true, not, ◌&&◌, ◌||◌, Option, none, some, ◌∷◌, ◌≡◌, Result, ok, err,
  str_eq, eq_iff, if◌then◌else◌, is_some, arith, Option-cases, Bool-cases, inl, inr,
}
use enterprise_integration_s.Common.Int.{pos}
use enterprise_integration_s.Common.Table.{query_row}
use enterprise_integration_s.Store.{ShopRow, WarehouseRow, Db}
use enterprise_integration_s.Inventory.Allocation.{Error, text}

abbrev pub is_default : String → WarehouseRow → Bool
is_default shop w = str_eq w.shop_id shop && str_eq w.code "WH-DEFAULT"

abbrev pub default_warehouse : String → WarehouseRow
default_warehouse shop = record {
  id = concat "wh_default_" shop;
  shop_id = shop;
  code = "WH-DEFAULT";
  name = "Default Warehouse";
  active = true;
  priority = pos 0;
}

-- Whether the insertion without a conflict on (shop_id, code) is refused: by the primary key or by
-- the reference to the shop.
abbrev pub is_refused : String → Db → Bool
is_refused shop db =
    is_some
      (query_row (λ (w : WarehouseRow). str_eq w.id (concat "wh_default_" shop)) db.warehouses)
    || not (is_some (query_row (λ (s : ShopRow). str_eq s.id shop) db.shops))

-- The two outcomes of the upsert. A conflict updates nothing but updated_at, to itself.
abbrev pub upsert_default : String → Db → Option WarehouseRow → Result Error (String × Db)
upsert_default shop db (some w) = ok (w.id, db)
upsert_default shop db none =
    if is_refused shop db
    then err (text "ensure default warehouse")
    else ok (
      concat "wh_default_" shop,
      record db { warehouses = default_warehouse shop ∷ db.warehouses },
    )

-- `EnsureDefaultWarehouse`
unfoldable pub ensure_default_warehouse : String → Db → Result Error (String × Db)
ensure_default_warehouse shop db =
    upsert_default shop db (query_row (is_default shop) db.warehouses)

is_default-default_warehouse : (shop : String) → is_default shop (default_warehouse shop) ≡ true
is_default-default_warehouse shop = ground (arith, eq_iff shop shop)

-- A call that succeeds leaves the shop with a default warehouse, whose id it returns, and a second
-- call returns the same id and changes nothing.
ensure_default_warehouse-again :
    (shop : String) (db : Db) {id : String} {db' : Db}
    → ensure_default_warehouse shop db ≡ ok (id, db')
    → ((w : WarehouseRow) × (query_row (is_default shop) db'.warehouses ≡ some w) × (w.id ≡ id))
      × (ensure_default_warehouse shop db' ≡ ok (id, db'))
unfolding ensure_default_warehouse
ensure_default_warehouse-again shop db {id} {db'} e =
    elim (Option-cases (query_row (is_default shop) db.warehouses)) [
      | inl gone ↦ elim (Bool-cases (is_refused shop db)) [
        | inl t ↦ absurd (ground (arith, e))
        | inr f ↦
            let w = default_warehouse shop in
            let inserted : Db = record db { warehouses = w ∷ db.warehouses } in
            let is_id : w.id ≡ id = ground arith in
            let is_db : inserted ≡ db' = ground arith in
            let now : query_row (is_default shop) inserted.warehouses ≡ some w =
              ground (arith, is_default-default_warehouse shop) in
            ((w, cc, is_id), cc)
      ]
      | inr (w, found) ↦
          let is_id : w.id ≡ id = ground arith in
          let is_db : db ≡ db' = ground arith in ((w, cc, is_id), cc)
    ]
