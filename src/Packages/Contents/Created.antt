-- ===== src/Packages/Contents/Created.antt =====
-- A whole package of createPackageForOrder: it keeps the contents sound, and its COMMIT does not meet
-- the triggers.
use enterprise_integration_s.Common.{
  bind-ok, List-cases, suc, ◌≡◌, ◌∙◌, refl, sym, String, eq_iff, List, ◌∷◌, arith, inl, inr, ok,
  Result, Result-cases, ◌>>=◌, length,
}
use enterprise_integration_s.Common.Table.{query_row, All-map}
use enterprise_integration_s.Orders.State.{Error}
use enterprise_integration_s.Store.{PackageItemRow, Db, Env}
use enterprise_integration_s.Repository.{order_in}
use enterprise_integration_s.Packages.{
  Allocation, PackageInput, requested, pack_items, commit_package, insert_package, new_package,
  fulfillment_of, found_row, fill_package, create_package_for_order,
}
use enterprise_integration_s.Packages.Contents.{Packed}
use enterprise_integration_s.Packages.Contents.Filling.{
  Adds, pack_items-Adds, Contents, pack_items-Contents, commit_package-ok, insert_package-ok,
}

-- What a package that is created has changed: one row of packages and its contents.
pub record PackageCreated (env : Env) (order : String) (asked : List Allocation) (db db' : Db)
    : Type 0 where
  pub warehouse : String
  pub others : db' ≡ record db {
    packages = new_package (env.new_id "pkg" db.drawn) order warehouse ∷ db.packages;
    package_items = db'.package_items;
    drawn = suc db.drawn;
  }
  pub contents :
      Adds (env.new_id "pkg" db.drawn) order db.order_items asked db.package_items db'.package_items

-- The statements of fill_package where COMMIT has no trigger to run.
abbrev pub fill_unchecked : Env → String → String → List Allocation → Db → Result Error Db
fill_unchecked env order warehouse allocations db = do
  let parcel = env.new_id "pkg" db.drawn
  opened ← insert_package parcel order warehouse (record db { drawn = suc db.drawn })
  rows ← pack_items parcel order opened.order_items allocations opened.package_items
  ok (record opened { package_items = rows })

module _ (env : Env) (order warehouse : String) (a : Allocation) (rest : List Allocation) (db : Db)
    (v : Packed db) where
  abbrev parcel : String
  parcel = env.new_id "pkg" db.drawn

  abbrev filled_by : List PackageItemRow → Db
  filled_by rows = record db {
    packages = new_package parcel order warehouse ∷ db.packages;
    package_items = rows;
    drawn = suc db.drawn;
  }

  loop-Contents :
      (rows : List PackageItemRow)
      → pack_items parcel order db.order_items (a ∷ rest) db.package_items ≡ ok rows
      → Contents parcel order db.order_items (suc (length rest)) db.package_items rows
  loop-Contents rows h =
      pack_items-Contents parcel order db.order_items (a ∷ rest) db.package_items rows h v.one_item
        v.fits v.one_content

  commits :
      (rows : List PackageItemRow) (db₁ : Db)
      → pack_items parcel order db.order_items (a ∷ rest) db.package_items ≡ ok rows
      → db₁.order_items ≡ db.order_items
      → db₁.package_items ≡ rows
      → commit_package parcel db₁ ≡ ok db₁
  commits rows db₁ h same_items same_rows =
      let c = loop-Contents rows h in
      commit_package-ok parcel db₁ (rw (same_items, same_rows) c.fits)
        (rw same_rows (omega (arith, rw ((eq_iff parcel parcel).1 refl) at (c.count_in parcel))))

  -- Where the contents of the packages are sound, the deferred triggers of migrations 011 and 012
  -- refuse nothing that the checks of createPackageForOrder let through: on a request of one item or
  -- more, its statements do the same with the triggers as without them.
  pub fill_package-unchecked :
      fill_package env order warehouse (a ∷ rest) db
      ≡ fill_unchecked env order warehouse (a ∷ rest) db
  unfolding fill_package
  fill_package-unchecked =
      elim (Result-cases
        (insert_package parcel order warehouse (record db { drawn = suc db.drawn }))) [
          | inl (e, failed) ↦ rw failed refl
          | inr (opened, inserted) ↦
              let written =
                insert_package-ok parcel order warehouse (record db { drawn = suc db.drawn }) opened
                  inserted in
              elim (Result-cases
                (pack_items parcel order db.order_items (a ∷ rest) db.package_items)) [
                  | inl (e, failed) ↦ rw (inserted, written, failed) refl
                  | inr (rows, done) ↦
                      rw (inserted, written, done) (commits rows (filled_by rows) done refl refl)
                ]
        ]

  filled_by-Packed :
      (rows : List PackageItemRow)
      → pack_items parcel order db.order_items (a ∷ rest) db.package_items ≡ ok rows
      → Packed (filled_by rows) × PackageCreated env order (a ∷ rest) db (filled_by rows)
  filled_by-Packed rows h =
      let c = loop-Contents rows h in
      (
        record {
          one_item = v.one_item;
          one_content = c.one_content;
          fits = c.fits;
          filled = (
            omega (arith, rw ((eq_iff parcel parcel).1 refl) at (c.count_in parcel)),
            All-map (λ p some_there. omega (arith, c.count_in p.id, some_there)) db.packages
                v.filled,
          );
        },
        record {
          warehouse = warehouse;
          others = refl;
          contents = pack_items-Adds parcel order db.order_items (a ∷ rest) db.package_items rows h;
        },
      )

  pub fill_package-Packed :
      (db' : Db)
      → fill_package env order warehouse (a ∷ rest) db ≡ ok db'
      → Packed db' × PackageCreated env order (a ∷ rest) db db'
  fill_package-Packed db' h =
      let same : fill_unchecked env order warehouse (a ∷ rest) db ≡ ok db' =
        sym fill_package-unchecked ∙ h in
      elim (Result-cases
        (insert_package parcel order warehouse (record db { drawn = suc db.drawn }))) [
          | inl (e, failed) ↦ ground arith
          | inr (opened, inserted) ↦
              let written =
                insert_package-ok parcel order warehouse (record db { drawn = suc db.drawn }) opened
                  inserted in
              elim (Result-cases
                (pack_items parcel order db.order_items (a ∷ rest) db.package_items)) [
                  | inl (e, failed) ↦ absurd cc
                  | inr (rows, done) ↦
                      let same = rw (inserted, written, done) at same in
                      let this : filled_by rows ≡ db' = ground arith in
                      rw (sym this) (filled_by-Packed rows done)
                ]
        ]

created_in :
    (env : Env) (shop order : String) (allocations : List Allocation) (db db' : Db)
    → (found_row "order not found" (query_row (order_in shop order) db.orders)
        >>= fulfillment_of "packages can only be allocated for READY_TO_SHIP orders"
        >>= λ warehouse. fill_package env order warehouse allocations db)
      ≡ ok db'
    → (warehouse : String) × (fill_package env order warehouse allocations db ≡ ok db')
created_in env shop order allocations db db' h =
    let fill : String → Result Error Db =
      λ warehouse. fill_package env order warehouse allocations db in
    let checks =
      found_row "order not found" (query_row (order_in shop order) db.orders)
      >>= fulfillment_of "packages can only be allocated for READY_TO_SHIP orders" in
    let (warehouse, _, done) = bind-ok checks fill {b = db'} h in (warehouse, done)

-- Where the contents of the packages are sound, a package that createPackageForOrder creates leaves
-- them sound: no item is allocated beyond its quantity and no package is empty. The tables
-- have one new package and, for each requested element, one new row of its contents, with the requested
-- quantity or, where none is requested, what is left of the item. Nothing else has changed but the
-- count of drawn identifiers.
pub create_package_for_order-Packed :
    (env : Env) (shop order : String) (input : PackageInput) (db db' : Db)
    → create_package_for_order env shop order input db ≡ ok db'
    → Packed db
    → Packed db' × PackageCreated env order (requested input) db db'
unfolding create_package_for_order
create_package_for_order-Packed env shop order input db db' h v =
    elim (List-cases (requested input)) [
      | inl e ↦ ground arith
      | inr (a, rest, e) ↦
          let h = rw (e, create_package_for_order) at h in
          let (warehouse, done) = created_in env shop order (a ∷ rest) db db' h in
          rw e (fill_package-Packed env order warehouse a rest db v db' done)
    ]
