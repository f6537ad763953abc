-- ===== src/Packages/Contents/Filling.antt =====
-- The loop of createPackageForOrder, and the triggers on what it has written.
use enterprise_integration_s.Common.{
  ℕ, ◌+◌, ◌≤◌, ◌≡◌, refl, sym, String, Bool, bind-ok, some, true, false, ◌&&◌, str_eq, eq_iff,
  if◌then◌else◌, List, [], ◌∷◌, arith, Option-cases, inl, inr, ok, Result-cases, length,
}
use enterprise_integration_s.Common.Int.{ℤ, pos, negsuc, ltb_ℤ}
use enterprise_integration_s.Common.Table.{affected, total, query_row, select_where, query_row-All}
use enterprise_integration_s.Store.{OrderItemRow, PackageItemRow, Db}
use enterprise_integration_s.Inventory.Allocation.{units, is_positive}
use enterprise_integration_s.Packages.{
  Allocation, item_is, in_package, packed_of, pack_item, pack_items, remaining, asked_quantity,
  insert_content, pack, all_allocations, commit_package, insert_package, new_package,
}
use enterprise_integration_s.Packages.Contents.{
  Fits, HasOneContent, HasOneItem, Inserted, insert_content-ok, insert-Inserted, inserted-Fits,
  inserted-HasOneContent, inserted-count,
}

is_positive-pos : (z : ℤ) → is_positive z ≡ true → z ≡ pos (units z)
is_positive-pos (pos n) p = refl
is_positive-pos (negsuc n) p = absurd cc

module _ (parcel order : String) (order_items : List OrderItemRow) where
  pub pack_item-Inserted :
      (a : Allocation) (rows rows' : List PackageItemRow)
      → pack_item parcel order order_items a rows ≡ ok rows'
      → Inserted parcel a.order_item_id order_items rows rows'
  unfolding pack_item
  pack_item-Inserted a rows rows' h =
      elim (Option-cases
        (query_row (λ oi. str_eq oi.id a.order_item_id && str_eq oi.order_id order) order_items)) [
          | inl e ↦ ground arith
          | inr (oi, e) ↦ elim (Option-cases (query_row (item_is a.order_item_id) order_items)) [
            | inl f ↦ ground arith
            | inr (again, f) ↦
                let n = asked_quantity parcel order order_items a.quantity (remaining oi rows) in
                let p : is_positive n ≡ true = ground arith in
                let room : ltb_ℤ (remaining again rows) n ≡ false = ground arith in
                let done : insert_content parcel a.order_item_id n rows ≡ ok rows' = ground arith in
                insert-Inserted parcel a.order_item_id order_items n again rows rows' f p room done
          ]
        ]

  abbrev ordered_item : String → OrderItemRow → Bool
  ordered_item item oi = str_eq oi.id item && str_eq oi.order_id order

  -- The rows that the requested elements add, one each, on top of those that are there: the requested
  -- quantity, or what is left of the item where none is requested.
  unfoldable pub Adds : List Allocation → List PackageItemRow → List PackageItemRow → Type 0
  Adds [] rows rows' = rows' ≡ rows
  Adds (a ∷ rest) rows rows' =
      (n : ℕ) × (1 ≤ n)
      × (is_positive a.quantity ≡ true → a.quantity ≡ pos n)
      × (is_positive a.quantity ≡ false
          → (oi : OrderItemRow) × (query_row (ordered_item a.order_item_id) order_items ≡ some oi)
            × (remaining oi rows ≡ pos n))
      × Adds rest (pack parcel a.order_item_id n rows) rows'

  pack_item-pack :
      (a : Allocation) (rows rows' : List PackageItemRow)
      → pack_item parcel order order_items a rows ≡ ok rows'
      → (n : ℕ) × (1 ≤ n)
        × (is_positive a.quantity ≡ true → a.quantity ≡ pos n)
        × (is_positive a.quantity ≡ false
            → (oi : OrderItemRow) × (query_row (ordered_item a.order_item_id) order_items ≡ some oi)
              × (remaining oi rows ≡ pos n))
        × (rows' ≡ pack parcel a.order_item_id n rows)
  unfolding pack_item
  pack_item-pack a rows rows' h =
      elim (Option-cases (query_row (ordered_item a.order_item_id) order_items)) [
        | inl e ↦ ground arith
        | inr (oi, e) ↦ elim (Option-cases (query_row (item_is a.order_item_id) order_items)) [
          | inl f ↦ ground arith
          | inr (again, f) ↦
              let left = remaining oi rows in
              let n = asked_quantity parcel order order_items a.quantity left in
              let done : insert_content parcel a.order_item_id n rows ≡ ok rows' = ground arith in
              let left_over : is_positive left ≡ true = ground arith in
              let (positive, _, written) =
                insert_content-ok parcel a.order_item_id n rows rows' done in
              (
                units n,
                positive,
                λ asked. rw asked (is_positive-pos a.quantity asked),
                λ not_asked. (oi, e, rw not_asked (is_positive-pos left left_over)),
                written,
              )
        ]
      ]

  pub pack_items-Adds :
      (allocations : List Allocation) (rows rows' : List PackageItemRow)
      → pack_items parcel order order_items allocations rows ≡ ok rows'
      → Adds allocations rows rows'
  unfolding pack_items Adds
  pack_items-Adds [] rows rows' h = ground arith
  pack_items-Adds (a ∷ rest) rows rows' h =
      let (rows₁, one, later) =
        bind-ok (pack_item parcel order order_items a rows)
          (pack_items parcel order order_items rest) {b = rows'} h in
      let (n, positive, asked, left, written) = pack_item-pack a rows rows₁ one in
      (n, positive, asked, left, rw written at (pack_items-Adds rest rows₁ rows' later))

  -- The contents after the loop.
  pub record Contents (count : ℕ) (rows rows' : List PackageItemRow) : Type 0 where
    pub fits : Fits order_items rows'
    pub one_content : HasOneContent rows'
    pub count_in :
        (p : String)
        → affected (in_package p) rows'
          ≡ (if str_eq parcel p then count else 0) + affected (in_package p) rows

  pub pack_items-Contents :
      (allocations : List Allocation) (rows rows' : List PackageItemRow)
      → pack_items parcel order order_items allocations rows ≡ ok rows'
      → HasOneItem order_items
      → Fits order_items rows
      → HasOneContent rows
      → Contents (length allocations) rows rows'
  unfolding pack_items
  pack_items-Contents [] rows rows' h one fits content =
      let same : rows ≡ rows' = ground arith in
      rw (sym same) (record { fits = fits; one_content = content; count_in = λ p. ground arith })
  pack_items-Contents (a ∷ rest) rows rows' h one fits content =
      elim (Result-cases (pack_item parcel order order_items a rows)) [
        | inl (e, failed) ↦ ground arith
        | inr (rows₁, done) ↦
            let i = pack_item-Inserted a rows rows₁ done in
            let item = a.order_item_id in
            let later =
              pack_items-Contents rest rows₁ rows' (ground arith) one
                (inserted-Fits parcel item order_items rows rows₁ i one fits)
                (inserted-HasOneContent parcel item order_items rows rows₁ i content) in
            record {
              fits = later.fits;
              one_content = later.one_content;
              count_in = λ p.
                  ground (
                    arith,
                    later.count_in p,
                    inserted-count parcel item order_items rows rows₁ i p,
                  );
            }
      ]

-- Contents that fit meet no trigger.
pub all_allocations-Fits :
    (order_items : List OrderItemRow) (rows some_rows : List PackageItemRow)
    → Fits order_items rows
    → all_allocations order_items rows some_rows ≡ true
unfolding all_allocations
all_allocations-Fits order_items rows [] fits = refl
all_allocations-Fits order_items rows (i ∷ rest) fits =
    let others = all_allocations-Fits order_items rows rest fits in
    elim (Option-cases (query_row (item_is i.order_item_id) order_items)) [
      | inl e ↦ ground arith
      | inr (oi, e) ↦
          let (room, same) =
            query_row-All (λ x. total (packed_of x.id) rows ≤ x.quantity) (item_is i.order_item_id)
              order_items {r = oi} e fits in
          let here : oi.id ≡ i.order_item_id = (eq_iff oi.id i.order_item_id).0 same in
          let room = rw here at room in ground arith
    ]

pub commit_package-ok :
    (parcel : String) (db : Db)
    → Fits db.order_items db.package_items
    → 1 ≤ affected (in_package parcel) db.package_items
    → commit_package parcel db ≡ ok db
unfolding commit_package
commit_package-ok parcel db fits some_there =
    rw
      (all_allocations-Fits db.order_items db.package_items
        (select_where (in_package parcel) db.package_items) fits)
      (ground arith)

pub insert_package-ok :
    (parcel order warehouse : String) (db db' : Db)
    → insert_package parcel order warehouse db ≡ ok db'
    → db' ≡ record db { packages = new_package parcel order warehouse ∷ db.packages }
unfolding insert_package
insert_package-ok parcel order warehouse db db' h = ground arith
