-- ===== src/Packages/Contents.antt =====
-- What the contents of packages satisfy, and one allocated item.
pub mod Filling
pub mod Created
use enterprise_integration_s.Common.{
  ℕ, ◌+◌, ◌≤◌, ◌≡◌, refl, sym, String, Bool, true, false, ◌&&◌, str_eq, eq_iff, if◌then◌else◌, List,
  [], ◌∷◌, none, some, arith, Bool-cases, Option-cases, inl, inr, ok, err, Result,
}
use enterprise_integration_s.Common.Int.{ℤ, pos, negsuc, sub_ℕ, ltb_ℤ}
use enterprise_integration_s.Common.Table.{affected, total, query_row, All}
use enterprise_integration_s.Common.Keys.{query_row_holds, affected-query_none}
use enterprise_integration_s.Common.Keys.Found.{All-both, keyed_found}
use enterprise_integration_s.Store.{OrderItemRow, PackageItemRow, Db}
use enterprise_integration_s.Inventory.Allocation.{units, is_positive}
use enterprise_integration_s.Packages.{
  Allocation, item_is, in_package, content_is, packed_of, pack, insert_content, pack_item,
  remaining,
}

-- No item is allocated beyond its quantity.
abbrev pub Fits : List OrderItemRow → List PackageItemRow → Type 0
Fits order_items rows = All (λ oi. total (packed_of oi.id) rows ≤ oi.quantity) order_items

-- The key of package_items.
abbrev pub HasOneContent : List PackageItemRow → Type 0
HasOneContent rows = (parcel item : String) → affected (content_is parcel item) rows ≤ 1

-- The key of order_items.
abbrev pub HasOneItem : List OrderItemRow → Type 0
HasOneItem order_items = (item : String) → affected (item_is item) order_items ≤ 1

pub record Packed (db : Db) : Type 0 where
  pub one_item : HasOneItem db.order_items
  pub one_content : HasOneContent db.package_items
  pub fits : Fits db.order_items db.package_items
  pub filled : All (λ p. 1 ≤ affected (in_package p.id) db.package_items) db.packages

fits_rest :
    (quantity packed : ℕ) (n : ℤ)
    → is_positive n ≡ true
    → ltb_ℤ (sub_ℕ quantity packed) n ≡ false
    → units n + packed ≤ quantity
fits_rest quantity packed (pos n) p h = ground arith
fits_rest quantity packed (negsuc n) p h = cc

-- What an inserted row says of the tables.
pub record Inserted (parcel item : String) (order_items : List OrderItemRow)
    (rows rows' : List PackageItemRow) : Type 0 where
  pub n : ℕ
  pub positive : 1 ≤ n
  pub oi : OrderItemRow
  pub known : query_row (item_is item) order_items ≡ some oi
  pub enough : n + total (packed_of oi.id) rows ≤ oi.quantity
  pub free : query_row (content_is parcel item) rows ≡ none
  pub written : rows' ≡ pack parcel item n rows

pub insert_content-ok :
    (parcel item : String) (n : ℤ) (rows rows' : List PackageItemRow)
    → insert_content parcel item n rows ≡ ok rows'
    → (1 ≤ units n)
      × (query_row (content_is parcel item) rows ≡ none)
      × (rows' ≡ pack parcel item (units n) rows)
unfolding insert_content
insert_content-ok parcel item (pos n) rows rows' h =
    elim (Option-cases (query_row (content_is parcel item) rows)) [
      | inl e ↦ ground arith
      | inr (i, e) ↦ ground arith
    ]
insert_content-ok parcel item (negsuc n) rows rows' h = ground arith

pub insert-Inserted :
    (parcel item : String) (order_items : List OrderItemRow) (n : ℤ) (oi : OrderItemRow)
    (rows rows' : List PackageItemRow)
    → query_row (item_is item) order_items ≡ some oi
    → is_positive n ≡ true
    → ltb_ℤ (remaining oi rows) n ≡ false
    → insert_content parcel item n rows ≡ ok rows'
    → Inserted parcel item order_items rows rows'
insert-Inserted parcel item order_items n oi rows rows' known p enough h =
    let (positive, free, written) = insert_content-ok parcel item n rows rows' h in
    record {
      n = units n;
      positive = positive;
      oi = oi;
      known = known;
      enough = fits_rest oi.quantity (total (packed_of oi.id) rows) n p enough;
      free = free;
      written = written;
    }

module _ (parcel item : String) (order_items : List OrderItemRow) (rows rows' : List PackageItemRow)
    (i : Inserted parcel item order_items rows rows') where
  pub inserted-Fits : HasOneItem order_items → Fits order_items rows → Fits order_items rows'
  inserted-Fits one fits = rw (i.written) (
      All-both
        (λ oi found room. elim (Bool-cases (str_eq item oi.id)) [
          | inl same ↦
              let here : item ≡ oi.id = (eq_iff item oi.id).0 same in
              let known = rw here at i.known in
              let this : i.oi ≡ oi = ground arith in
              let enough = rw this at i.enough in rw same (omega (arith, enough))
          | inr apart ↦ rw apart (omega (arith, room))
        ])
        order_items (keyed_found (λ oi. oi.id) order_items one) fits)

  pub inserted-HasOneContent : HasOneContent rows → HasOneContent rows'
  inserted-HasOneContent one p x =
      let none_there = affected-query_none (content_is parcel item) rows i.free in
      rw (i.written) (elim (Bool-cases (str_eq parcel p && str_eq item x)) [
        | inr apart ↦ rw apart (omega (arith, one p x))
        | inl same ↦
            let same_p : parcel ≡ p = ground (arith, eq_iff parcel p) in
            let same_x : item ≡ x = ground (arith, eq_iff item x) in
            let zero : affected (content_is p x) rows ≡ 0 =
              rw (sym same_p, sym same_x) none_there in
            rw same (omega (arith, zero))
      ])

  pub inserted-count :
      (p : String)
      → affected (in_package p) rows'
        ≡ (if str_eq parcel p then 1 else 0) + affected (in_package p) rows
  inserted-count p = rw (i.written) refl
