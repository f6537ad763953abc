-- ===== src/Packages/Shipping/Rest.antt =====
-- The package of all that an order has left, which createShipmentForOrder fills by one statement.
use enterprise_integration_s.Common.{
  ◌-◌, ◌≤◌, ◌≡◌, refl, sym, String, true, str_eq, eq_iff, if◌then◌else◌, List, [], ◌∷◌, ◌++◌, none,
  some, arith, Bool-cases, inl, inr, length,
}
use enterprise_integration_s.Common.Table.{affected, total, query_row, All, affected-none_le}
use enterprise_integration_s.Common.Keys.{affected-query_none}
use enterprise_integration_s.Common.Keys.Found.{
  All-both, keyed_found, affected-append, total-append,
}
use enterprise_integration_s.Store.{OrderItemRow, PackageItemRow}
use enterprise_integration_s.Packages.{item_is, in_package, content_is, packed_of}
use enterprise_integration_s.Packages.Shipping.{remaining_contents}
use enterprise_integration_s.Packages.Contents.{Fits, HasOneContent, HasOneItem}

module _ (parcel order : String) (rows : List PackageItemRow) where
  abbrev rest_of : List OrderItemRow → List PackageItemRow
  rest_of items = remaining_contents parcel order items rows

  -- An item that is not listed gets nothing.
  rest-unlisted :
      (items : List OrderItemRow) (item : String)
      → affected (item_is item) items ≡ 0
      → total (packed_of item) (rest_of items) ≡ 0
  unfolding remaining_contents
  rest-unlisted [] item e = refl
  rest-unlisted (oi ∷ items) item e = ground (arith, rest-unlisted items item)

  -- A listed item of the order gets what it has left, and an item of another order nothing.
  rest-listed :
      (items : List OrderItemRow) (item : String) {oi : OrderItemRow}
      → affected (item_is item) items ≤ 1
      → query_row (item_is item) items ≡ some oi
      → total (packed_of item) (rest_of items)
        ≡ (if str_eq oi.order_id order then oi.quantity - total (packed_of item) rows else 0)
  unfolding remaining_contents
  rest-listed [] item one e = cc
  rest-listed (x ∷ items) item {oi} one e = elim (Bool-cases (str_eq x.id item)) [
    | inr other ↦ ground (arith, rest-listed items item {oi = oi})
    | inl this ↦
        let is_x : x ≡ oi = ground arith in
        let none_later = rest-unlisted items item (ground arith) in
        let name : x.id ≡ item = (eq_iff x.id item).0 this in rw (sym is_x, sym name) (ground arith)
  ]

  rest-content :
      (items : List OrderItemRow) (p item : String)
      → affected (content_is p item) (rest_of items)
        ≤ (if str_eq parcel p then affected (item_is item) items else 0)
  unfolding remaining_contents
  rest-content [] p item = ground arith
  rest-content (oi ∷ items) p item = ground (arith, rest-content items p item)

  pub rest-count :
      (items : List OrderItemRow) (p : String)
      → affected (in_package p) (rest_of items)
        ≡ (if str_eq parcel p then length (rest_of items) else 0)
  unfolding remaining_contents
  rest-count [] p = ground arith
  rest-count (oi ∷ items) p = ground (arith, rest-count items p)

  module _ (items : List OrderItemRow) (one : HasOneItem items) where
    -- Every item of the order is now allocated to its last unit.
    pub rest_complete :
        Fits items rows
        → All
            (λ oi.
              str_eq oi.order_id order ≡ true
              → total (packed_of oi.id) (rest_of items ++ rows) ≡ oi.quantity)
            items
    rest_complete fits =
        All-both
          (λ oi found room mine.
            let added = rw mine at (rest-listed items oi.id {oi = oi} (one oi.id) found) in
            rw (total-append (packed_of oi.id) (rest_of items) rows) (omega (arith, room, added)))
          items (keyed_found (λ oi. oi.id) items one) fits

    pub rest-Fits : Fits items rows → Fits items (rest_of items ++ rows)
    rest-Fits fits =
        All-both
          (λ oi found room.
            let added = rest-listed items oi.id {oi = oi} (one oi.id) found in
            rw (total-append (packed_of oi.id) (rest_of items) rows) (ground arith))
          items (keyed_found (λ oi. oi.id) items one) fits

    pub rest-HasOneContent :
        query_row (in_package parcel) rows ≡ none
        → HasOneContent rows
        → HasOneContent (rest_of items ++ rows)
    rest-HasOneContent free content p item =
        let none_there = affected-query_none (in_package parcel) rows free in
        rw (affected-append (content_is p item) (rest_of items) rows)
          (elim (Bool-cases (str_eq parcel p)) [
            | inr apart ↦ omega (arith, rw apart at (rest-content items p item), content p item)
            | inl same ↦
                let here = rw ((eq_iff parcel p).0 same) at none_there in
                let zero =
                  affected-none_le (in_package p) (content_is p item) (λ i e. ground arith) rows
                    here in
                omega (arith, rw same at (rest-content items p item), one item, zero)
          ])

    pub rest-kept :
        (p : String)
        → affected (in_package p) rows ≤ affected (in_package p) (rest_of items ++ rows)
    rest-kept p = omega (arith, affected-append (in_package p) (rest_of items) rows)
