-- ===== src/Inventory/Invariant/Fulfill/Package.antt =====
-- `FulfillPackage` keeps the accounting invariants, and fulfils each reservation of the package by
-- what the package holds of it.
use enterprise_integration_s.Common.{
  ◌≤◌, ◌≡◌, refl, sym, String, Bool, false, ◌&&◌, str_eq, eq_iff, if◌then◌else◌, List, [], ◌∷◌,
  some, arith, Bool-cases, inl, inr, ok, Result-cases,
}
use enterprise_integration_s.Common.Table.{
  affected, All, query_row, select_where, affected-update_where, query_row-update_where,
}
use enterprise_integration_s.Common.Keys.Found.{
  affected-none, All-both, All-append, affected-append, affected-select_where, keyed_found,
}
use enterprise_integration_s.Common.Keys.{query_row_holds}
use enterprise_integration_s.Common.Sorting.{text_before}
use enterprise_integration_s.Common.Sorting.Laws.{affected-sort_by, All-sort_by}
use enterprise_integration_s.Store.{ReservationRow, PackageItemRow, Db}
use enterprise_integration_s.Inventory.Holding.{
  Fulfillment, join_items, join_reservations, package_fulfillments, fulfill_row, fulfill_item,
  fulfill_items, fulfill_locked, fulfill_package,
}
use enterprise_integration_s.Inventory.Invariant.{Inv}
use enterprise_integration_s.Inventory.Invariant.Fulfill.{
  reservation_is, IsStored, after, fulfill_item-ok, after-Inv,
}

abbrev of_reservation : String → Fulfillment → Bool
of_reservation id f = str_eq f.reservation.id id

-- The keys of the reservations and of the contents of packages.
pub record IsReserved (db : Db) : Type 0 where
  pub one_id : (id : String) → affected (reservation_is id) db.reservations ≤ 1
  pub one_item :
      (parcel item : String)
      → affected (λ i. str_eq i.package_id parcel && str_eq i.order_item_id item) db.package_items
        ≤ 1

-- The reservation of a locked row has been fulfilled by what the package holds.
abbrev pub IsFulfilled : List ReservationRow → Fulfillment → Type 0
IsFulfilled rows f =
    query_row (reservation_is f.reservation.id) rows
    ≡ some (fulfill_row f.package_quantity f.reservation)

-- Before each turn of the loop.
record Fulfilling (db : Db) (items : List Fulfillment) : Type 0 where
  invariant : Inv db
  one_id : (id : String) → affected (reservation_is id) db.reservations ≤ 1
  stored : All (IsStored db.reservations) items
  once : (id : String) → affected (of_reservation id) items ≤ 1

module _ (f : Fulfillment) (db : Db) where
  -- A row of another reservation is as it was.
  after_other :
      (id : String) {r : ReservationRow}
      → str_eq id f.reservation.id ≡ false
      → query_row (reservation_is id) db.reservations ≡ some r
      → query_row (reservation_is id) (after f db).reservations ≡ some r
  after_other id {r} apart found =
      let moved =
        query_row-update_where (reservation_is id) (reservation_is f.reservation.id)
          (fulfill_row f.package_quantity) (λ _. refl) db.reservations {r = r} found in
      let key = query_row_holds (reservation_is id) db.reservations {r = r} found in
      ground (arith, eq_iff r.id id)

  after_self :
      query_row (reservation_is f.reservation.id) db.reservations ≡ some f.reservation
      → IsFulfilled (after f db).reservations f
  after_self found =
      let moved =
        query_row-update_where (reservation_is f.reservation.id) (reservation_is f.reservation.id)
          (fulfill_row f.package_quantity) (λ _. refl) db.reservations {r = f.reservation} found in
      ground (arith, eq_iff f.reservation.id f.reservation.id)

fulfill_item-Fulfilling :
    (f : Fulfillment) (rest : List Fulfillment) (db db' : Db)
    → fulfill_item f db ≡ ok db'
    → Fulfilling db (f ∷ rest)
    → Fulfilling db' rest × IsFulfilled db'.reservations f
fulfill_item-Fulfilling f rest db db' h v =
    let id = f.reservation.id in
    let (live, fits, one, done) = fulfill_item-ok f db db' h in
    let apart = affected-none (of_reservation id) rest (ground (arith, v.once id, eq_iff id id)) in
    let next : Fulfilling (after f db) rest = record {
      invariant = after-Inv f db live fits one (v.one_id id) v.stored.0 v.invariant;
      one_id = λ k.
          rw
            (affected-update_where (reservation_is k) (reservation_is id)
              (fulfill_row f.package_quantity) (λ _. refl) db.reservations)
            (v.one_id k);
      stored =
          All-both
            (λ g other found. after_other f db g.reservation.id {r = g.reservation} other found)
            rest apart v.stored.1;
      once = λ k. ground (arith, v.once k);
    } in
    rw done (next, after_self f db v.stored.0)

-- The turns of the loop leave the rows of other reservations alone.
fulfill_items-other :
    (items : List Fulfillment) (id : String) (db db' : Db) {r : ReservationRow}
    → fulfill_items items db ≡ ok db'
    → affected (of_reservation id) items ≡ 0
    → query_row (reservation_is id) db.reservations ≡ some r
    → query_row (reservation_is id) db'.reservations ≡ some r
unfolding fulfill_items
fulfill_items-other [] id db db' h none_left found = ground arith
fulfill_items-other (f ∷ rest) id db db' {r} h none_left found =
    elim (Result-cases (fulfill_item f db)) [
      | inl (e, failed) ↦ ground arith
      | inr (db₁, done) ↦
          let (_, _, _, written) = fulfill_item-ok f db db₁ done in
          let kept : query_row (reservation_is id) db₁.reservations ≡ some r =
            rw written
              (after_other f db id {r = r} (ground (arith, eq_iff id f.reservation.id)) found) in
          fulfill_items-other rest id db₁ db' {r = r} (ground arith) (ground arith) kept
    ]

fulfill_items-Fulfilling :
    (items : List Fulfillment) (db db' : Db)
    → fulfill_items items db ≡ ok db'
    → Fulfilling db items
    → Inv db' × All (IsFulfilled db'.reservations) items
unfolding fulfill_items
fulfill_items-Fulfilling [] db db' h v =
    let same : db ≡ db' = ground arith in (rw (sym same) v.invariant, tt)
fulfill_items-Fulfilling (f ∷ rest) db db' h v = elim (Result-cases (fulfill_item f db)) [
  | inl (e, failed) ↦ ground arith
  | inr (db₁, done) ↦
      let id = f.reservation.id in
      let rest_done : fulfill_items rest db₁ ≡ ok db' = ground arith in
      let (next, this) = fulfill_item-Fulfilling f rest db db₁ done v in
      let (last, others) = fulfill_items-Fulfilling rest db₁ db' rest_done next in
      let no_more : affected (of_reservation id) rest ≡ 0 =
        ground (arith, v.once id, eq_iff id id) in
      (
        last,
        (
          fulfill_items-other rest id db₁ db' {r = fulfill_row f.package_quantity f.reservation}
              rest_done no_more this,
          others,
        ),
      )
]

join_items-once :
    (id : String) (r : ReservationRow) (items : List PackageItemRow)
    → affected (of_reservation id) (join_items r items)
      ≡ (if str_eq r.id id then affected (λ i. str_eq i.order_item_id r.order_item_id) items else 0)
unfolding join_items
join_items-once id r [] = ground arith
join_items-once id r (i ∷ items) = ground (arith, join_items-once id r items)

join_reservations-once :
    (id : String) (rows : List ReservationRow) (items : List PackageItemRow)
    → ((item : String) → affected (λ i. str_eq i.order_item_id item) items ≤ 1)
    → affected (of_reservation id) (join_reservations rows items)
      ≤ affected (reservation_is id) rows
unfolding join_reservations
join_reservations-once id [] items one = omega arith
join_reservations-once id (r ∷ rows) items one = ground (
  arith,
  affected-append (of_reservation id) (join_items r items) (join_reservations rows items),
  join_items-once id r items,
  one r.order_item_id,
  join_reservations-once id rows items one,
)

join_items-All :
    (P : ReservationRow → Type 0) (r : ReservationRow) (items : List PackageItemRow)
    → P r
    → All (λ f. P f.reservation) (join_items r items)
unfolding join_items
join_items-All P r [] p = tt
join_items-All P r (i ∷ items) p = elim (Bool-cases (str_eq i.order_item_id r.order_item_id)) [
  | inl e ↦ rw e (p, join_items-All P r items p)
  | inr e ↦ rw e (join_items-All P r items p)
]

join_reservations-All :
    (P : ReservationRow → Type 0) (rows : List ReservationRow) (items : List PackageItemRow)
    → All P rows
    → All (λ f. P f.reservation) (join_reservations rows items)
unfolding join_reservations
join_reservations-All P [] items a = tt
join_reservations-All P (r ∷ rows) items a =
    All-append (λ f. P f.reservation) (join_items r items) (join_reservations rows items)
      (join_items-All P r items a.0) (join_reservations-All P rows items a.1)

package_fulfillments-Fulfilling :
    (parcel : String) (db : Db)
    → Inv db
    → IsReserved db
    → Fulfilling db (package_fulfillments parcel db)
unfolding package_fulfillments
package_fulfillments-Fulfilling parcel db v k =
    let before =
      λ (a b : Fulfillment). text_before a.reservation.product_id b.reservation.product_id in
    let items = select_where (λ i. str_eq i.package_id parcel) db.package_items in
    let joined = join_reservations db.reservations items in
    record {
      invariant = v;
      one_id = k.one_id;
      stored = All-sort_by before (IsStored db.reservations) joined (
          join_reservations-All (λ r. query_row (reservation_is r.id) db.reservations ≡ some r)
            db.reservations items (keyed_found (λ r. r.id) db.reservations k.one_id));
      once = λ id. rw (affected-sort_by before (of_reservation id) joined) (
          omega (
            arith,
            k.one_id id,
            join_reservations-once id db.reservations items (λ item.
                rw
                  (affected-select_where (λ i. str_eq i.package_id parcel)
                    (λ i. str_eq i.order_item_id item) db.package_items)
                  (k.one_item parcel item)),
          ));
    }

fulfill_locked-Inv :
    (items : List Fulfillment) (db db' : Db)
    → fulfill_locked items db ≡ ok db'
    → Fulfilling db items
    → Inv db' × All (IsFulfilled db'.reservations) items
unfolding fulfill_locked
fulfill_locked-Inv [] db db' h v = ground arith
fulfill_locked-Inv (f ∷ rest) db db' h v = fulfill_items-Fulfilling (f ∷ rest) db db' h v

-- Where the accounting invariants and the keys hold, a fulfilment that succeeds keeps the
-- invariants, and has raised the fulfilled quantity of every reservation of the package by exactly
-- the package's quantity of its order item.
pub fulfill_package-Inv :
    (parcel : String) (db db' : Db)
    → fulfill_package parcel db ≡ ok db'
    → Inv db
    → IsReserved db
    → Inv db' × All (IsFulfilled db'.reservations) (package_fulfillments parcel db)
unfolding fulfill_package
fulfill_package-Inv parcel db db' h v k =
    fulfill_locked-Inv (package_fulfillments parcel db) db db' h
      (package_fulfillments-Fulfilling parcel db v k)
