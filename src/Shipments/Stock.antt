-- ===== src/Shipments/Stock.antt =====
-- Moving a shipment keeps the accounting invariants, whichever statements its target calls for.
use enterprise_integration_s.Common.{
  ℕ, ◌≡◌, ◌∙◌, refl, sym, String, concat, List, Bool, true, false, ◌&&◌, str_eq, if◌then◌else◌, not,
  Option, none, some, arith, Bool-cases, inl, inr, ok, err, Result, bind-ok, suc,
}
use enterprise_integration_s.Common.Table.{
  affected, query_row, update_where, total-update_where_same, All-update_where,
}
use enterprise_integration_s.Orders.Status.{Status, paid, same_status, status_text}
use enterprise_integration_s.Orders.Provider.{Strings}
use enterprise_integration_s.Orders.State.{text, Field}
use enterprise_integration_s.Store.{ReservationRow, ShipmentStatus, shipped, Db, Env}
use enterprise_integration_s.Events.{record_event}
use enterprise_integration_s.Inventory.Allocation as Allocation
use enterprise_integration_s.Inventory.Holding.{
  is_active, commit_row, commit, fulfill_package, product_is,
}
use enterprise_integration_s.Inventory.Invariant.{held_at, Inv}
use enterprise_integration_s.Inventory.Invariant.Fulfill.Package.{IsReserved, fulfill_package-Inv}
use enterprise_integration_s.Repository.{order_in, inventory_error}
use enterprise_integration_s.Repository.Cancellation.{Inv-stock}
use enterprise_integration_s.Shipments.{
  found_order, profile_of, check_move, order_is, moved_order, move_payload, payment_reference,
  transition_tx, can_ship, outstanding, moves_order,
}
use enterprise_integration_s.Shipments.Transition.{
  shipment_is, found_shipment, package_of, consume_package, write_shipment, shipment_event,
  record_shipment, transition_shipment,
}

commit-Inv :
    (now : ℕ) (order : String) (db db' : Db) → commit now order db ≡ ok db' → Inv db → Inv db'
unfolding commit
commit-Inv now order db db' h v =
    let q = λ (r : ReservationRow). str_eq r.order_id order && is_active r.status in
    let committed : Db = record db {
      reservations = update_where q (commit_row now) db.reservations;
    } in
    let same : committed ≡ db' = ground arith in
    rw (sym same) (record {
      conserved = v.conserved;
      accounted = λ w p.
          v.accounted w p
          ∙ sym (
              total-update_where_same q (commit_row now) (held_at w p) (λ r e. ground arith)
                db.reservations);
      keyed = record {
        one_stock = v.keyed.one_stock;
        one_product = v.keyed.one_product;
        known_product =
            All-update_where (λ r. affected (product_is r.product_id) db.products ≡ 1) q
              (commit_row now) (λ r _ e. e) db.reservations v.keyed.known_product;
      };
    })

inventory_error-ok :
    (message : String) (r : Result Allocation.Error Db) {db' : Db}
    → inventory_error message r ≡ ok db'
    → r ≡ ok db'
inventory_error-ok message (ok db) h = ground arith
inventory_error-ok message (err Allocation.no_eligible_warehouse) h = cc
inventory_error-ok message (err (Allocation.text e)) h = cc

consume_package-Inv :
    (target : ShipmentStatus) (parcel : String) (db db' : Db)
    → consume_package target parcel db ≡ ok db'
    → Inv db
    → IsReserved db
    → Inv db'
consume_package-Inv shipped parcel db db' h v k = elim (Bool-cases (str_eq parcel "")) [
  | inl e ↦ let h = rw e at h in absurd cc
  | inr e ↦
      let h = rw e at h in
      let done =
        inventory_error-ok "fulfill package inventory" (fulfill_package parcel db) {db' = db'} h in
      let (kept, _) = fulfill_package-Inv parcel db db' done v k in kept
]
consume_package-Inv _ parcel db db' h v k = let same : db ≡ db' = ground arith in rw (sym same) v

module _ (str : Strings) (env : Env) (sla_seconds : ℕ) where
  committed_if-Inv :
      (order : String) (is_paid : Bool) (db db' : Db)
      → (if is_paid
          then inventory_error "commit inventory reservation" (commit env.now order db)
          else ok db)
        ≡ ok db'
      → Inv db
      → Inv db'
  committed_if-Inv order true db db' h v =
      let done =
        inventory_error-ok "commit inventory reservation" (commit env.now order db) {db' = db'} h in
      commit-Inv env.now order db db' done v
  committed_if-Inv order false db db' h v = let same : db ≡ db' = ground arith in rw (sym same) v

  record_event-Inv :
      (shop event_type aggregate : String) (payload : List Field) (db : Db)
      → Inv db
      → Inv (record_event env shop event_type aggregate payload db)
  unfolding record_event
  record_event-Inv shop event_type aggregate payload db v =
      Inv-stock db (record_event env shop event_type aggregate payload db) refl refl refl v

  record_shipment-Inv :
      (shop shipment order reason : String) (event : Option (String × String)) (db : Db)
      → Inv db
      → Inv (record_shipment env shop shipment order reason event db)
  record_shipment-Inv shop shipment order reason none db v = v
  record_shipment-Inv shop shipment order reason (some (event_type, status)) db v =
      record_event-Inv shop event_type shipment _ db v

  transition_tx-Inv :
      (shop order : String) (target : Status) (reason : String) (db db' : Db)
      → transition_tx str env sla_seconds shop order target reason db ≡ ok db'
      → Inv db
      → Inv db'
  unfolding transition_tx
  transition_tx-Inv shop order target reason db db' h v =
      let (o, _, h₁) =
        bind-ok (found_order (query_row (order_in shop order) db.orders)) _ {b = db'} h in
      let (provider, _, h₂) =
        bind-ok (profile_of (query_row (λ s. str_eq s.id o.shop_id) db.shops)) _ {b = db'} h₁ in
      let (_, _, h₃) = bind-ok (check_move o target env.now) _ {b = db'} h₂ in
      let reference = payment_reference str env sla_seconds target db.drawn in
      let is_paid = same_status target paid in
      let moved : Db = record db {
        orders =
            update_where (order_is order)
              (moved_order env.now target reference provider sla_seconds) db.orders;
        drawn = if is_paid then suc db.drawn else db.drawn;
      } in
      let (committed, done, h₄) =
        bind-ok
          (if is_paid
            then inventory_error "commit inventory reservation" (commit env.now order moved)
            else ok moved)
          _ {b = db'} h₃ in
      let recorded =
        record_event env shop (concat "order." (str.to_lower (status_text target))) order
          (move_payload order target reference reason) committed in
      let last : recorded ≡ db' = ground arith in
      let kept =
        committed_if-Inv order is_paid moved committed done (Inv-stock db moved refl refl refl v) in
      rw (sym last) (record_event-Inv shop _ order _ committed kept)

  moved_if-Inv :
      (shop order : String) (target : Status) (move : Bool) (db db' : Db)
      → (if move then transition_tx str env sla_seconds shop order target "" db else ok db) ≡ ok db'
      → Inv db
      → Inv db'
  moved_if-Inv shop order target true db db' h v = transition_tx-Inv shop order target "" db db' h v
  moved_if-Inv shop order target false db db' h v =
      let same : db ≡ db' = ground arith in rw (sym same) v

  -- Where the accounting invariants and the keys hold, a shipment that moves leaves the invariants
  -- so, whether its package's stock is consumed or not and whether its order moves or not.
  pub transition_shipment-Inv :
      (shop shipment : String) (target : ShipmentStatus) (order_target : Status) (reason : String)
      (db db' : Db)
      → transition_shipment str env sla_seconds shop shipment target order_target reason db ≡ ok db'
      → Inv db
      → IsReserved db
      → Inv db'
  unfolding transition_shipment
  transition_shipment-Inv shop shipment target order_target reason db db' h v k =
      let (s, _, h₁) =
        bind-ok (found_shipment (query_row (shipment_is shipment) db.shipments)) _ {b = db'} h in
      let (o, _, h₂) =
        bind-ok (found_order (query_row (order_in shop s.order_id) db.orders)) _ {b = db'} h₁ in
      let (_, _, h₃) =
        bind-ok
          (if not (can_ship s.status target)
            then err (text "cannot transition shipment")
            else ok tt)
          _ {b = db'} h₂ in
      let (move, _, h₄) =
        bind-ok (moves_order target o.status order_target (outstanding s.order_id db)) _ {b = db'}
          h₃ in
      let parcel = package_of s.package_id in
      let (consumed, eaten, h₅) = bind-ok (consume_package target parcel db) _ {b = db'} h₄ in
      let written = write_shipment env.now shipment target reason parcel consumed in
      let (moved, travelled, h₆) =
        bind-ok
          (if move
            then transition_tx str env sla_seconds shop s.order_id order_target "" written
            else ok written)
          _ {b = db'} h₅ in
      let last : record_shipment env shop shipment s.order_id reason (shipment_event target) moved
          ≡ db' =
        ground arith in
      let kept = consume_package-Inv target parcel db consumed eaten v k in
      rw (sym last) (
        record_shipment-Inv shop shipment s.order_id reason (shipment_event target) moved (
          moved_if-Inv shop s.order_id order_target move written moved travelled
            (Inv-stock consumed written refl refl refl kept)))
