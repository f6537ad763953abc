-- ===== src/Shipments/Safety.antt =====
-- What a shipment transition may do to its shipment, its order and the stock.
use enterprise_integration_s.Common.{
  ℕ, ◌≡◌, ◌∙◌, ap, sym, refl, String, Bool, true, false, Option, none, some, Option-cases, List, [],
  ◌∷◌, ok, Result-cases, str_eq, arith, inl, inr, Bool-cases, bind-ok, if◌then◌else◌, ◌>>=◌,
}
use enterprise_integration_s.Common.Table.{query_row}
use enterprise_integration_s.Orders.Status.{Status, can_transition}
use enterprise_integration_s.Orders.Provider.{Strings}
use enterprise_integration_s.Store.{
  OrderRow, ShipmentRow, ShipmentStatus, created, shipped, in_delivery, delivered, delivery_failed,
  returning, returned, Db, Env,
}
use enterprise_integration_s.Events.{record_event}
use enterprise_integration_s.Inventory.Holding.{
  Fulfillment, fulfill_item, fulfill_items, fulfill_locked, fulfill_package, package_fulfillments,
}
use enterprise_integration_s.Repository.{order_in}
use enterprise_integration_s.Shipments.{
  check_move, transition_tx, can_ship, is_final, outstanding, moves_order,
}
use enterprise_integration_s.Shipments.Moves.{Moved, Sent, update-Sent, transition_tx-Moved}
use enterprise_integration_s.Shipments.Transition.{
  shipment_is, package_of, consume_package, write_shipment, shipment_event, record_shipment,
  transition_shipment,
}

-- A successful transition of a shipment, and of the order with it where `moved` holds.
pub record IsLegal (shop shipment : String) (target : ShipmentStatus) (order_target : Status)
    (db db' : Db) : Type 0 where
  pub s : ShipmentRow
  pub o : OrderRow
  pub moved : Bool
  pub found : query_row (shipment_is shipment) db.shipments ≡ some s
  pub found_order : query_row (order_in shop s.order_id) db.orders ≡ some o
  pub shipping : can_ship s.status target ≡ true
  pub order_kept : moved ≡ false → db'.orders ≡ db.orders
  pub order_moved :
      moved ≡ true
      → (can_transition o.status order_target ≡ true)
        × Moved s.order_id order_target db.orders db'.orders
  pub sent : Sent shipment target db.shipments db'.shipments
  pub lasting : moved ≡ true → is_final target ≡ true → outstanding s.order_id db ≡ 1

-- A final target moves the order for the last outstanding shipment only.
moves_order-last :
    (target : ShipmentStatus) (status order_target : Status) (left : ℕ)
    → moves_order target status order_target left ≡ ok true
    → is_final target ≡ true
    → left ≡ 1
unfolding moves_order
moves_order-last target status order_target left e f = ground arith

fulfill_items-rest :
    (items : List Fulfillment) (db db' : Db)
    → fulfill_items items db ≡ ok db'
    → (db'.orders ≡ db.orders) × (db'.shipments ≡ db.shipments)
unfolding fulfill_items fulfill_item
fulfill_items-rest [] db db' e = (ground arith, ground arith)
fulfill_items-rest (item ∷ items) db db' e = elim (Result-cases (fulfill_item item db)) [
  | inl (x, f) ↦ absurd (ground arith)
  | inr (db₁, f) ↦
      let rest : fulfill_items items db₁ ≡ ok db' = rw f at e in
      let (orders, shipments) = fulfill_items-rest items db₁ db' rest in
      (orders ∙ ground arith, shipments ∙ ground arith)
]

locked-rest :
    (items : List Fulfillment) (db db' : Db)
    → fulfill_locked items db ≡ ok db'
    → (db'.orders ≡ db.orders) × (db'.shipments ≡ db.shipments)
unfolding fulfill_locked
locked-rest [] db db' e = absurd cc
locked-rest (item ∷ items) db db' e = fulfill_items-rest (item ∷ items) db db' e

fulfill_package-rest :
    (parcel : String) (db db' : Db)
    → fulfill_package parcel db ≡ ok db'
    → (db'.orders ≡ db.orders) × (db'.shipments ≡ db.shipments)
unfolding fulfill_package
fulfill_package-rest parcel db db' e = locked-rest (package_fulfillments parcel db) db db' e

consume_package-rest :
    (target : ShipmentStatus) (parcel : String) (db db' : Db)
    → consume_package target parcel db ≡ ok db'
    → (db'.orders ≡ db.orders) × (db'.shipments ≡ db.shipments)
consume_package-rest shipped parcel db db' e = elim (Result-cases (fulfill_package parcel db)) [
  | inr (db₁, f) ↦
      let same : db₁ ≡ db' = ground arith in rw (sym same) (fulfill_package-rest parcel db db₁ f)
  | inl (x, f) ↦ absurd (ground arith)
]
consume_package-rest created parcel db db' e = (ground arith, ground arith)
consume_package-rest in_delivery parcel db db' e = (ground arith, ground arith)
consume_package-rest delivered parcel db db' e = (ground arith, ground arith)
consume_package-rest delivery_failed parcel db db' e = (ground arith, ground arith)
consume_package-rest returning parcel db db' e = (ground arith, ground arith)
consume_package-rest returned parcel db db' e = (ground arith, ground arith)

transition_tx-moves :
    (str : Strings) (env : Env) (sla : ℕ) (shop order : String) (target : Status) (reason : String)
    (db db' : Db) (o : OrderRow)
    → query_row (order_in shop order) db.orders ≡ some o
    → transition_tx str env sla shop order target reason db ≡ ok db'
    → can_transition o.status target ≡ true
unfolding transition_tx check_move
transition_tx-moves str env sla shop order target reason db db' o found e =
    elim (Bool-cases (can_transition o.status target)) [
      | inl t ↦ t
      | inr t ↦
          absurd (ground (arith, Option-cases (query_row (λ x. str_eq x.id o.shop_id) db.shops)))
    ]

record_shipment-rest :
    (env : Env) (shop shipment order reason : String) (event : Option (String × String)) (db : Db)
    → ((record_shipment env shop shipment order reason event db).orders ≡ db.orders)
      × ((record_shipment env shop shipment order reason event db).shipments ≡ db.shipments)
unfolding record_event
record_shipment-rest env shop shipment order reason none db = (refl, refl)
record_shipment-rest env shop shipment order reason (some (t, s)) db = (refl, refl)

module _ (str : Strings) (env : Env) (sla : ℕ) (shop : String) (order_target : Status)
    (order : String) where
  -- The order moves, or it does not, after the shipment has been written.
  finish_order-rest :
      (move : Bool) (o : OrderRow) (db db' : Db)
      → query_row (order_in shop order) db.orders ≡ some o
      → (if move then transition_tx str env sla shop order order_target "" db else ok db) ≡ ok db'
      → (move ≡ false → db'.orders ≡ db.orders)
        × (move ≡ true
            → (can_transition o.status order_target ≡ true)
              × Moved order order_target db.orders db'.orders)
        × (db'.shipments ≡ db.shipments)
  finish_order-rest false o db db' found e = (λ _. ground arith, λ t. absurd cc, ground arith)
  finish_order-rest true o db db' found e =
      let (orders, shipments) =
        transition_tx-Moved str env sla shop order order_target "" db db' e in
      (
        λ t. absurd cc,
        λ _. (transition_tx-moves str env sla shop order order_target "" db db' o found e, orders),
        shipments,
      )

  -- What the end of transitionShipment writes, after the stock has been consumed.
  finish-rest :
      (shipment reason : String) (target : ShipmentStatus) (parcel : String) (move : Bool)
      (o : OrderRow) (db db' : Db)
      → query_row (order_in shop order) db.orders ≡ some o
      → (do
        moved ←
            (if move
              then transition_tx str env sla shop order order_target ""
                  (write_shipment env.now shipment target reason parcel db)
              else ok (write_shipment env.now shipment target reason parcel db))
        ok (record_shipment env shop shipment order reason (shipment_event target) moved))
        ≡ ok db'
      → (move ≡ false → db'.orders ≡ db.orders)
        × (move ≡ true
            → (can_transition o.status order_target ≡ true)
              × Moved order order_target db.orders db'.orders)
        × Sent shipment target db.shipments db'.shipments
  finish-rest shipment reason target parcel move o db db' found e =
      let written = write_shipment env.now shipment target reason parcel db in
      let (moved, done, recorded) =
        bind-ok
          (if move
            then transition_tx str env sla shop order order_target "" written
            else ok written)
          _ {b = db'} e in
      let last : record_shipment env shop shipment order reason (shipment_event target) moved
          ≡ db' =
        ground arith in
      let (orders, shipments) =
        record_shipment-rest env shop shipment order reason (shipment_event target) moved in
      let (kept, legal, same) = finish_order-rest move o written moved found done in
      let sent = update-Sent env.now shipment target reason db.shipments in
      rw (sym last) (rw (orders, shipments, same) (kept, legal, sent))

-- A shipment transition that succeeds follows the shipment state machine: of the shipments, that one
-- alone changes, and has the target status. It leaves the orders as they are, or it moves the shipment's
-- order, and no other, along a legal transition to the target status; with a DELIVERED or RETURNED
-- shipment it moves the order only where that shipment is the last outstanding one of the order.
pub transition_shipment-IsLegal :
    (str : Strings) (env : Env) (sla : ℕ) (shop shipment : String) (target : ShipmentStatus)
    (order_target : Status) (reason : String) (db db' : Db)
    → transition_shipment str env sla shop shipment target order_target reason db ≡ ok db'
    → IsLegal shop shipment target order_target db db'
unfolding transition_shipment
transition_shipment-IsLegal str env sla shop shipment target order_target reason db db' e =
    elim (Option-cases (query_row (shipment_is shipment) db.shipments)) [
      | inl n ↦ absurd (ground arith)
      | inr (s, fs) ↦ elim (Option-cases (query_row (order_in shop s.order_id) db.orders)) [
        | inl n ↦ absurd (ground arith)
        | inr (o, fo) ↦ elim (Bool-cases (can_ship s.status target)) [
          | inr n ↦ absurd (ground arith)
          | inl ships ↦
              elim (Result-cases
                (moves_order target o.status order_target (outstanding s.order_id db))) [
                  | inl (x, n) ↦ absurd (ground arith)
                  | inr (move, m) ↦
                      elim (Result-cases (consume_package target (package_of s.package_id) db)) [
                        | inl (x, n) ↦ absurd (ground arith)
                        | inr (db₁, c) ↦
                            let (orders, shipments) =
                              consume_package-rest target (package_of s.package_id) db db₁ c in
                            let finished =
                              finish-rest str env sla shop order_target s.order_id shipment reason
                                target (package_of s.package_id) move o db₁ db' (rw orders fo)
                                (rw (fs, fo, ships, m, c) at e) in
                            let (kept, legal, sent) = rw (orders, shipments) at finished in
                            record {
                              s = s;
                              o = o;
                              moved = move;
                              found = fs;
                              found_order = fo;
                              shipping = ships;
                              order_kept = kept;
                              order_moved = legal;
                              sent = sent;
                              lasting = λ t f.
                                  moves_order-last target o.status order_target
                                    (outstanding s.order_id db) (m ∙ ap ok t) f;
                            }
                      ]
                ]
        ]
      ]
    ]
