-- ===== src/Shipments/Moves.antt =====
-- What transitionTx and transitionShipment write to the rows of orders and of shipments.
use enterprise_integration_s.Common.{
  ℕ, suc, ◌≡◌, refl, sym, String, concat, Bool, true, false, List, [], ◌∷◌, ok, arith, inl, inr,
  Bool-cases, bind-ok, str_eq, if◌then◌else◌,
}
use enterprise_integration_s.Common.Table.{query_row, update_where}
use enterprise_integration_s.Orders.Status.{Status, paid, same_status, status_text}
use enterprise_integration_s.Orders.Provider.{Strings}
use enterprise_integration_s.Store.{OrderRow, ShipmentRow, ShipmentStatus, Db, Env}
use enterprise_integration_s.Events.{record_event}
use enterprise_integration_s.Inventory.Holding.{commit}
use enterprise_integration_s.Repository.{order_in, inventory_error}
use enterprise_integration_s.Shipments.{
  found_order, profile_of, check_move, order_is, moved_order, move_payload, payment_reference,
  transition_tx,
}
use enterprise_integration_s.Shipments.Transition.{shipment_is, moved_shipment}

-- The order's row has the target status, and may differ in what belongs to a payment; every other row
-- is as it was.
abbrev pub Moved : String → Status → List OrderRow → List OrderRow → Type 0
Moved order target [] [] = Unit
Moved order target [] (r' ∷ rows') = ⊥
Moved order target (r ∷ rows) [] = ⊥
Moved order target (r ∷ rows) (r' ∷ rows') =
    (str_eq r.id order ≡ true
      → r' ≡ record r {
        status = target;
        payment_reference = r'.payment_reference;
        paid_at = r'.paid_at;
        payment_status = r'.payment_status;
        seller_deadline_at = r'.seller_deadline_at;
      })
    × (str_eq r.id order ≡ false → r' ≡ r)
    × Moved order target rows rows'

-- The shipment's row has the target status, and may differ in its reason and instants; every other row
-- is as it was.
abbrev pub Sent : String → ShipmentStatus → List ShipmentRow → List ShipmentRow → Type 0
Sent shipment target [] [] = Unit
Sent shipment target [] (r' ∷ rows') = ⊥
Sent shipment target (r ∷ rows) [] = ⊥
Sent shipment target (r ∷ rows) (r' ∷ rows') =
    (str_eq r.id shipment ≡ true
      → r' ≡ record r {
        status = target;
        delivery_failure_reason = r'.delivery_failure_reason;
        shipped_at = r'.shipped_at;
        delivered_at = r'.delivered_at;
        failed_at = r'.failed_at;
        returning_at = r'.returning_at;
        returned_at = r'.returned_at;
      })
    × (str_eq r.id shipment ≡ false → r' ≡ r)
    × Sent shipment target rows rows'

update-Moved :
    (now : ℕ) (order : String) (target : Status) (reference provider : String) (sla : ℕ)
    (rows : List OrderRow)
    → Moved order target rows
        (update_where (order_is order) (moved_order now target reference provider sla) rows)
update-Moved now order target reference provider sla [] = tt
update-Moved now order target reference provider sla (r ∷ rows) =
    let rest = update-Moved now order target reference provider sla rows in
    elim (Bool-cases (str_eq r.id order)) [
      | inl t ↦ rw t (λ _. refl, λ f. absurd cc, rest)
      | inr f ↦ rw f (λ t. absurd cc, λ _. refl, rest)
    ]

pub update-Sent :
    (now : ℕ) (shipment : String) (target : ShipmentStatus) (reason : String)
    (rows : List ShipmentRow)
    → Sent shipment target rows
        (update_where (shipment_is shipment) (moved_shipment now target reason) rows)
update-Sent now shipment target reason [] = tt
update-Sent now shipment target reason (r ∷ rows) =
    let rest = update-Sent now shipment target reason rows in
    elim (Bool-cases (str_eq r.id shipment)) [
      | inl t ↦ rw t (λ _. refl, λ f. absurd cc, rest)
      | inr f ↦ rw f (λ t. absurd cc, λ _. refl, rest)
    ]

committed_if-rest :
    (now : ℕ) (order : String) (is_paid : Bool) (db db' : Db)
    → (if is_paid
        then inventory_error "commit inventory reservation" (commit now order db)
        else ok db)
      ≡ ok db'
    → (db'.orders ≡ db.orders) × (db'.shipments ≡ db.shipments)
unfolding commit
committed_if-rest now order true db db' h = (ground arith, ground arith)
committed_if-rest now order false db db' h = (ground arith, ground arith)

-- A transition that succeeds moves the order and leaves the shipments alone.
pub transition_tx-Moved :
    (str : Strings) (env : Env) (sla : ℕ) (shop order : String) (target : Status) (reason : String)
    (db db' : Db)
    → transition_tx str env sla shop order target reason db ≡ ok db'
    → Moved order target db.orders db'.orders × (db'.shipments ≡ db.shipments)
unfolding transition_tx record_event
transition_tx-Moved str env sla shop order target reason db db' h =
    let (o, _, h₁) =
      bind-ok (found_order (query_row (order_in shop order) db.orders)) _ {b = db'} h in
    let (provider, _, h₂) =
      bind-ok (profile_of (query_row (λ s. str_eq s.id o.shop_id) db.shops)) _ {b = db'} h₁ in
    let (_, _, h₃) = bind-ok (check_move o target env.now) _ {b = db'} h₂ in
    let reference = payment_reference str env sla target db.drawn in
    let is_paid = same_status target paid in
    let moved : Db = record db {
      orders =
          update_where (order_is order) (moved_order env.now target reference provider sla)
            db.orders;
      drawn = if is_paid then suc db.drawn else db.drawn;
    } in
    let (committed, done, h₄) =
      bind-ok
        (if is_paid
          then inventory_error "commit inventory reservation" (commit env.now order moved)
          else ok moved)
        _ {b = db'} h₃ in
    let recorded =
      record_event env shop (concat "order." (str.to_lower (status_text target))) order
        (move_payload order target reference reason) committed in
    let last : recorded ≡ db' = ground arith in
    let (orders, shipments) = committed_if-rest env.now order is_paid moved committed done in
    rw (sym last)
      (rw orders (update-Moved env.now order target reference provider sla db.orders), shipments)
