-- ===== src/Shipments.antt =====
-- The server's shipment, payment failure and order actions: transitionTx, transitionShipment,
-- shipmentAction, failPayment and orderAction of internal/server/lifecycle_handlers.go. The order
-- target "" is `other ""`. A deferred Rollback of a failed transaction is the Result's error.
pub mod Transition
pub mod Moves
pub mod Safety
pub mod Stock
use enterprise_integration_s.Common.{
  ℕ, suc, ◌+◌, ◌*◌, String, concat, Bool, true, false, ◌&&◌, ◌||◌, not, Option, none, some, List,
  [], ◌∷◌, ◌++◌, Result, ok, err, ◌>>=◌, str_eq, if◌then◌else◌, ltb, ◌==◌,
}
use enterprise_integration_s.Common.Table.{update_where, affected, query_row}
use enterprise_integration_s.Orders.Status.{
  Status, unpaid, paid, ready_to_ship, shipped as order_shipped, in_delivery as order_in_delivery,
  delivered as order_delivered, returned as order_returned, cancelled, other, same_status,
  status_text, can_transition,
}
use enterprise_integration_s.Orders.Provider.{Strings, shopee_like}
use enterprise_integration_s.Orders.State.{
  settled, failed, Error, order_not_found, text, wrap, Field, entry, object, wrapping,
}
use enterprise_integration_s.Orders.Service.{is_pending, passed}
use enterprise_integration_s.Store.{
  ShopRow, OrderRow, ShipmentStatus, created, shipped, in_delivery, delivered, delivery_failed,
  returning, returned, PackageRow, follows, ShipmentRow, Db, Env,
}
use enterprise_integration_s.Events.{record_event}
use enterprise_integration_s.Inventory.Holding.{commit, release, fulfill_package}
use enterprise_integration_s.Repository.{order_in, inventory_error}
use Prim.Native.String.{slice, len}

abbrev pub order_is : String → OrderRow → Bool
order_is id r = str_eq r.id id

-- The SET list of transitionTx.
abbrev pub moved_order : ℕ → Status → String → String → ℕ → OrderRow → OrderRow
moved_order now target reference provider sla_seconds r =
    let is_paid = same_status target paid in
    record r {
      status = target;
      payment_reference = if is_paid then reference else r.payment_reference;
      paid_at = if is_paid then some now else r.paid_at;
      payment_status = if is_paid then settled else r.payment_status;
      seller_deadline_at =
          if is_paid && str_eq provider shopee_like
          then some (now + sla_seconds * 1000000)
          else r.seller_deadline_at;
    }

-- The checks of transitionTx on the locked order.
unfoldable pub check_move : OrderRow → Status → ℕ → Result Error (Unit {0})
check_move o target now =
    if not (can_transition o.status target)
    then err (text "cannot transition")
    else if same_status target paid
        && (not (is_pending o.payment_status) || passed o.payment_expires_at now)
    then err (text "payment is no longer pending")
    else ok tt

abbrev pub move_payload : String → Status → String → String → List Field
move_payload order target reference reason =
    (entry "id" order ∷ entry "status" (status_text target) ∷ [])
    ++ ((if str_eq reference ""
          then []
          else object "payment" (("status", "PAID") ∷ ("reference", reference) ∷ []) ∷ [])
        ++ (if str_eq reason "" then [] else entry "cancellation_reason" reason ∷ []))

-- The first statement of transitionTx, with pgx.ErrNoRows.
abbrev pub found_order : Option OrderRow → Result Error OrderRow
found_order none = err (text "no rows in result set")
found_order (some o) = ok o

abbrev pub profile_of : Option ShopRow → Result Error String
profile_of none = err (text "no rows in result set")
profile_of (some s) = ok s.provider_profile

module _ (str : Strings) (env : Env) (sla_seconds : ℕ) where
  -- "SIM-PAY-" + strings.ToUpper(platform.NewID(""))[1:]
  abbrev payment_reference : Status → ℕ → String
  payment_reference target drawn =
      if same_status target paid
      then (let raw = str.to_upper (env.new_id "" drawn) in
          concat "SIM-PAY-" (slice raw 1 (len raw)))
      else ""

  -- `transitionTx`
  unfoldable pub transition_tx : String → String → Status → String → Db → Result Error Db
  unfolding payment_reference
  transition_tx shop order target reason db = do
    o ← found_order (query_row (order_in shop order) db.orders)
    provider ← profile_of (query_row (λ s. str_eq s.id o.shop_id) db.shops)
    _ ← check_move o target env.now
    let reference = payment_reference target db.drawn
    let moved = record db {
      orders =
          update_where (order_is order) (moved_order env.now target reference provider sla_seconds)
            db.orders;
      drawn = if same_status target paid then suc db.drawn else db.drawn;
    }
    committed ←
        (if same_status target paid
          then inventory_error "commit inventory reservation" (commit env.now order moved)
          else ok moved)
    ok (
        record_event env shop (concat "order." (str.to_lower (status_text target))) order
          (move_payload order target reference reason) committed)

-- expected[shipmentTarget] == shipmentStatus
unfoldable pub can_ship : ShipmentStatus → ShipmentStatus → Bool
can_ship created shipped = true
can_ship shipped in_delivery = true
can_ship in_delivery delivered = true
can_ship in_delivery delivery_failed = true
can_ship delivery_failed returning = true
can_ship returning returned = true
can_ship _ _ = false

-- status NOT IN ('DELIVERED','RETURNED')
abbrev pub is_final : ShipmentStatus → Bool
is_final delivered = true
is_final returned = true
is_final _ = false

abbrev pub is_outstanding : String → ShipmentRow → Bool
is_outstanding order s = str_eq s.order_id order && not (is_final s.status)

abbrev pub outstanding : String → Db → ℕ
outstanding order db = affected (is_outstanding order) db.shipments

-- Whether the order is to move with its shipment, before its own status is looked at.
abbrev pub wants_order : ShipmentStatus → Status → Status → ℕ → Bool
wants_order target status order_target left =
    if is_final target
    then (left == 1) && not (same_status status order_target)
    else not (same_status order_target (other "")) && not (same_status status order_target)

abbrev pub expected_order : ShipmentStatus → Status
expected_order shipped = ready_to_ship
expected_order in_delivery = order_shipped
expected_order delivered = order_in_delivery
expected_order returned = order_in_delivery
expected_order _ = other ""

-- orderRank; a missing key reads as 0.
abbrev pub order_rank : Status → ℕ
order_rank ready_to_ship = 1
order_rank order_shipped = 2
order_rank order_in_delivery = 3
order_rank order_delivered = 4
order_rank _ = 0

-- transitionOrder, or the error.
unfoldable pub moves_order : ShipmentStatus → Status → Status → ℕ → Result Error Bool
moves_order target status order_target left =
    if wants_order target status order_target left
      && not (same_status status (expected_order target))
    then if ltb (order_rank order_target) (order_rank status)
      then ok false
      else err (text "cannot update package while order is in this status")
    else ok (wants_order target status order_target left)
