-- ===== src/Actions.antt =====
-- The operator's order actions of internal/server/lifecycle_handlers.go: orderAction and failPayment,
-- with cancelResponse of provider_fulfillment.go. A response is its status code. Requests have a
-- readable JSON body.
pub mod Payment
use enterprise_integration_s.Common.{
  ◌*◌, ℕ, String, Bool, true, false, ◌&&◌, ◌||◌, not, Option, none, some, List, [], ◌∷◌, Result, ok,
  err, str_eq, if◌then◌else◌, ltb,
}
use enterprise_integration_s.Common.Table.{update_where, query_row}
use enterprise_integration_s.Orders.Status.{
  Status, unpaid, paid, processing, ready_to_ship, completed, cancelled, same_status,
}
use enterprise_integration_s.Orders.Provider.{Strings, valid_cancellation_reason}
use enterprise_integration_s.Orders.State.{failed, Error, is_order_not_found, entry}
use enterprise_integration_s.Orders.Service.{Service, is_pending, cancellation_payload}
use enterprise_integration_s.Orders.UseCases.{transition, cancel}
use enterprise_integration_s.Store.{OrderRow, Db, Env}
use enterprise_integration_s.Events.{record_event}
use enterprise_integration_s.Inventory.Holding.{release}
use enterprise_integration_s.Repository.{order_in, Connection, postgres_repository}
use enterprise_integration_s.Inventory.Allocation as Allocation

-- The SET list of failPayment.
abbrev pub failed_order : ℕ → String → OrderRow → OrderRow
failed_order now reason o = record o {
  status = cancelled;
  payment_status = failed;
  payment_failed_at = some now;
  payment_failure_reason = reason;
  cancellation_actor = "SYSTEM";
  cancellation_reason = "PAYMENT_FAILED";
}

abbrev pub fail_events : Env → String → String → String → Db → Db
fail_events env shop order reason db =
    record_event env shop "order.cancelled" order
      (cancellation_payload order "SYSTEM" "PAYMENT_FAILED")
      (record_event env shop "order.payment_failed" order
        (entry "id" order ∷ entry "reason" reason ∷ []) db)

released : Env → String → String → String → Result Allocation.Error Db → Db → Db × ℕ
released env shop order reason (err e) db = (db, 500)
released env shop order reason (ok db') db = (fail_events env shop order reason db', 200)

fail_found : Env → String → String → String → Option OrderRow → Db → Db × ℕ
unfolding released
fail_found env shop order reason none db = (db, 404)
fail_found env shop order reason (some o) db =
    let marked = record db {
      orders = update_where (λ r. str_eq r.id order) (failed_order env.now reason) db.orders;
    } in
    if not (same_status o.status unpaid) || not (is_pending o.payment_status)
    then (db, 400)
    else released env shop order reason (release env.now order marked) db

-- `failPayment`: the tables afterwards, rolled back unless the response is 200, and the response.
unfoldable pub fail_payment : Env → String → String → String → Db → Db × ℕ
unfolding fail_found
fail_payment env shop order reason db =
    fail_found env shop order reason (query_row (order_in shop order) db.orders) db

-- targets of orderAction
unfoldable pub action_target : String → Option Status
action_target action =
    if str_eq action "PAY"
    then some paid
    else if str_eq action "PROCESS"
    then some processing
    else if str_eq action "READY_TO_SHIP"
    then some ready_to_ship
    else if str_eq action "COMPLETE"
    then some completed
    else none

abbrev pub cancel_status : Option Error → ℕ
cancel_status none = 200
cancel_status (some e) = if is_order_not_found e then 404 else 400

abbrev pub transition_status : Option Error → ℕ
transition_status none = 200
transition_status (some _) = 400

-- An action with what its request holds.
pub record ActionRequest : Type 0 where
  pub action : String
  pub actor : String
  pub reason : String

module _ (str : Strings) (service : Service) (env : Env) (connection : Connection) where
  -- `cancelResponse`
  unfoldable pub cancel_response : String → String → String → String → Db → Db × ℕ
  cancel_response shop order actor reason db =
      let done =
        cancel str service (postgres_repository env connection) shop order actor reason db in
      if not (valid_cancellation_reason str actor reason)
      then (db, 400)
      else (done.0, cancel_status done.1)

  -- The CANCEL branch: an empty request is the seller's, and only customers and sellers may ask.
  unfoldable pub cancel_action : String → String → ActionRequest → Db → Db × ℕ
  cancel_action shop order request db =
      let legacy = str_eq request.actor "" && str_eq request.reason "" in
      let actor = str.to_upper (str.trim_space (if legacy then "SELLER" else request.actor)) in
      let reason =
        str.to_upper (str.trim_space (if legacy then "OUT_OF_STOCK" else request.reason)) in
      if not (str_eq actor "CUSTOMER") && not (str_eq actor "SELLER")
      then (db, 400)
      else cancel_response shop order actor reason db

  transition_action : String → String → Option Status → Db → Db × ℕ
  transition_action shop order none db = (db, 400)
  transition_action shop order (some target) db =
      let done =
        transition str service (postgres_repository env connection) shop order target "" db in
      (done.0, transition_status done.1)

  action_in : (String → Bool) → Option OrderRow → String → ActionRequest → Db → Db × ℕ
  unfolding transition_action
  action_in may_access none order request db = (db, 404)
  action_in may_access (some o) order request db =
      let action = str.to_upper request.action in
      if not (may_access o.shop_id)
      then (db, 403)
      else if str_eq action "PAYMENT_FAILED"
      then fail_payment env o.shop_id order "SIMULATED_PAYMENT_FAILURE" db
      else if str_eq action "CANCEL"
      then cancel_action o.shop_id order request db
      else transition_action o.shop_id order (action_target action) db

  -- `orderAction`; strings.EqualFold is taken to agree with the comparison of upper cases.
  unfoldable pub order_action : (String → Bool) → String → ActionRequest → Db → Db × ℕ
  unfolding action_in
  order_action may_access order request db =
      action_in may_access (query_row (λ o. str_eq o.id order) db.orders) order request db

-- `paymentExpiry` and `sellerSLA`, in microseconds.
unfoldable pub payment_expiry : ℕ → ℕ
payment_expiry configured = if ltb 0 configured then configured else 30 * 60 * 1000000

unfoldable pub server_seller_sla : ℕ → ℕ
server_seller_sla configured = if ltb 0 configured then configured else 48 * 3600 * 1000000
