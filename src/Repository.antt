-- ===== src/Repository.antt =====
-- internal/repository/orders/postgres.go: the PostgreSQL implementation of the lifecycle contract of
-- Orders/State, on the tables of Store.
pub mod Cancellation
use enterprise_integration_s.Common.{
  ℕ, ◌+◌, ◌*◌, ◌/◌, ◌≡◌, refl, String, Bool, true, false, ◌&&◌, Option, none, some, Option-cases,
  List, Result, ok, err, Result-cases, str_eq, if◌then◌else◌, ltb, inl, inr, arith,
}
use enterprise_integration_s.Common.Table.{update_where, query_row}
use enterprise_integration_s.Orders.Status.{Status, paid, cancelled, same_status}
use enterprise_integration_s.Orders.State.{
  PaymentStatus, settled, LifecycleState, TransitionUpdate, Error, order_not_found, text, wrap,
  LifecycleTransaction, LifecycleRepository,
}
use enterprise_integration_s.Store.{ShopRow, OrderRow, Db, Env}
use enterprise_integration_s.Events.{record_event}
use enterprise_integration_s.Inventory.Allocation as Allocation
use enterprise_integration_s.Inventory.Holding.{commit, release}

-- The row of one order in one shop.
abbrev pub order_in : String → String → OrderRow → Bool
order_in shop order r = str_eq r.id order && str_eq r.shop_id shop

abbrev locked_state : Option OrderRow → List ShopRow → Result Error LifecycleState
locked_state none shops = err order_not_found
locked_state (some o) shops = elim (query_row (λ s. str_eq s.id o.shop_id) shops) [
  | none ↦ err order_not_found
  | some s ↦ ok (record {
    status = o.status;
    provider = s.provider_profile;
    payment_status = o.payment_status;
    payment_expires = o.payment_expires_at;
    seller_deadline = o.seller_deadline_at;
  })
]

-- `LockOrder`
unfoldable pub lock_order : String → String → Db → Result Error LifecycleState
unfolding locked_state
lock_order shop order db = locked_state (query_row (order_in shop order) db.orders) db.shops

abbrev pub or_payment : Option PaymentStatus → PaymentStatus → PaymentStatus
or_payment none old = old
or_payment (some new) old = new

-- The SET list of `UpdateOrder`.
unfoldable pub updated_order : ℕ → TransitionUpdate → OrderRow → OrderRow
updated_order now update r =
    let is_paid = same_status update.target paid in
    let is_cancelled = same_status update.target cancelled in
    let seconds = update.seller_sla / 1000000 in
    record r {
      status = update.target;
      payment_reference = if is_paid then update.payment_reference else r.payment_reference;
      paid_at = if is_paid then some now else r.paid_at;
      payment_status =
          if is_paid then settled else or_payment update.payment_status r.payment_status;
      seller_deadline_at =
          if is_paid && ltb 0 seconds then some (now + seconds * 1000000) else r.seller_deadline_at;
      cancellation_actor = if is_cancelled then update.cancellation_actor else r.cancellation_actor;
      cancellation_reason =
          if is_cancelled then update.cancellation_reason else r.cancellation_reason;
    }

-- `UpdateOrder`
unfoldable pub update_order : Env → String → TransitionUpdate → Db → Result Error Db
update_order env order update db = ok (record db {
  orders = update_where (λ r. str_eq r.id order) (updated_order env.now update) db.orders;
})

-- The error of an inventory call, wrapped as in CommitInventory and ReleaseInventory.
abbrev pub inventory_error : String → Result Allocation.Error Db → Result Error Db
inventory_error message (ok db) = ok db
inventory_error message (err Allocation.no_eligible_warehouse) =
    err (wrap message (text "no active warehouse has sufficient inventory"))
inventory_error message (err (Allocation.text e)) = err (wrap message (text e))

pub inventory_error-err :
    (message : String) (x : Allocation.Error)
    → (e : Error) × (inventory_error message (err x) ≡ err e)
inventory_error-err message Allocation.no_eligible_warehouse = (_, refl)
inventory_error-err message (Allocation.text x) = (_, refl)

unfoldable pub lifecycle_transaction : Env → LifecycleTransaction Db
unfolding inventory_error
lifecycle_transaction env = record {
  lock_order = lock_order;
  update_order = update_order env;
  commit_inventory = λ order db. inventory_error "commit inventory" (commit env.now order db);
  release_inventory = λ order db. inventory_error "release inventory" (release env.now order db);
  record_event =
      λ shop event_type order payload db. ok (record_event env shop event_type order payload db);
}

-- What the connection does at Begin and at Commit: nothing, or an error.
pub record Connection : Type 0 where
  pub begin_error : Option Error
  pub commit_error : Option Error

finish : Connection → Db → Result Error Db → Db × Option Error
finish c db (err e) = (db, some e)
finish c db (ok db') = elim c.commit_error [
  | some e ↦ (db, some (wrap "commit lifecycle transaction" e))
  | none ↦ (db', none)
]

-- `InTransaction`
unfoldable pub in_transaction : Connection → (Db → Result Error Db) → Db → Db × Option Error
unfolding finish
in_transaction c op db = elim c.begin_error [
  | some e ↦ (db, some (wrap "begin lifecycle transaction" e))
  | none ↦ finish c db (op db)
]

pub in_transaction-rolls_back :
    (c : Connection) (op : Db → Result Error Db) (db : Db) (e : Error)
    → (in_transaction c op db).1 ≡ some e
    → (in_transaction c op db).0 ≡ db
unfolding in_transaction
in_transaction-rolls_back c op db e h = elim (Result-cases (op db)) [
  | inl (x, failed) ↦ ground arith
  | inr (x, done) ↦ ground arith
]

pub in_transaction-commits :
    (c : Connection) (op : Db → Result Error Db) (db : Db)
    → (in_transaction c op db).1 ≡ none
    → op db ≡ ok (in_transaction c op db).0
unfolding in_transaction
in_transaction-commits c op db h = elim (Result-cases (op db)) [
  | inl (x, failed) ↦ ground arith
  | inr (x, done) ↦ ground arith
]

-- `PostgreSQLLifecycleRepository` keeps the contract: a failed operation is rolled back whole.
unfoldable pub postgres_repository : Env → Connection → LifecycleRepository Db
postgres_repository env c = record {
  transaction = lifecycle_transaction env;
  in_transaction = in_transaction c;
  rolls_back = in_transaction-rolls_back c;
  commits = in_transaction-commits c;
}
