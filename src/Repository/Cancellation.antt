-- ===== src/Repository/Cancellation.antt =====
-- A cancellation over the PostgreSQL repository, from the request to the stock.
use enterprise_integration_s.Common.{
  ℕ, ◌≡◌, refl, String, true, false, none, List, [], ◌∷◌, ok, str_eq, arith, inl, inr, Bool-cases,
}
use enterprise_integration_s.Common.Table.{All, update_where}
use enterprise_integration_s.Orders.Status.{cancelled}
use enterprise_integration_s.Orders.Provider.{Strings, can_cancel, valid_cancellation_reason}
use enterprise_integration_s.Orders.State.{LifecycleState, TransitionUpdate}
use enterprise_integration_s.Orders.Service.{Service, no_update, cancellation_payload, cancel_op}
use enterprise_integration_s.Orders.UseCases.{cancel}
use enterprise_integration_s.Store.{OrderRow, Db, Env}
use enterprise_integration_s.Events.{record_event}
use enterprise_integration_s.Inventory.Holding.{live_of}
use enterprise_integration_s.Inventory.Invariant.{HasRoom, Inv}
use enterprise_integration_s.Inventory.Invariant.Release.{release-total}
use enterprise_integration_s.Repository.{
  Connection, lock_order, updated_order, update_order, in_transaction, lifecycle_transaction,
  postgres_repository,
}

abbrev pub healthy : Connection
healthy = record { begin_error = none; commit_error = none }

abbrev cancellation_update : String → String → TransitionUpdate
cancellation_update actor reason = record (no_update cancelled) {
  cancellation_actor = actor;
  cancellation_reason = reason;
}

-- Every row of the order is cancelled.
abbrev pub IsCancelled : String → List OrderRow → Type 0
IsCancelled order = All (λ r. str_eq r.id order ≡ true → r.status ≡ cancelled)

update-IsCancelled :
    (now : ℕ) (order : String) (update : TransitionUpdate) (rows : List OrderRow)
    → update.target ≡ cancelled
    → IsCancelled order (update_where (λ r. str_eq r.id order) (updated_order now update) rows)
unfolding updated_order
update-IsCancelled now order update [] h = tt
update-IsCancelled now order update (r ∷ rows) h = elim (Bool-cases (str_eq r.id order)) [
  | inl e ↦ rw e ((λ _. h), update-IsCancelled now order update rows h)
  | inr e ↦ rw e ((λ t. ground arith), update-IsCancelled now order update rows h)
]

-- The accounting invariants speak of the stock tables only.
pub Inv-stock :
    (db db' : Db)
    → db'.inventory ≡ db.inventory
    → db'.products ≡ db.products
    → db'.reservations ≡ db.reservations
    → Inv db
    → Inv db'
Inv-stock db db' i p r v = record {
  conserved = rw (i, p) v.conserved;
  accounted = rw (i, r) v.accounted;
  keyed = record {
    one_stock = rw i v.keyed.one_stock;
    one_product = rw p v.keyed.one_product;
    known_product = rw (p, r) v.keyed.known_product;
  };
}

-- Where the accounting invariants hold and the connection does, and products.stock has room for what
-- the order still holds, a cancellation with a valid reason by an actor whom the provider's rules
-- allow succeeds: the order is cancelled, none of its reservations
-- is live any more, and the invariants still hold, so its stock is sellable again.
pub cancel-total :
    (str : Strings) (service : Service) (env : Env) (shop order actor reason : String) (db : Db)
    (state : LifecycleState)
    → Inv db
    → HasRoom order db
    → lock_order shop order db ≡ ok state
    → valid_cancellation_reason str actor reason ≡ true
    → can_cancel str state.provider state.status actor ≡ true
    → (db' : Db) × (cancel str service (postgres_repository env healthy) shop order actor reason db
        ≡ (db', none))
      × Inv db'
      × All (λ r. live_of order r ≡ false) db'.reservations
      × IsCancelled order db'.orders
unfolding cancel cancel_op in_transaction lifecycle_transaction postgres_repository update_order
    record_event
cancel-total str service env shop order actor reason db state v room locked valid allowed =
    let db₁ = record db {
      orders =
          update_where (λ r. str_eq r.id order)
            (updated_order env.now (cancellation_update actor reason)) db.orders;
    } in
    let (db₂, done, v₂, dead, orders) =
      release-total env.now order db₁ (Inv-stock db db₁ refl refl refl v) room in
    let db' =
      record_event env shop "order.cancelled" order (cancellation_payload order actor reason) db₂ in
    (
      db',
      rw (valid, locked, allowed, done) refl,
      Inv-stock db₂ db' refl refl refl v₂,
      dead,
      rw orders
          (update-IsCancelled env.now order (cancellation_update actor reason) db.orders refl),
    )
