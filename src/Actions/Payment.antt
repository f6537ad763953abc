-- ===== src/Actions/Payment.antt =====
-- The simulated payment failure, from the request to the stock.
use enterprise_integration_s.Common.{
  ℕ, ◌≡◌, ◌≢◌, ◌⊎◌, refl, ◌||◌, not, String, true, false, some, List, [], ◌∷◌, str_eq, arith, inl,
  inr, Bool-cases,
}
use enterprise_integration_s.Common.Table.{All, query_row, update_where}
use enterprise_integration_s.Orders.Status.{Status, same_status, unpaid, cancelled}
use enterprise_integration_s.Orders.State.{PaymentStatus, pending, failed}
use enterprise_integration_s.Orders.Service.{is_pending}
use enterprise_integration_s.Store.{OrderRow, Db, Env}
use enterprise_integration_s.Events.{record_event}
use enterprise_integration_s.Inventory.Holding.{live_of}
use enterprise_integration_s.Inventory.Invariant.{HasRoom, Inv}
use enterprise_integration_s.Inventory.Invariant.Release.{release-total}
use enterprise_integration_s.Repository.{order_in}
use enterprise_integration_s.Repository.Cancellation.{Inv-stock}
use enterprise_integration_s.Actions.{failed_order, fail_events, fail_payment, fail_found}

-- Every row of the order is cancelled for a failed payment.
abbrev pub HasFailed : String → List OrderRow → Type 0
HasFailed order =
    All (λ r. str_eq r.id order ≡ true → (r.status ≡ cancelled) × (r.payment_status ≡ failed))

failed_rows :
    (now : ℕ) (order reason : String) (rows : List OrderRow)
    → HasFailed order (update_where (λ r. str_eq r.id order) (failed_order now reason) rows)
failed_rows now order reason [] = tt
failed_rows now order reason (r ∷ rows) = elim (Bool-cases (str_eq r.id order)) [
  | inl e ↦ rw e ((λ _. (refl, refl)), failed_rows now order reason rows)
  | inr e ↦ rw e ((λ t. absurd (ground arith)), failed_rows now order reason rows)
]

is_unpaid_or : (s : Status) → (s ≡ unpaid) ⊎ (same_status s unpaid ≡ false)
is_unpaid_or s = elim s as (λ x. (x ≡ unpaid) ⊎ (same_status x unpaid ≡ false)) [
  | unpaid ↦ inl refl
  | _ ↦ inr refl
]

is_pending_or : (p : PaymentStatus) → (p ≡ pending) ⊎ (is_pending p ≡ false)
is_pending_or p = elim p as (λ x. (x ≡ pending) ⊎ (is_pending x ≡ false)) [
  | pending ↦ inl refl
  | _ ↦ inr refl
]

must_refuse :
    (s : Status) (p : PaymentStatus)
    → (s ≢ unpaid) ⊎ (p ≢ pending)
    → (not (same_status s unpaid) || not (is_pending p)) ≡ true
must_refuse s p wrong = ground (arith, is_unpaid_or s, is_pending_or p)

-- Where the accounting invariants hold and products.stock has room for what the order still holds, a
-- payment failure of an unpaid order with a pending payment answers 200: the order is cancelled and its payment failed, none of its reservations is live any
-- more, and the invariants still hold. On an order in any other state it answers 400 and changes
-- nothing.
pub fail_payment-total :
    (env : Env) (shop order reason : String) (db : Db) (o : OrderRow)
    → Inv db
    → HasRoom order db
    → query_row (order_in shop order) db.orders ≡ some o
    → (o.status ≡ unpaid
        → o.payment_status ≡ pending
        → (db' : Db) × (fail_payment env shop order reason db ≡ (db', 200))
          × Inv db'
          × All (λ r. live_of order r ≡ false) db'.reservations
          × HasFailed order db'.orders)
      × ((o.status ≢ unpaid) ⊎ (o.payment_status ≢ pending)
          → fail_payment env shop order reason db ≡ (db, 400))
unfolding fail_payment fail_found record_event
fail_payment-total env shop order reason db o v room found = (
  λ is_unpaid waiting.
      let db₁ = record db {
        orders = update_where (λ r. str_eq r.id order) (failed_order env.now reason) db.orders;
      } in
      let (db₂, done, v₂, dead, orders) =
        release-total env.now order db₁ (Inv-stock db db₁ refl refl refl v) room in
      let db' = fail_events env shop order reason db₂ in
      (
        db',
        rw (found, is_unpaid, waiting, done) refl,
        Inv-stock db₂ db' refl refl refl v₂,
        dead,
        rw orders (failed_rows env.now order reason db.orders),
      ),
  λ wrong. rw (found, must_refuse o.status o.payment_status wrong) refl,
)
