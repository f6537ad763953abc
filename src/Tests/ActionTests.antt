-- ===== src/Tests/ActionTests.antt =====
-- A payment failure, an overdue batch and a shipment.
use enterprise_integration_s.Common.{
  ◌≡◌, ◌≢◌, ◌⊎◌, refl, true, false, none, some, [], ◌∷◌, ok, arith,
}
use enterprise_integration_s.Common.Table.{All}
use enterprise_integration_s.Orders.Status.{
  unpaid, in_delivery as order_in_delivery, delivered as order_delivered, can_transition,
  status_text,
}
use enterprise_integration_s.Orders.State.{pending, settled, entry, LifecycleState}
use enterprise_integration_s.Store.{ShipmentRow, in_delivery, delivered, Db}
use enterprise_integration_s.Inventory.Holding.{live_of}
use enterprise_integration_s.Inventory.Invariant.{HasRoom, Inv}
use enterprise_integration_s.Repository.{postgres_repository, lock_order}
use enterprise_integration_s.Repository.Cancellation.{healthy}
use enterprise_integration_s.Events.{record_event}
use enterprise_integration_s.Actions.{fail_payment}
use enterprise_integration_s.Actions.Payment.{HasFailed, fail_payment-total}
use enterprise_integration_s.Deadlines.{
  payment_rule, seller_rule, DeadlineCandidate, claimable, chosen, is_among, claim_deadline_batch,
  process_candidate, process_deadline_batch,
}
use enterprise_integration_s.Deadlines.Claims.{claim_deadline_batch-exclusive}
use enterprise_integration_s.Deadlines.Batches.{process_candidate-Inv, process_deadline_batch-Inv}
use enterprise_integration_s.Deadlines.Drained.{IsDrained, loop, enforce_order_deadlines-drains}
use enterprise_integration_s.Shipments.{transition_tx, check_move, moves_order, can_ship}
use enterprise_integration_s.Shipments.Transition.{transition_shipment}
use enterprise_integration_s.Shipments.Safety.{IsLegal, transition_shipment-IsLegal}
use enterprise_integration_s.Tests.Fixtures.{env, strings, service, order_row, db}
use enterprise_integration_s.Tests.InventoryTests.{db-Inv, db-HasRoom}

fail_payment-total_example :
    (unpaid ≡ unpaid
      → pending ≡ pending
      → (db' : Db) × (fail_payment env "shop1" "ord1" "declined" db ≡ (db', 200))
        × Inv db'
        × All (λ r. live_of "ord1" r ≡ false) db'.reservations
        × HasFailed "ord1" db'.orders)
    × ((unpaid ≢ unpaid) ⊎ (pending ≢ pending)
        → fail_payment env "shop1" "ord1" "declined" db ≡ (db, 400))
fail_payment-total_example =
    fail_payment-total env "shop1" "ord1" "declined" db order_row db-Inv db-HasRoom refl

claim_deadline_batch-exclusive_example :
    All
      (λ o.
        is_among (chosen payment_rule 100 250 (λ _. false) db.orders) o ≡ true
        → claimable seller_rule 260 o ≡ false)
      (claim_deadline_batch payment_rule 100 30000000 250 (λ _. false) db.orders).0
claim_deadline_batch-exclusive_example =
    claim_deadline_batch-exclusive payment_rule seller_rule 100 30000000 250 260 (λ _. false)
      db.orders (ground arith)

abbrev overdue : DeadlineCandidate
overdue = record { id = "ord1"; shop_id = "shop1" }

process_candidate-Inv_example :
    Inv
      (process_candidate strings service
        (postgres_repository env healthy)
        "PAYMENT_EXPIRED"
        overdue
        db).0
    × ((s : LifecycleState)
        → lock_order "shop1" "ord1" db ≡ ok s
        → HasRoom "ord1" db
        → (process_candidate strings service
            (postgres_repository env healthy)
            "PAYMENT_EXPIRED"
            overdue
            db).1
          ≡ [])
process_candidate-Inv_example =
    process_candidate-Inv strings service env "PAYMENT_EXPIRED" overdue db db-Inv

process_deadline_batch-Inv_example :
    Inv
      (process_deadline_batch strings service
        (postgres_repository env healthy)
        "PAYMENT_EXPIRED"
        (overdue ∷ overdue ∷ [])
        db).0
process_deadline_batch-Inv_example =
    process_deadline_batch-Inv strings service env "PAYMENT_EXPIRED" (overdue ∷ overdue ∷ []) db
      db-Inv

abbrev on_its_way : ShipmentRow
on_its_way = record {
  id = "shp1";
  order_id = "ord1";
  package_id = some "pkg1";
  tracking_number = "T";
  shipping_provider = "JNE";
  pickup_type = "PICKUP";
  status = in_delivery;
  delivery_failure_reason = "";
  shipped_at = none;
  delivered_at = none;
  failed_at = none;
  returning_at = none;
  returned_at = none;
}

abbrev travelling : Db
travelling = record db {
  orders = record order_row { status = order_in_delivery; payment_status = settled } ∷ [];
  shipments = on_its_way ∷ [];
}

abbrev arrived : Db
arrived = record travelling {
  orders = record order_row { status = order_delivered; payment_status = settled } ∷ [];
  shipments = record on_its_way { status = delivered; delivered_at = some 100 } ∷ [];
  events =
      record {
        id = "evt";
        shop_id = "shop1";
        event_type = "order.DELIVERED";
        aggregate_id = "ord1";
        payload = entry "id" "ord1" ∷ entry "status" "DELIVERED" ∷ [];
      }
      ∷ [];
  outbox = record { id = "out"; event_id = "evt"; published_at = none; created_at = 100 } ∷ [];
  drawn = 2;
}

transition_shipment-IsLegal_example :
    IsLegal "shop1" "shp1" delivered order_delivered travelling arrived
unfolding transition_shipment transition_tx check_move moves_order can_ship can_transition
    record_event status_text
transition_shipment-IsLegal_example =
    transition_shipment-IsLegal strings env 172800 "shop1" "shp1" delivered order_delivered ""
      travelling arrived refl

enforce_order_deadlines-drains_example :
    IsDrained strings service env 100 30000000 250
      (λ _. false)
      (loop strings service env 100 30000000 250 (λ _. false) 2 db)
enforce_order_deadlines-drains_example =
    enforce_order_deadlines-drains strings service env 100 30000000 250 (λ _. false) 2 db
      (omega arith) (ground arith) db-Inv
