-- ===== src/Webhooks/Delivery.antt =====
-- scheduleDeliveries and handleDelivery of cmd/worker/main.go, with the server's retryDelivery and
-- retireWebhook. Headers, bodies and durations, which only diagnose an attempt, are left out.
pub mod Attempt
pub mod Steps
pub mod Quiet
pub mod Retirement
pub mod Retries
use enterprise_integration_s.Common.{
  ℕ, ◌+◌, ◌*◌, max, String, Bool, true, false, ◌&&◌, ◌||◌, not, Option, none, some, List, [], ◌∷◌,
  map, str_eq, if◌then◌else◌, ltb, leb, ◌==◌, is_some,
}
use enterprise_integration_s.Common.Int.{pos}
use enterprise_integration_s.Common.Table.{update_where, affected, select_where, query_row}
use enterprise_integration_s.Common.Sorting.{sort_by, take, text_before}
use enterprise_integration_s.Webhooks.Contract.{retry_after}
use enterprise_integration_s.Webhooks.State.{
  WebhookRow, delivered, failed, pending, cancelled, is_pending, is_cancelled, DeliveryRow,
  WebhookDb,
}

abbrev pub delivery_is : String → DeliveryRow → Bool
delivery_is id d = str_eq d.id id

-- column IS NULL OR column<=now()
abbrev pub is_over : Option ℕ → ℕ → Bool
is_over none now = true
is_over (some at) now = leb at now

abbrev pub is_due : ℕ → DeliveryRow → Bool
is_due now d = is_pending d.status && is_over d.next_attempt_at now && is_over d.leased_until now

-- ORDER BY created_at,id
abbrev pub delivery_before : DeliveryRow → DeliveryRow → Bool
delivery_before a b =
    ltb a.created_at b.created_at || (not (ltb b.created_at a.created_at) && text_before a.id b.id)

unfoldable pub due_deliveries : ℕ → List DeliveryRow → List String
due_deliveries now rows =
    map (λ d. d.id) (take 100 (sort_by delivery_before (select_where (is_due now) rows)))

abbrev pub lease_row : ℕ → DeliveryRow → DeliveryRow
lease_row now d = record d { leased_until = some (now + 30 * 1000000) }

-- The UPDATE that leases one delivery, and whether it affected a row.
unfoldable pub lease_delivery : ℕ → String → List DeliveryRow → List DeliveryRow × Bool
lease_delivery now id rows = (
  update_where (λ d. delivery_is id d && is_due now d) (lease_row now) rows,
  not (affected (λ d. delivery_is id d && is_due now d) rows == 0),
)

abbrev pub unlease_row : DeliveryRow → DeliveryRow
unlease_row d = record d { leased_until = none }

-- UPDATE webhook_deliveries SET leased_until=NULL WHERE id=$1
abbrev pub unlease : String → List DeliveryRow → List DeliveryRow
unlease id rows = update_where (delivery_is id) unlease_row rows

-- The loop of `scheduleDeliveries` over the identifiers that it reads. A task that cannot be enqueued
-- gives its lease back and ends the loop. The result has the table and the tasks.
unfoldable pub schedule_from :
    ℕ → (String → Bool) → List String → List DeliveryRow → List DeliveryRow × List String
schedule_from now enqueue [] rows = (rows, [])
schedule_from now enqueue (id ∷ ids) rows =
    let leased = lease_delivery now id rows in
    let skipped = schedule_from now enqueue ids leased.0 in
    if not leased.1
    then skipped
    else if enqueue id
    then (skipped.0, id ∷ skipped.1)
    else (unlease id leased.0, [])

-- `scheduleDeliveries`
unfoldable pub schedule_deliveries :
    ℕ → (String → Bool) → List DeliveryRow → List DeliveryRow × List String
schedule_deliveries now enqueue rows = schedule_from now enqueue (due_deliveries now rows) rows

-- UPDATE ... SET attempt_count=GREATEST(attempt_count,$2) WHERE id=$1 AND status='CANCELLED'
unfoldable pub count_cancelled : String → ℕ → List DeliveryRow → List DeliveryRow
count_cancelled id attempt =
    update_where (λ d. delivery_is id d && is_cancelled d.status)
      (λ d. record d { attempt_count = max d.attempt_count attempt })

-- What becomes of a pending delivery after an attempt: delivered, failed for good, or due again.
abbrev pub settled_row : ℕ → ℕ → Option String → DeliveryRow → DeliveryRow
settled_row now attempt none d = record d {
  status = delivered;
  attempt_count = attempt;
  delivered_at = some now;
  next_attempt_at = none;
  leased_until = none;
}
settled_row now attempt (some code) d =
    if leb 5 attempt
    then record d {
      status = failed;
      attempt_count = attempt;
      next_attempt_at = none;
      leased_until = none;
    }
    else record d {
      attempt_count = attempt;
      next_attempt_at = some (now + retry_after (pos attempt) * 1000000);
      leased_until = none;
    }

-- The last UPDATE of `handleDelivery`, WHERE id=$1 AND status='PENDING'
unfoldable pub settle : ℕ → String → ℕ → Option String → List DeliveryRow → List DeliveryRow
settle now id attempt failure =
    update_where (λ d. delivery_is id d && is_pending d.status) (settled_row now attempt failure)

abbrev pub webhook_is : String → WebhookRow → Bool
webhook_is id w = str_eq w.id id

-- w.deleted_at IS NULL
abbrev pub is_registered : String → List WebhookRow → Bool
is_registered id rows =
    not (affected (λ w. webhook_is id w && not (is_some w.deleted_at)) rows == 0)

abbrev pub retried_row : ℕ → DeliveryRow → DeliveryRow
retried_row now d = record d { status = pending; next_attempt_at = some now; leased_until = none }

retry_found : ℕ → String → WebhookDb → Option DeliveryRow → Option WebhookDb
retry_found now id db none = none
retry_found now id db (some d) =
    if is_registered d.webhook_id db.webhooks
    then some
        (record db { deliveries = update_where (delivery_is id) (retried_row now) db.deliveries })
    else none

-- The transaction of `retryDelivery`, after authorization; `none` answers 404 and 409.
unfoldable pub retry_delivery : ℕ → String → WebhookDb → Option WebhookDb
unfolding retry_found
retry_delivery now id db = retry_found now id db (query_row (delivery_is id) db.deliveries)

abbrev pub retirable : String → String → WebhookRow → Bool
retirable id shop w = webhook_is id w && str_eq w.shop_id shop && not (is_some w.deleted_at)

abbrev pub cancelled_row : DeliveryRow → DeliveryRow
cancelled_row d = record d { status = cancelled; next_attempt_at = none; leased_until = none }

abbrev pub removed_row : ℕ → WebhookRow → WebhookRow
removed_row now w = record w { deleted_at = some now; enabled = false }

abbrev pub removal : ℕ → String → String → WebhookDb → WebhookDb
removal now id shop db = record db {
  webhooks = update_where (retirable id shop) (removed_row now) db.webhooks;
  deliveries =
      update_where (λ d. str_eq d.webhook_id id && is_pending d.status) cancelled_row db.deliveries;
}

-- `retireWebhook`; `none` is pgx.ErrNoRows.
unfoldable pub retire_webhook : ℕ → String → String → WebhookDb → Option WebhookDb
retire_webhook now id shop db =
    if affected (retirable id shop) db.webhooks == 0 then none else some (removal now id shop db)
