-- ===== src/Webhooks/Delivery/Steps.antt =====
-- The interleavings of the worker's and the server's statements on webhook deliveries.
use enterprise_integration_s.Common.{ℕ, ◌≤◌, ◌≡◌, String, Bool, Option, some, List}
use enterprise_integration_s.Common.Table.{affected}
use enterprise_integration_s.Store.{Env}
use enterprise_integration_s.Webhooks.State.{WebhookDb}
use enterprise_integration_s.Webhooks.Publisher.{Candidate, publish_candidate}
use enterprise_integration_s.Webhooks.Replay.{replay_event, manual_deliveries}
use enterprise_integration_s.Webhooks.Delivery.{
  delivery_is, lease_delivery, unlease, count_cancelled, settle, retry_delivery, retire_webhook,
}
use enterprise_integration_s.Webhooks.Delivery.Attempt.{CallResult, record_attempt}

-- A statement or transaction on the deliveries, by any worker or request.
pub data Step (db : WebhookDb) : WebhookDb → Type 0 where
  publishes : (env : Env) (c : Candidate) → Step db (publish_candidate env c db)
  replays : (event : String) → Step db (replay_event event db).0
  duplicates :  -- duplicateEvent, and delayEvent with one copy
      (env : Env) (copies delay : ℕ) (event : String)
      → Step db (manual_deliveries env copies delay event db).0
  leases :
      (now : ℕ) (id : String)
      → Step db (record db { deliveries = (lease_delivery now id db.deliveries).0 })
  unleases : (id : String) → Step db (record db { deliveries = unlease id db.deliveries })
  inserts :
      {db' : WebhookDb} (stores : List ℕ → Bool) (id : String) (attempt : ℕ) (call : CallResult)
      → record_attempt stores id attempt call db ≡ some db'
      → Step db db'
  counts :
      (id : String) (attempt : ℕ)
      → Step db (record db { deliveries = count_cancelled id attempt db.deliveries })
  settles :
      (later : ℕ) (id : String) (attempt : ℕ) (failure : Option String)
      → Step db (record db { deliveries = settle later id attempt failure db.deliveries })
  retries :
      {db' : WebhookDb} (now : ℕ) (id : String)
      → affected (delivery_is id) db.deliveries ≤ 1  -- the primary key
      → retry_delivery now id db ≡ some db'
      → Step db db'
  retires :
      {db' : WebhookDb} (now : ℕ) (id shop : String)
      → retire_webhook now id shop db ≡ some db'
      → Step db db'

pub data Steps (db : WebhookDb) : WebhookDb → Type 0 where
  here : Steps db db
  next : {db₁ db₂ : WebhookDb} → Steps db db₁ → Step db₁ db₂ → Steps db db₂
