-- ===== src/Webhooks/State.antt =====
-- The rows that webhook delivery reads and writes (migrations 001, 002, 014 and 015). Instants are
-- microseconds. A delay is not negative, which internal/scenarios/config.go validates.
use enterprise_integration_s.Common.{ℕ, String, Bool, true, false, Option, List}
use enterprise_integration_s.Store.{ShopRow, EventRow, OutboxRow}

pub record WebhookRow : Type 0 where
  pub id : String
  pub shop_id : String
  pub secret_ciphertext : String
  pub enabled : Bool
  pub subscribed_events : List String
  pub deleted_at : Option ℕ

pub record CredentialRow : Type 0 where
  pub shop_id : String
  pub client_id : String
  pub secret_ciphertext : String
  pub active : Bool

pub record ScenarioRow : Type 0 where
  pub shop_id : String
  pub webhook_duplicate : Bool
  pub webhook_delay_seconds : ℕ
  pub webhook_out_of_order : Bool
  pub webhook_force_failure : Bool

pub data DeliveryStatus : Type 0 where
  pending delivered failed cancelled : DeliveryStatus

abbrev pub is_pending : DeliveryStatus → Bool
is_pending pending = true
is_pending _ = false

abbrev pub is_cancelled : DeliveryStatus → Bool
is_cancelled cancelled = true
is_cancelled _ = false

pub record DeliveryRow : Type 0 where
  pub id : String
  pub webhook_id : String
  pub event_id : String
  pub status : DeliveryStatus
  pub attempt_count : ℕ
  pub next_attempt_at : Option ℕ
  pub leased_until : Option ℕ
  pub delivered_at : Option ℕ
  pub created_at : ℕ

pub record AttemptRow : Type 0 where
  pub delivery_id : String
  pub attempt : ℕ
  pub response_status : ℕ
  pub response_body : List ℕ
  pub success : Bool
  pub failure_code : String
  pub http_attempted : Bool

-- The tables. Credentials stand in the order of their creation.
pub record WebhookDb : Type 0 where
  pub shops : List ShopRow
  pub events : List EventRow
  pub outbox : List OutboxRow
  pub webhooks : List WebhookRow
  pub credentials : List CredentialRow
  pub scenarios : List ScenarioRow
  pub deliveries : List DeliveryRow
  pub attempts : List AttemptRow
  pub drawn : ℕ
