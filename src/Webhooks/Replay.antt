-- ===== src/Webhooks/Replay.antt =====
-- The operator's replay, duplicate and delay of an event: replayEvent and createManualEventDeliveries
-- of internal/server/lifecycle_handlers.go, after authorization.
use enterprise_integration_s.Common.{
  ℕ, String, Bool, Option, none, some, str_eq, if◌then◌else◌, ◌==◌,
}
use enterprise_integration_s.Common.Table.{update_where, affected, select_where, query_row}
use enterprise_integration_s.Store.{EventRow, OutboxRow, Env}
use enterprise_integration_s.Webhooks.State.{WebhookDb}
use enterprise_integration_s.Webhooks.Publisher.{listens, fan_out}

abbrev pub of_event : String → OutboxRow → Bool
of_event event o = str_eq o.event_id event

abbrev pub reset_row : OutboxRow → OutboxRow
reset_row o = record o { published_at = none }

-- `replayEvent`: the tables, and its status code.
unfoldable pub replay_found : String → Option EventRow → WebhookDb → WebhookDb × ℕ
replay_found event none db = (db, 404)
replay_found event (some e) db =
    if affected (of_event event) db.outbox == 0
    then (db, 500)
    else (record db { outbox = update_where (of_event event) reset_row db.outbox }, 202)

unfoldable pub replay_event : String → WebhookDb → WebhookDb × ℕ
unfolding replay_found
replay_event event db = replay_found event (query_row (λ e. str_eq e.id event) db.events) db

-- `createManualEventDeliveries`
unfoldable pub manual_found : Env → ℕ → ℕ → String → Option EventRow → WebhookDb → WebhookDb × ℕ
manual_found env copies delay event none db = (db, 404)
manual_found env copies delay event (some e) db = (
  fan_out env copies (select_where (listens e.shop_id e.event_type) db.webhooks) event delay db,
  202,
)

unfoldable pub manual_deliveries : Env → ℕ → ℕ → String → WebhookDb → WebhookDb × ℕ
unfolding manual_found
manual_deliveries env copies delay event db =
    manual_found env copies delay event (query_row (λ e. str_eq e.id event) db.events) db

-- `duplicateEvent`
unfoldable pub duplicate_event : Env → String → WebhookDb → WebhookDb × ℕ
duplicate_event env = manual_deliveries env 2 0
