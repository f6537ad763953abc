-- ===== src/Events.antt =====
-- internal/events/outbox.go: a durable event and its outbox row, in the caller's transaction. The
-- identifiers that platform.NewID draws are taken to be new, so the INSERTs meet no duplicate key.
use enterprise_integration_s.Common.{suc, String, none, List, ◌∷◌}
use enterprise_integration_s.Orders.State.{Field}
use enterprise_integration_s.Store.{Db, Env}

-- `Record`
unfoldable pub record_event : Env → String → String → String → List Field → Db → Db
record_event env shop event_type aggregate payload db =
    let event_id = env.new_id "evt" db.drawn in
    record db {
      events =
          record {
            id = event_id;
            shop_id = shop;
            event_type = event_type;
            aggregate_id = aggregate;
            payload = payload;
          }
          ∷ db.events;
      outbox =
          record {
            id = env.new_id "out" (suc db.drawn);
            event_id = event_id;
            published_at = none;
            created_at = env.now;
          }
          ∷ db.outbox;
      drawn = suc (suc db.drawn);
    }
