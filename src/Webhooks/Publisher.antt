-- ===== src/Webhooks/Publisher.antt =====
-- publishOutbox of cmd/worker/main.go: every unpublished outbox row fans out, in a transaction of its
-- own, to the webhooks of its shop that subscribe to the event.
pub mod Once
use enterprise_integration_s.Common.{
  ℕ, zero, suc, ◌+◌, ◌*◌, String, Bool, true, false, ◌&&◌, ◌||◌, not, Option, none, some, List, [],
  ◌∷◌, ◌++◌, str_eq, if◌then◌else◌, ltb, is_some,
}
use enterprise_integration_s.Common.Table.{update_where, select_where, query_row}
use enterprise_integration_s.Common.Sorting.{sort_by, take}
use enterprise_integration_s.Store.{EventRow, OutboxRow, Env}
use enterprise_integration_s.Webhooks.State.{
  WebhookRow, ScenarioRow, pending, DeliveryRow, WebhookDb,
}

-- What publishOutbox scans of an unpublished row and its event.
pub record Candidate : Type 0 where
  pub outbox_id : String
  pub event_id : String
  pub shop_id : String
  pub event_type : String

joined : OutboxRow → Option EventRow → List Candidate
joined o none = []
joined o (some e) =
    record { outbox_id = o.id; event_id = e.id; shop_id = e.shop_id; event_type = e.event_type }
    ∷ []

join_events : List OutboxRow → List EventRow → List Candidate
unfolding joined
join_events [] events = []
join_events (o ∷ outbox) events =
    joined o (query_row (λ e. str_eq e.id o.event_id) events) ++ join_events outbox events

-- WHERE o.published_at IS NULL ORDER BY o.created_at LIMIT 50
unfoldable pub unpublished : WebhookDb → List Candidate
unfolding join_events
unpublished db = take 50 (
    join_events
      (sort_by (λ a b. ltb a.created_at b.created_at)
        (select_where (λ o. not (is_some o.published_at)) db.outbox))
      db.events)

abbrev pub outbox_is : String → OutboxRow → Bool
outbox_is id o = str_eq o.id id

abbrev pub contains : String → List String → Bool
contains x [] = false
contains x (y ∷ ys) = str_eq y x || contains x ys

-- shop_id=$ AND enabled=true AND deleted_at IS NULL AND subscribed_events ? $
abbrev pub listens : String → String → WebhookRow → Bool
listens shop event_type w =
    str_eq w.shop_id shop
    && w.enabled
    && not (is_some w.deleted_at)
    && contains event_type w.subscribed_events

-- duplicate, delaySeconds and outOfOrder; without a row they keep Go's zero values.
abbrev pub scenario_of : String → WebhookDb → Option ScenarioRow
scenario_of shop db = query_row (λ s. str_eq s.shop_id shop) db.scenarios

abbrev pub copies_of : Option ScenarioRow → ℕ
copies_of none = 1
copies_of (some s) = if s.webhook_duplicate then 2 else 1

abbrev pub delay_of : String → Option ScenarioRow → ℕ
delay_of event_type none = 0
delay_of event_type (some s) =
    if s.webhook_out_of_order && str_eq event_type "order.paid" && ltb s.webhook_delay_seconds 10
    then 10
    else s.webhook_delay_seconds

abbrev pub new_delivery : Env → ℕ → String → String → ℕ → DeliveryRow
new_delivery env drawn hook event delay_seconds = record {
  id = env.new_id "del" drawn;
  webhook_id = hook;
  event_id = event;
  status = pending;
  attempt_count = 0;
  next_attempt_at = some (env.now + delay_seconds * 1000000);
  leased_until = none;
  delivered_at = none;
  created_at = env.now;
}

-- INSERT INTO webhook_deliveries
abbrev pub insert_delivery : Env → String → String → ℕ → WebhookDb → WebhookDb
insert_delivery env hook event delay db = record db {
  deliveries = new_delivery env db.drawn hook event delay ∷ db.deliveries;
  drawn = suc db.drawn;
}

unfoldable pub insert_copies : Env → ℕ → String → String → ℕ → WebhookDb → WebhookDb
insert_copies env zero hook event delay db = db
insert_copies env (suc n) hook event delay db =
    insert_copies env n hook event delay (insert_delivery env hook event delay db)

-- for _, hook := range webhookIDs
unfoldable pub fan_out : Env → ℕ → List WebhookRow → String → ℕ → WebhookDb → WebhookDb
fan_out env copies [] event delay db = db
fan_out env copies (w ∷ hooks) event delay db =
    fan_out env copies hooks event delay (insert_copies env copies w.id event delay db)

abbrev pub mark_published : Env → String → WebhookDb → WebhookDb
mark_published env id db = record db {
  outbox = update_where (outbox_is id) (λ o. record o { published_at = some env.now }) db.outbox;
}

-- Whether the row is still there and unpublished: SELECT published_at ... FOR UPDATE.
abbrev pub is_fresh : Option OutboxRow → Bool
is_fresh none = false
is_fresh (some o) = not (is_some o.published_at)

-- The transaction of one candidate.
unfoldable pub publish_candidate : Env → Candidate → WebhookDb → WebhookDb
publish_candidate env c db =
    let scenario = scenario_of c.shop_id db in
    let hooks = select_where (listens c.shop_id c.event_type) db.webhooks in
    if is_fresh (query_row (outbox_is c.outbox_id) db.outbox)
    then mark_published env c.outbox_id
        (fan_out env (copies_of scenario) hooks c.event_id (delay_of c.event_type scenario) db)
    else db

unfoldable pub publish_candidates : Env → List Candidate → WebhookDb → WebhookDb
publish_candidates env [] db = db
publish_candidates env (c ∷ cs) db = publish_candidates env cs (publish_candidate env c db)

-- `publishOutbox`
unfoldable pub publish_outbox : Env → WebhookDb → WebhookDb
publish_outbox env db = publish_candidates env (unpublished db) db
