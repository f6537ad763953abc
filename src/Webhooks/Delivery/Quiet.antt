-- ===== src/Webhooks/Delivery/Quiet.antt =====
-- Removed webhooks and each statement on webhook deliveries.
use enterprise_integration_s.Webhooks.Delivery.Steps.{
  Step, publishes, replays, duplicates, leases, unleases, inserts, counts, settles, retries,
  retires,
}
use enterprise_integration_s.Common.{
  ℕ, zero, suc, max, Option-cases, ◌+◌, ◌≤◌, ◌≡◌, ◌∙◌, sym, ap, refl, String, Bool, true, false,
  ◌&&◌, not, Option, none, some, List, [], ◌∷◌, str_eq, eq_iff, arith, inl, inr, Bool-cases,
  if◌then◌else◌, is_some, ◌==◌,
}
use enterprise_integration_s.Common.Table.{
  affected, select_where, query_row, update_where, affected-update_where_none,
  affected-update_where_zero,
}
use enterprise_integration_s.Store.{EventRow, Env}
use enterprise_integration_s.Webhooks.Replay.{
  of_event, replay_found, manual_found, replay_event, manual_deliveries,
}
use enterprise_integration_s.Webhooks.State.{
  WebhookRow, DeliveryRow, is_pending, is_cancelled, WebhookDb,
}
use enterprise_integration_s.Webhooks.Publisher.{
  Candidate, listens, scenario_of, copies_of, delay_of, insert_delivery, insert_copies, fan_out,
  publish_candidate, is_fresh, outbox_is,
}
use enterprise_integration_s.Webhooks.Publisher.Once.{fan_out-rest}
use enterprise_integration_s.Webhooks.Delivery.{
  delivery_is, retry_found, is_due, lease_row, lease_delivery, unlease_row, count_cancelled,
  settled_row, settle, webhook_is, is_registered, retried_row, retry_delivery, retirable,
  cancelled_row, retire_webhook, removed_row, removal,
}
use enterprise_integration_s.Webhooks.Delivery.Attempt.{CallResult, record_attempt}

abbrev pub pending_of : String → DeliveryRow → Bool
pending_of w d = str_eq d.webhook_id w && is_pending d.status

abbrev pub registered_as : String → WebhookRow → Bool
registered_as w r = webhook_is w r && not (is_some r.deleted_at)

-- The webhook is removed, and none of its deliveries waits to be sent.
pub record IsQuiet (w : String) (db : WebhookDb) : Type 0 where
  pub removed : affected (registered_as w) db.webhooks ≡ 0
  pub idle : affected (pending_of w) db.deliveries ≡ 0

insert_copies-pending_of :
    (env : Env) (n : ℕ) (hook event : String) (delay : ℕ) (db : WebhookDb) (w : String)
    → affected (pending_of w) (insert_copies env n hook event delay db).deliveries
      ≡ (if str_eq hook w then n else 0) + affected (pending_of w) db.deliveries
unfolding insert_copies
insert_copies-pending_of env zero hook event delay db w = ground arith
insert_copies-pending_of env (suc n) hook event delay db w = ground (
  arith,
  insert_copies-pending_of env n hook event delay (insert_delivery env hook event delay db) w,
)

fan_out-idle :
    (env : Env) (copies : ℕ) (hooks : List WebhookRow) (event : String) (delay : ℕ) (db : WebhookDb)
    (w : String)
    → affected (webhook_is w) hooks ≡ 0
    → affected (pending_of w) (fan_out env copies hooks event delay db).deliveries
      ≡ affected (pending_of w) db.deliveries
unfolding fan_out
fan_out-idle env copies [] event delay db w e = refl
fan_out-idle env copies (h ∷ hooks) event delay db w e = ground (
  arith,
  fan_out-idle env copies hooks event delay (insert_copies env copies h.id event delay db) w,
  insert_copies-pending_of env copies h.id event delay db w,
)

listens-removed :
    (shop event_type w : String) (rows : List WebhookRow)
    → affected (registered_as w) rows ≡ 0
    → affected (webhook_is w) (select_where (listens shop event_type) rows) ≡ 0
listens-removed shop event_type w [] e = refl
listens-removed shop event_type w (r ∷ rows) e =
    ground (arith, listens-removed shop event_type w rows)

publish_candidate-IsQuiet :
    (w : String) (env : Env) (c : Candidate) (db : WebhookDb)
    → IsQuiet w db
    → IsQuiet w (publish_candidate env c db)
unfolding publish_candidate
publish_candidate-IsQuiet w env c db q =
    let scenario = scenario_of c.shop_id db in
    let hooks = select_where (listens c.shop_id c.event_type) db.webhooks in
    let delay = delay_of c.event_type scenario in
    let rest = fan_out-rest env (copies_of scenario) hooks c.event_id delay db in
    let unheard = listens-removed c.shop_id c.event_type w db.webhooks q.removed in
    let same = fan_out-idle env (copies_of scenario) hooks c.event_id delay db w unheard in
    elim (Bool-cases (is_fresh (query_row (outbox_is c.outbox_id) db.outbox))) [
      | inr stale ↦ rw stale q
      | inl fresh ↦ rw fresh (record {
        removed = ap (affected (registered_as w)) rest.webhooks ∙ q.removed;
        idle = same ∙ q.idle;
      })
    ]

retried-idle :
    (w id : String) (now : ℕ) (rows : List DeliveryRow) (d : DeliveryRow)
    → affected (delivery_is id) rows ≤ 1
    → query_row (delivery_is id) rows ≡ some d
    → str_eq d.webhook_id w ≡ false
    → affected (pending_of w) rows ≡ 0
    → affected (pending_of w) (update_where (delivery_is id) (retried_row now) rows) ≡ 0
retried-idle w id now [] d one found other idle = refl
retried-idle w id now (r ∷ rows) d one found other idle = elim (Bool-cases (delivery_is id r)) [
  | inl e ↦
      let none_left : affected (delivery_is id) rows ≡ 0 = ground arith in
      let is_d : r ≡ d = ground arith in
      ground (
        arith,
        affected-update_where_none (pending_of w) (delivery_is id) (retried_row now) rows none_left,
      )
  | inr e ↦ ground (arith, retried-idle w id now rows d)
]

retry_found-IsQuiet :
    (w id : String) (now : ℕ) (db db' : WebhookDb) (o : Option DeliveryRow)
    → affected (delivery_is id) db.deliveries ≤ 1
    → query_row (delivery_is id) db.deliveries ≡ o
    → retry_found now id db o ≡ some db'
    → IsQuiet w db
    → IsQuiet w db'
unfolding retry_found
retry_found-IsQuiet w id now db db' none one found e q = absurd cc
retry_found-IsQuiet w id now db db' (some d) one found e q =
    elim (Bool-cases (is_registered d.webhook_id db.webhooks)) [
      | inr gone ↦ absurd (ground arith)
      | inl there ↦ elim (Bool-cases (str_eq d.webhook_id w)) [
        | inl same ↦
            let is_w : d.webhook_id ≡ w = ground (arith, eq_iff d.webhook_id w) in
            let there_w : is_registered w db.webhooks ≡ true = rw (sym is_w) there in
            let removed = q.removed in absurd (ground arith)
        | inr other ↦
            let written : record db {
              deliveries = update_where (delivery_is id) (retried_row now) db.deliveries;
            }
                ≡ db' =
              ground arith in
            rw (sym written) (record {
              removed = q.removed;
              idle = retried-idle w id now db.deliveries d one found other q.idle;
            })
      ]
    ]

retire_webhook-IsQuiet :
    (w id shop : String) (now : ℕ) (db db' : WebhookDb)
    → retire_webhook now id shop db ≡ some db'
    → IsQuiet w db
    → IsQuiet w db'
unfolding retire_webhook
retire_webhook-IsQuiet w id shop now db db' e q =
    let removed =
      affected-update_where_zero (registered_as w) (retirable id shop) (removed_row now)
        (λ r t p. ground arith) db.webhooks q.removed in
    let idle =
      affected-update_where_zero (pending_of w) (λ d. str_eq d.webhook_id id && is_pending d.status)
        cancelled_row (λ d t p. ground arith) db.deliveries q.idle in
    elim (Bool-cases (affected (retirable id shop) db.webhooks == 0)) [
      | inl free ↦ absurd (ground arith)
      | inr taken ↦
          let written : removal now id shop db ≡ db' = ground arith in
          rw (sym written) (record { removed = removed; idle = idle })
    ]

record_attempt-rest :
    (stores : List ℕ → Bool) (id : String) (attempt : ℕ) (call : CallResult) (db db' : WebhookDb)
    → record_attempt stores id attempt call db ≡ some db'
    → (db'.deliveries ≡ db.deliveries) × (db'.webhooks ≡ db.webhooks)
unfolding record_attempt
record_attempt-rest stores id attempt call db db' e = ground arith

replay_found-IsQuiet :
    (w event : String) (o : Option EventRow) (db : WebhookDb)
    → IsQuiet w db
    → IsQuiet w (replay_found event o db).0
unfolding replay_found
replay_found-IsQuiet w event none db q = q
replay_found-IsQuiet w event (some e) db q =
    elim (Bool-cases (affected (of_event event) db.outbox == 0)) [
      | inl gone ↦ rw gone q
      | inr there ↦ rw there (record { removed = q.removed; idle = q.idle })
    ]

manual_found-IsQuiet :
    (w : String) (env : Env) (copies delay : ℕ) (event : String) (o : Option EventRow)
    (db : WebhookDb)
    → IsQuiet w db
    → IsQuiet w (manual_found env copies delay event o db).0
unfolding manual_found
manual_found-IsQuiet w env copies delay event none db q = q
manual_found-IsQuiet w env copies delay event (some e) db q =
    let hooks = select_where (listens e.shop_id e.event_type) db.webhooks in
    let rest = fan_out-rest env copies hooks event delay db in
    let unheard = listens-removed e.shop_id e.event_type w db.webhooks q.removed in
    record {
      removed = ap (affected (registered_as w)) rest.webhooks ∙ q.removed;
      idle = fan_out-idle env copies hooks event delay db w unheard ∙ q.idle;
    }

-- Every step keeps a removed webhook quiet.
pub Step-IsQuiet : (w : String) {db db' : WebhookDb} → Step db db' → IsQuiet w db → IsQuiet w db'
unfolding lease_delivery record_attempt count_cancelled settle replay_event manual_deliveries
Step-IsQuiet w {db} (publishes env c) q = publish_candidate-IsQuiet w env c db q
Step-IsQuiet w {db} (replays event) q =
    replay_found-IsQuiet w event (query_row (λ (e : EventRow). str_eq e.id event) db.events) db q
Step-IsQuiet w {db} (duplicates env copies delay event) q =
    manual_found-IsQuiet w env copies delay event
      (query_row (λ (e : EventRow). str_eq e.id event) db.events) db q
Step-IsQuiet w {db} (leases now id) q = record {
  removed = q.removed;
  idle =
      affected-update_where_zero (pending_of w) (λ d. delivery_is id d && is_due now d)
        (lease_row now) (λ d t p. p) db.deliveries q.idle;
}
Step-IsQuiet w {db} (unleases id) q = record {
  removed = q.removed;
  idle =
      affected-update_where_zero (pending_of w) (delivery_is id) unlease_row (λ d t p. p)
        db.deliveries q.idle;
}
Step-IsQuiet w {db} {db'} (inserts stores id attempt call e) q =
    let (deliveries, webhooks) = record_attempt-rest stores id attempt call db db' e in
    record {
      removed = ap (affected (registered_as w)) webhooks ∙ q.removed;
      idle = ap (affected (pending_of w)) deliveries ∙ q.idle;
    }
Step-IsQuiet w {db} (counts id attempt) q = record {
  removed = q.removed;
  idle =
      affected-update_where_zero (pending_of w) (λ d. delivery_is id d && is_cancelled d.status)
        (λ d. record d { attempt_count = max d.attempt_count attempt }) (λ d t p. p) db.deliveries
        q.idle;
}
Step-IsQuiet w {db} (settles later id attempt failure) q = record {
  removed = q.removed;
  idle =
      affected-update_where_zero (pending_of w) (λ d. delivery_is id d && is_pending d.status)
        (settled_row later attempt failure) (λ d t p. ground (arith, Option-cases failure))
        db.deliveries q.idle;
}
Step-IsQuiet w {db} {db'} (retries now id one e) q =
    retry_found-IsQuiet w id now db db' (query_row (delivery_is id) db.deliveries) one refl
      (unfold retry_delivery in e) q
Step-IsQuiet w {db} {db'} (retires now id shop e) q =
    retire_webhook-IsQuiet w id shop now db db' e q
