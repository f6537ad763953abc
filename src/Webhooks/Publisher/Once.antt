-- ===== src/Webhooks/Publisher/Once.antt =====
-- An outbox row is fanned out once, however many workers hold it as a candidate.
use enterprise_integration_s.Common.{
  ℕ, zero, suc, ◌+◌, ◌≤◌, ◌≡◌, ◌≢◌, ◌∙◌, refl, ap, String, Bool, true, false, ◌&&◌, some, List, [],
  ◌∷◌, str_eq, eq_iff, arith, inl, inr, Bool-cases, if◌then◌else◌,
}
use enterprise_integration_s.Common.Table.{
  affected, select_where, query_row, total, update_where, All,
}
use enterprise_integration_s.Store.{OutboxRow, Env}
use enterprise_integration_s.Webhooks.State.{WebhookRow, WebhookDb}
use enterprise_integration_s.Webhooks.Publisher.{
  Candidate, outbox_is, listens, scenario_of, copies_of, delay_of, insert_delivery, insert_copies,
  fan_out, is_fresh, publish_candidate,
}

-- The deliveries of an event to a webhook.
abbrev pub deliveries_of : String → String → WebhookDb → ℕ
deliveries_of w e db = affected (λ d. str_eq d.webhook_id w && str_eq d.event_id e) db.deliveries

-- The tables that a fan-out only reads.
pub record SameRest (db db' : WebhookDb) : Type 0 where
  pub outbox : db'.outbox ≡ db.outbox
  pub webhooks : db'.webhooks ≡ db.webhooks
  pub scenarios : db'.scenarios ≡ db.scenarios

insert_copies-rest :
    (env : Env) (n : ℕ) (hook event : String) (delay : ℕ) (db : WebhookDb)
    → SameRest db (insert_copies env n hook event delay db)
unfolding insert_copies
insert_copies-rest env zero hook event delay db = record {
  outbox = refl;
  webhooks = refl;
  scenarios = refl;
}
insert_copies-rest env (suc n) hook event delay db =
    let rest = insert_copies-rest env n hook event delay _ in
    record { outbox = rest.outbox; webhooks = rest.webhooks; scenarios = rest.scenarios }

pub fan_out-rest :
    (env : Env) (copies : ℕ) (hooks : List WebhookRow) (event : String) (delay : ℕ) (db : WebhookDb)
    → SameRest db (fan_out env copies hooks event delay db)
unfolding fan_out
fan_out-rest env copies [] event delay db = record {
  outbox = refl;
  webhooks = refl;
  scenarios = refl;
}
fan_out-rest env copies (w ∷ hooks) event delay db =
    let first = insert_copies-rest env copies w.id event delay db in
    let rest =
      fan_out-rest env copies hooks event delay (insert_copies env copies w.id event delay db) in
    record {
      outbox = rest.outbox ∙ first.outbox;
      webhooks = rest.webhooks ∙ first.webhooks;
      scenarios = rest.scenarios ∙ first.scenarios;
    }

insert_copies-deliveries_of :
    (env : Env) (n : ℕ) (hook event : String) (delay : ℕ) (db : WebhookDb) (w e : String)
    → deliveries_of w e (insert_copies env n hook event delay db)
      ≡ (if str_eq hook w && str_eq event e then n else 0) + deliveries_of w e db
unfolding insert_copies
insert_copies-deliveries_of env zero hook event delay db w e = ground arith
insert_copies-deliveries_of env (suc n) hook event delay db w e = ground (
  arith,
  insert_copies-deliveries_of env n hook event delay (insert_delivery env hook event delay db) w e,
)

pub fan_out-deliveries_of :
    (env : Env) (copies : ℕ) (hooks : List WebhookRow) (event : String) (delay : ℕ) (db : WebhookDb)
    (w e : String)
    → deliveries_of w e (fan_out env copies hooks event delay db)
      ≡ (if str_eq event e then total (λ r. if str_eq r.id w then copies else 0) hooks else 0)
        + deliveries_of w e db
unfolding fan_out
fan_out-deliveries_of env copies [] event delay db w e = ground arith
fan_out-deliveries_of env copies (h ∷ hooks) event delay db w e = ground (
  arith,
  fan_out-deliveries_of env copies hooks event delay (insert_copies env copies h.id event delay db)
      w e,
  insert_copies-deliveries_of env copies h.id event delay db w e,
)

-- The copies that a webhook is due of a candidate's event.
abbrev pub due : WebhookDb → Candidate → String → ℕ
due db c w =
    total (λ r. if str_eq r.id w then copies_of (scenario_of c.shop_id db) else 0)
      (select_where (listens c.shop_id c.event_type) db.webhooks)

-- The outbox row of a candidate is there and unpublished.
abbrev pub IsFresh : WebhookDb → Candidate → Type 0
IsFresh db c = is_fresh (query_row (outbox_is c.outbox_id) db.outbox) ≡ true

mark_published-stale :
    (id : String) (now : ℕ) (rows : List OutboxRow)
    → is_fresh (
        query_row
          (outbox_is id)
          (update_where (outbox_is id) (λ o. record o { published_at = some now }) rows))
      ≡ false
mark_published-stale id now [] = refl
mark_published-stale id now (o ∷ rows) = ground (arith, mark_published-stale id now rows)

mark_published-other :
    (id other : String) (now : ℕ) (rows : List OutboxRow)
    → other ≢ id
    → query_row
        (outbox_is id)
        (update_where (outbox_is other) (λ o. record o { published_at = some now }) rows)
      ≡ query_row (outbox_is id) rows
mark_published-other id other now [] n = refl
mark_published-other id other now (o ∷ rows) n =
    ground (arith, mark_published-other id other now rows n, eq_iff o.id id, eq_iff o.id other)

pub publish_candidate-fresh :
    (env : Env) (c : Candidate) (db : WebhookDb) (w : String)
    → IsFresh db c
    → (deliveries_of w c.event_id (publish_candidate env c db)
        ≡ due db c w + deliveries_of w c.event_id db)
      × (is_fresh (query_row (outbox_is c.outbox_id) (publish_candidate env c db).outbox) ≡ false)
unfolding publish_candidate
publish_candidate-fresh env c db w fresh =
    let scenario = scenario_of c.shop_id db in
    let hooks = select_where (listens c.shop_id c.event_type) db.webhooks in
    let delay = delay_of c.event_type scenario in
    let counted =
      fan_out-deliveries_of env (copies_of scenario) hooks c.event_id delay db w c.event_id in
    let rest = fan_out-rest env (copies_of scenario) hooks c.event_id delay db in
    rw fresh (
      ground (arith, counted, eq_iff c.event_id c.event_id),
      mark_published-stale c.outbox_id env.now
          (fan_out env (copies_of scenario) hooks c.event_id delay db).outbox,
    )

publish_candidate-stale :
    (env : Env) (c : Candidate) (db : WebhookDb)
    → is_fresh (query_row (outbox_is c.outbox_id) db.outbox) ≡ false
    → publish_candidate env c db ≡ db
unfolding publish_candidate
publish_candidate-stale env c db stale = rw stale refl

-- What the transaction of another event leaves alone.
publish_candidate-other :
    (env : Env) (c d : Candidate) (db : WebhookDb) (w : String)
    → d.outbox_id ≢ c.outbox_id
    → d.event_id ≢ c.event_id
    → (deliveries_of w c.event_id (publish_candidate env d db) ≡ deliveries_of w c.event_id db)
      × (query_row (outbox_is c.outbox_id) (publish_candidate env d db).outbox
          ≡ query_row (outbox_is c.outbox_id) db.outbox)
      × (due (publish_candidate env d db) c w ≡ due db c w)
unfolding publish_candidate
publish_candidate-other env c d db w row event =
    let scenario = scenario_of d.shop_id db in
    let hooks = select_where (listens d.shop_id d.event_type) db.webhooks in
    let delay = delay_of d.event_type scenario in
    let counted =
      fan_out-deliveries_of env (copies_of scenario) hooks d.event_id delay db w c.event_id in
    let rest = fan_out-rest env (copies_of scenario) hooks d.event_id delay db in
    elim (Bool-cases (is_fresh (query_row (outbox_is d.outbox_id) db.outbox))) [
      | inr stale ↦ rw stale (refl, refl, refl)
      | inl fresh ↦ rw fresh (
        ground (arith, counted, eq_iff d.event_id c.event_id),
        mark_published-other c.outbox_id d.outbox_id env.now _ row
            ∙ ap (query_row (outbox_is c.outbox_id)) rest.outbox,
        rw (rest.webhooks, rest.scenarios) refl,
      )
    ]

-- The transactions of any number of workers, each at its own instant, in the order that the row locks
-- give them.
abbrev pub publish_all : List (Env × Candidate) → WebhookDb → WebhookDb
publish_all [] db = db
publish_all ((env, d) ∷ runs) db = publish_all runs (publish_candidate env d db)

-- The candidates are joins of outbox rows with their events, and the event of an outbox row is UNIQUE.
abbrev pub Coherent : Candidate → Env × Candidate → Type 0
Coherent c run =
    (run.1.outbox_id ≡ c.outbox_id → run.1 ≡ c)
    × (run.1.outbox_id ≢ c.outbox_id → run.1.event_id ≢ c.event_id)

abbrev pub is_run_of : Candidate → Env × Candidate → Bool
is_run_of c run = str_eq run.1.outbox_id c.outbox_id

publish_all-stale :
    (c : Candidate) (runs : List (Env × Candidate)) (db : WebhookDb) (w : String)
    → All (Coherent c) runs
    → is_fresh (query_row (outbox_is c.outbox_id) db.outbox) ≡ false
    → deliveries_of w c.event_id (publish_all runs db) ≡ deliveries_of w c.event_id db
publish_all-stale c [] db w a stale = refl
publish_all-stale c ((env, d) ∷ runs) db w ((same, differ), a) stale =
    elim (Bool-cases (str_eq d.outbox_id c.outbox_id)) [
      | inl e ↦
          let is_c : d ≡ c = same (ground (arith, eq_iff d.outbox_id c.outbox_id)) in
          let skipped =
            publish_candidate-stale env d db
              (rw (ap (λ (x : Candidate). x.outbox_id) is_c) stale) in
          ap (λ x. deliveries_of w c.event_id (publish_all runs x)) skipped
          ∙ publish_all-stale c runs db w a stale
      | inr e ↦
          let apart : d.outbox_id ≢ c.outbox_id = ground (arith, eq_iff d.outbox_id c.outbox_id) in
          let (count, row, _) = publish_candidate-other env c d db w apart (differ apart) in
          publish_all-stale c runs (publish_candidate env d db) w a (rw row stale) ∙ count
    ]

-- An unpublished event that some worker holds as a candidate reaches every listening webhook of its
-- shop in exactly the copies that the shop's scenario asks for, and no other webhook, whatever the
-- workers do and however often the row stands in their lists.
pub publish_all-once :
    (c : Candidate) (runs : List (Env × Candidate)) (db : WebhookDb) (w : String)
    → All (Coherent c) runs
    → IsFresh db c
    → 1 ≤ affected (is_run_of c) runs
    → deliveries_of w c.event_id (publish_all runs db) ≡ due db c w + deliveries_of w c.event_id db
publish_all-once c [] db w a fresh listed = absurd (omega arith)
publish_all-once c ((env, d) ∷ runs) db w ((same, differ), a) fresh listed =
    elim (Bool-cases (str_eq d.outbox_id c.outbox_id)) [
      | inl e ↦
          let is_c : d ≡ c = same (ground (arith, eq_iff d.outbox_id c.outbox_id)) in
          let (count, stale) = publish_candidate-fresh env c db w fresh in
          ap (λ x. deliveries_of w c.event_id (publish_all runs (publish_candidate env x db))) is_c
          ∙ publish_all-stale c runs (publish_candidate env c db) w a stale
          ∙ count
      | inr e ↦
          let apart : d.outbox_id ≢ c.outbox_id = ground (arith, eq_iff d.outbox_id c.outbox_id) in
          let (count, row, owed) = publish_candidate-other env c d db w apart (differ apart) in
          publish_all-once c runs (publish_candidate env d db) w a (rw row fresh) (ground arith)
          ∙ (rw (owed, count) refl)
    ]
