-- ===== src/Tests/WebhookTests.antt =====
-- One webhook of one shop, an unpublished event, and its deliveries.
use enterprise_integration_s.Common.{
  ℕ, zero, suc, ◌*◌, ◌+◌, some, ◌≡◌, ◌+◌, refl, true, false, none, List, [], ◌∷◌, arith, Bool, not,
  ◌&&◌, ltb, ◌==◌,
}
use enterprise_integration_s.Common.Table.{affected}
use enterprise_integration_s.Store.{EventRow, OutboxRow, Env}
use enterprise_integration_s.Webhooks.Contract.{
  supports_event, shopee_event, canonical_shopee_event, shopee_event-canonical_shopee_event,
}
use enterprise_integration_s.Webhooks.State.{WebhookRow, DeliveryRow, pending, WebhookDb}
use enterprise_integration_s.Webhooks.Publisher.{Candidate, publish_candidate}
use enterprise_integration_s.Webhooks.Publisher.Once.{
  deliveries_of, due, publish_all, publish_all-once,
}
use enterprise_integration_s.Webhooks.Delivery.{is_registered, retire_webhook, removal}
use enterprise_integration_s.Webhooks.Delivery.Steps.{here, next, publishes, duplicates}
use enterprise_integration_s.Webhooks.Replay.{manual_deliveries}
use enterprise_integration_s.Webhooks.Delivery.Quiet.{pending_of}
use enterprise_integration_s.Webhooks.Delivery.Retirement.{retire_webhook-forever}
use enterprise_integration_s.Webhooks.Delivery.Attempt.{
  HttpResult, network_error, response, Loaded, call_result, prepares,
}
use enterprise_integration_s.Webhooks.Delivery.Retries.{IsReady, body_of}
use enterprise_integration_s.Webhooks.Delivery.Retries.Ends.{runs, Ends, unstored-Ends}
use enterprise_integration_s.Orders.Provider.{normalise_provider}
use enterprise_integration_s.Common.Sorting.{take}
use enterprise_integration_s.Tests.Fixtures.{env, strings}

abbrev hook : WebhookRow
hook = record {
  id = "whk1";
  shop_id = "shop1";
  secret_ciphertext = "c";
  enabled = true;
  subscribed_events = "order.paid" ∷ [];
  deleted_at = none;
}

abbrev paid_event : EventRow
paid_event = record {
  id = "evt1";
  shop_id = "shop1";
  event_type = "order.paid";
  aggregate_id = "ord1";
  payload = [];
}

abbrev out_row : OutboxRow
out_row = record { id = "out1"; event_id = "evt1"; published_at = none; created_at = 90 }

abbrev tables : WebhookDb
tables = record {
  shops = record { id = "shop1"; provider_profile = "SHOPEE_LIKE" } ∷ [];
  events = paid_event ∷ [];
  outbox = out_row ∷ [];
  webhooks = hook ∷ [];
  credentials = [];
  scenarios = [];
  deliveries = [];
  attempts = [];
  drawn = 0;
}

abbrev candidate : Candidate
candidate = record {
  outbox_id = "out1";
  event_id = "evt1";
  shop_id = "shop1";
  event_type = "order.paid";
}

abbrev two_workers : List (Env × Candidate)
two_workers = (env, candidate) ∷ (env, candidate) ∷ []

publish_all-once_example :
    deliveries_of "whk1" "evt1" (publish_all two_workers tables)
    ≡ due tables candidate "whk1" + deliveries_of "whk1" "evt1" tables
publish_all-once_example =
    publish_all-once candidate two_workers tables "whk1"
      (((λ _. refl), (λ n. absurd (n refl))), (((λ _. refl), (λ n. absurd (n refl))), tt)) refl
      (ground arith)

shopee_event-canonical_shopee_event_example :
    (shopee_event "product.updated" ≡ "item_update") × (supports_event "product.updated" ≡ true)
unfolding canonical_shopee_event
shopee_event-canonical_shopee_event_example =
    shopee_event-canonical_shopee_event "item_update" "product.updated" refl

abbrev retired : WebhookDb
retired = removal 120 "whk1" "shop1" tables

-- The worker publishes the event once more, and an operator duplicates it.
abbrev repeated : WebhookDb
repeated = (manual_deliveries env 2 0 "evt1" (publish_candidate env candidate retired)).0

retire_webhook-forever_example :
    (affected (pending_of "whk1") repeated.deliveries ≡ 0)
    × (is_registered "whk1" repeated.webhooks ≡ false)
unfolding retire_webhook
retire_webhook-forever_example =
    retire_webhook-forever "whk1" "shop1" 120 tables retired repeated (ground arith) refl
      (next (next here (publishes env candidate)) (duplicates env 2 0 "evt1"))

abbrev new_row : DeliveryRow
new_row = record {
  id = "del1";
  webhook_id = "whk1";
  event_id = "evt1";
  status = pending;
  attempt_count = 0;
  next_attempt_at = some 100;
  leased_until = none;
  delivered_at = none;
  created_at = 100;
}

abbrev with_delivery : WebhookDb
with_delivery = record tables { deliveries = new_row ∷ [] }

abbrev loaded : Loaded
loaded = record {
  secret = "c";
  attempts = 0;
  force_failure = false;
  provider_profile = "SHOPEE_LIKE";
  app_key = "";
  app_secret = "";
}

abbrev answers : ℕ → HttpResult
answers zero = network_error true
answers (suc k) = response 200 (123 ∷ 125 ∷ []) true true

-- Bytes from 1 to 127 are text.
abbrev stores : List ℕ → Bool
stores [] = true
stores (b ∷ body) = not (b == 0) && ltb b 128 && stores body

-- A receiver that answers 200 with a NUL byte.
abbrev refused : ℕ → HttpResult
refused k = response 200 (0 ∷ []) true true

answers-refused : (k : ℕ) → stores (body_of strings (λ _. true) loaded (refused k)) ≡ false
unfolding call_result prepares normalise_provider take
answers-refused k = refl

new_row-IsReady : IsReady "del1" loaded 0 new_row with_delivery
new_row-IsReady = record {
  found = refl;
  one = ground arith;
  waiting = refl;
  counted = refl;
  loads = refl;
  attempted = tt;
}

unstored-Ends_example :
    Ends "del1"
      (pending, 0)
      (runs strings
        (λ _. true)
        stores
        refused
        (λ k. 100 + k * (60 * 1000000))
        "del1"
        0
        20
        with_delivery)
unstored-Ends_example =
    unstored-Ends strings (λ _. true) stores refused (λ k. 100 + k * (60 * 1000000)) "del1" loaded
      (λ k. omega arith) answers-refused 20 0 0 new_row with_delivery new_row-IsReady refl
