-- ===== src/Webhooks/Delivery/Attempt.antt =====
-- One call of handleDelivery (cmd/worker/main.go). What others do to the tables while it runs is a
-- parameter; so are what the receiver answers, which ciphertexts platform.Decrypt can open and which
-- bytes the database stores as text.
use enterprise_integration_s.Common.{
  ℕ, suc, String, Bool, true, false, ◌&&◌, ◌||◌, not, Option, none, some, List, [], ◌∷◌, str_eq,
  if◌then◌else◌, ltb, leb, ◌==◌, is_some,
}
use enterprise_integration_s.Common.Table.{affected, query_row}
use enterprise_integration_s.Common.Sorting.{take}
use enterprise_integration_s.Orders.Provider.{Strings, normalise_provider, tokopedia_like}
use enterprise_integration_s.Store.{ShopRow, EventRow}
use enterprise_integration_s.Webhooks.State.{
  WebhookRow, CredentialRow, ScenarioRow, is_pending, DeliveryRow, WebhookDb,
}
use enterprise_integration_s.Webhooks.Delivery.{delivery_is, webhook_is, count_cancelled, settle}

-- What client.Do and the reading of the response come to; a body is its bytes.
pub data HttpResult : Type 0 where
  request_error : HttpResult
  network_error : (timeout : Bool) → HttpResult
  response : (status : ℕ) (body : List ℕ) (read_ok close_ok : Bool) → HttpResult

-- What the call is recorded as; `failure` is failureCode, and none where callErr is nil. The body is
-- cut at 4096 bytes.
pub record CallResult : Type 0 where
  pub status : ℕ
  pub body : List ℕ
  pub failure : Option String
  pub http_attempted : Bool

abbrev pub response_failure : ℕ → Bool → Bool → Option String
response_failure status read_ok close_ok =
    if ltb status 200 || leb 300 status
    then some "HTTP_STATUS"
    else if not read_ok || not close_ok
    then some "RESPONSE_READ_ERROR"
    else none

abbrev pub http_call : HttpResult → CallResult
http_call request_error = record {
  status = 0;
  body = [];
  failure = some "REQUEST_ERROR";
  http_attempted = false;
}
http_call (network_error timeout) = record {
  status = 0;
  body = [];
  failure = some (if timeout then "TIMEOUT" else "NETWORK_ERROR");
  http_attempted = true;
}
http_call (response status body read_ok close_ok) = record {
  status = status;
  body = take 4096 body;
  failure = response_failure status read_ok close_ok;
  http_attempted = true;
}

-- The call after prepareWebhook, by whether that succeeded and whether the scenario forces a failure.
unfoldable pub call_result : Bool → Bool → HttpResult → CallResult
call_result prepared force_failure answer =
    if not prepared
    then record { status = 0; body = []; failure = some "SIGNING_ERROR"; http_attempted = false }
    else if force_failure
    then record { status = 0; body = []; failure = some "FORCED_FAILURE"; http_attempted = false }
    else http_call answer

-- Whether `prepareWebhook` has a key to sign with.
unfoldable pub prepares : Strings → (String → Bool) → String → String → String → String → Bool
prepares str decrypts profile app_key app_secret secret =
    if str_eq (normalise_provider str profile) tokopedia_like
    then not (str_eq app_key "" || str_eq app_secret "") && decrypts app_secret
    else decrypts secret

-- What the first statement scans.
pub record Loaded : Type 0 where
  pub secret : String
  pub attempts : ℕ
  pub force_failure : Bool
  pub provider_profile : String
  pub app_key : String
  pub app_secret : String

-- d.leased_until>now()
abbrev pub is_held : Option ℕ → ℕ → Bool
is_held none now = false
is_held (some until) now = ltb now until

abbrev pub forced : Option ScenarioRow → Bool
forced none = false
forced (some s) = s.webhook_force_failure

abbrev pub client_id_of : Option CredentialRow → String
client_id_of none = ""
client_id_of (some c) = c.client_id

abbrev pub app_secret_of : Option CredentialRow → String
app_secret_of none = ""
app_secret_of (some c) = c.secret_ciphertext

abbrev pub loaded_from :
    DeliveryRow → WebhookRow → Option EventRow → Option ShopRow → WebhookDb → Option Loaded
loaded_from d w none shop db = none
loaded_from d w (some e) none db = none
loaded_from d w (some e) (some shop) db =
    let credential = query_row (λ c. str_eq c.shop_id w.shop_id && c.active) db.credentials in
    some (record {
      secret = w.secret_ciphertext;
      attempts = d.attempt_count;
      force_failure = forced (query_row (λ s. str_eq s.shop_id w.shop_id) db.scenarios);
      provider_profile = shop.provider_profile;
      app_key = client_id_of credential;
      app_secret = app_secret_of credential;
    })

abbrev pub loaded_webhook : DeliveryRow → Option WebhookRow → WebhookDb → Option Loaded
loaded_webhook d none db = none
loaded_webhook d (some w) db =
    loaded_from d w (query_row (λ e. str_eq e.id d.event_id) db.events)
      (query_row (λ s. str_eq s.id w.shop_id) db.shops) db

abbrev pub loaded_delivery : Option DeliveryRow → WebhookDb → Option Loaded
loaded_delivery none db = none
loaded_delivery (some d) db =
    loaded_webhook d
      (query_row (λ w. webhook_is d.webhook_id w && not (is_some w.deleted_at)) db.webhooks) db

-- The SELECT of `handleDelivery`; `none` is pgx.ErrNoRows.
unfoldable pub load_delivery : ℕ → String → WebhookDb → Option Loaded
load_delivery now id db =
    loaded_delivery
      (query_row (λ d. delivery_is id d && is_pending d.status && is_held d.leased_until now)
        db.deliveries)
      db

abbrev pub code_of : Option String → String
code_of none = ""
code_of (some code) = code

-- INSERT INTO webhook_delivery_attempts; `none` where UNIQUE(delivery_id, attempt) refuses it, or the
-- TEXT column the body. Which bytes `stores` accepts is PostgreSQL's: UTF-8 without NUL.
unfoldable pub record_attempt :
    (List ℕ → Bool) → String → ℕ → CallResult → WebhookDb → Option WebhookDb
record_attempt stores id attempt call db =
    if affected (λ a. str_eq a.delivery_id id && (a.attempt == attempt)) db.attempts == 0
      && stores call.body
    then some (record db {
      attempts =
          record {
            delivery_id = id;
            attempt = attempt;
            response_status = call.status;
            response_body = call.body;
            success = not (is_some call.failure);
            failure_code = code_of call.failure;
            http_attempted = call.http_attempted;
          }
          ∷ db.attempts;
    })
    else none

-- What others do while the call is on its way, after its INSERT and after the first UPDATE.
pub record Others : Type 0 where
  pub during_call : WebhookDb → WebhookDb
  pub after_insert : WebhookDb → WebhookDb
  pub after_count : WebhookDb → WebhookDb

unfoldable pub finish_delivery :
    ℕ → String → ℕ → CallResult → Others → Option WebhookDb → WebhookDb → WebhookDb
finish_delivery later id attempt call others none db = db
finish_delivery later id attempt call others (some inserted) db =
    let here = others.after_insert inserted in
    let counted =
      others.after_count
        (record here { deliveries = count_cancelled id attempt here.deliveries }) in
    record counted { deliveries = settle later id attempt call.failure counted.deliveries }

unfoldable pub handle_loaded :
    Strings
    → (String → Bool)
    → (List ℕ → Bool)
    → HttpResult
    → Others
    → ℕ
    → String
    → Option Loaded
    → WebhookDb
    → WebhookDb
unfolding finish_delivery
handle_loaded str decrypts stores answer others later id none db = db
handle_loaded str decrypts stores answer others later id (some l) db =
    let attempt = suc l.attempts in
    let call =
      call_result (prepares str decrypts l.provider_profile l.app_key l.app_secret l.secret)
        l.force_failure answer in
    let here = others.during_call db in
    finish_delivery later id attempt call others (record_attempt stores id attempt call here) here

-- `handleDelivery` from the instant `now` of its SELECT to the instant `later` of its last UPDATE.
unfoldable pub handle_delivery :
    Strings
    → (String → Bool)
    → (List ℕ → Bool)
    → HttpResult
    → Others
    → ℕ
    → ℕ
    → String
    → WebhookDb
    → WebhookDb
unfolding handle_loaded
handle_delivery str decrypts stores answer others now later id db =
    handle_loaded str decrypts stores answer others later id (load_delivery now id db) db
