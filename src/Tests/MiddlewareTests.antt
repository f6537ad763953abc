-- ===== src/Tests/MiddlewareTests.antt =====
-- Requests with an idempotency key, and signed requests.
use enterprise_integration_s.Common.{
  ℕ, suc, ◌≤◌, ◌≡◌, ◌≢◌, ◌↔◌, ◌≢◌, ◌⊎◌, refl, String, true, false, none, some, [], ◌∷◌, List, arith,
  str_eq, if◌then◌else◌,
}
use enterprise_integration_s.Common.Int.{pos}
use enterprise_integration_s.Orders.Provider.{shopee_like, normalise_provider}
use enterprise_integration_s.Idempotency.{
  ClaimRow, completed, acquire, acquire_once, insert_claim, complete,
}
use enterprise_integration_s.Idempotency.Stability.{here, IsUnique}
use enterprise_integration_s.Middleware.{
  Request, replayed, refused, Conditions, idempotent, on_outcome, finish, acquired_rows,
}
use enterprise_integration_s.Middleware.Once.{idempotent-once}
use enterprise_integration_s.Middleware.Errors.{
  tokopedia_status, tokopedia_error_code, tokopedia_status-tokopedia_error_code,
}
use enterprise_integration_s.Middleware.Access.{
  Client, read, Crypto, Site, SignedRequest, in_window, shopee_integration_auth, shopee_digest,
  tokopedia_integration_auth,
}
use enterprise_integration_s.Middleware.Access.Safety.{
  Admitted, shopee_integration_auth-Admitted, provider_auth-disjoint,
}
use enterprise_integration_s.Tests.Fixtures.{strings}

abbrev request : Request
request = record {
  key = "k1";
  credential_id = "cred1";
  operation = "createPackage";
  fingerprint = "aaa";
}

abbrev now : Conditions
now = record {
  now = 100;
  claim_id = "idm1";
  claim_fails = false;
  complete_fails = false;
  release_fails = false;
}

abbrev count_calls : ℕ → ℕ × ℕ × String
count_calls calls = (suc calls, 201, "{}")

abbrev stored : List ClaimRow
stored =
    record {
      id = "idm1";
      credential_id = "cred1";
      operation = "createPackage";
      key = "k1";
      request_hash = "aaa";
      state = completed;
      response_status = some 201;
      response_body = "{}";
      locked_until = none;
    }
    ∷ []

nothing-IsUnique : IsUnique []
nothing-IsUnique c = ground arith

idempotent-once_example :
    idempotent (λ _. 2) 30 count_calls now (record request { fingerprint = "aaa" }) (7, stored) ≡ (
      (7, stored),
      if str_eq "aaa" "aaa" then replayed 201 "{}" else refused 409 "IDEMPOTENCY_KEY_REUSED",
    )
unfolding idempotent on_outcome finish acquired_rows acquire acquire_once insert_claim complete
idempotent-once_example =
    idempotent-once (λ _. 2) 30 count_calls count_calls now now request 0 1 7 [] stored stored 201
      "{}" "aaa" nothing-IsUnique refl refl here refl (λ e. absurd cc)

abbrev missing : ℕ
missing = 404

tokopedia_status-tokopedia_error_code_example :
    (400 ≤ tokopedia_status (tokopedia_error_code missing "NOT_FOUND"))
    × (tokopedia_status (tokopedia_error_code missing "NOT_FOUND") ≤ 599)
    × ((500 ≤ tokopedia_status (tokopedia_error_code missing "NOT_FOUND")) ↔ (500 ≤ missing))
    × ((missing ≡ 401) ⊎ ((missing ≡ 429) ⊎ (500 ≤ missing))
        → tokopedia_status (tokopedia_error_code missing "NOT_FOUND") ≡ missing)
    × (missing ≢ 401
        → missing ≢ 429
        → missing ≤ 499
        → tokopedia_status (tokopedia_error_code missing "NOT_FOUND") ≡ 400)
tokopedia_status-tokopedia_error_code_example =
    tokopedia_status-tokopedia_error_code missing "NOT_FOUND" (omega arith) (omega arith)

abbrev crypto : Crypto
crypto = record {
  now = 100;
  parse_int = λ text. some (pos 0);
  hex_decode = λ text. some text;
  hex_encode = λ text. text;
  hmac = λ secret message. secret;
  decrypt = λ cipher. some cipher;
}

abbrev site : Site
site = record {
  maintenance = false;
  credentials =
      record {
        id = "cred1";
        shop_id = "shop1";
        client_id = "client1";
        secret_ciphertext = "secret1";
        access_token_ciphertext = none;
        active = true;
      }
      ∷ record {
        id = "cred2";
        shop_id = "shop2";
        client_id = "client2";
        secret_ciphertext = "secret2";
        access_token_ciphertext = some "token2";
        active = true;
      }
      ∷ [];
  shops =
      record { id = "shop1"; provider_profile = "SHOPEE_LIKE" }
      ∷ record { id = "shop2"; provider_profile = "TOKOPEDIA_LIKE" }
      ∷ [];
  lookup_fails = false;
  scenario_fails = λ shop. false;
  force_rate_limit = λ shop. false;
  allow_rate = λ key. true;
}

abbrev shopee_request : SignedRequest
shopee_request = record {
  method = "POST";
  path = "/api/shopee/orders";
  query = [];
  client_id = "client1";
  stamp = "0";
  signature = "secret1";
  access_token = "";
  body = read "{}";
}

abbrev tokopedia_request : SignedRequest
tokopedia_request = record {
  method = "POST";
  path = "/api/tokopedia/orders";
  query = ("app_key", "client2" ∷ []) ∷ [];
  client_id = "client2";
  stamp = "0";
  signature = "secret2";
  access_token = "token2";
  body = read "{}";
}

abbrev shopee_client : Client
shopee_client = record { credential_id = "cred1"; shop_id = "shop1"; client_id = "client1" }

abbrev tokopedia_client : Client
tokopedia_client = record { credential_id = "cred2"; shop_id = "shop2"; client_id = "client2" }

shopee_integration_auth-Admitted_example :
    Admitted strings crypto site shopee_like "shopee:"
      (shopee_digest strings crypto site shopee_request)
      shopee_request
      shopee_client
unfolding shopee_integration_auth in_window normalise_provider
shopee_integration_auth-Admitted_example =
    shopee_integration_auth-Admitted strings crypto site shopee_request shopee_client refl

provider_auth-disjoint_example : shopee_client.shop_id ≢ tokopedia_client.shop_id
unfolding shopee_integration_auth tokopedia_integration_auth in_window normalise_provider
provider_auth-disjoint_example =
    provider_auth-disjoint strings crypto site shopee_request tokopedia_request shopee_client
      tokopedia_client refl refl
