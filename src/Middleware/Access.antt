-- ===== src/Middleware/Access.antt =====
-- The checks that a provider's signed request passes before its handler: integrationAuth of
-- internal/server/server.go, shopeeIntegrationAuth and tokopediaIntegrationAuth of
-- internal/server/provider_middleware.go, and Sign of internal/tokopedia/contract.go. Rate-limit headers
-- are left out.
pub mod Safety
use enterprise_integration_s.Common.{
  ℕ, ◌+◌, ◌-◌, ◌*◌, String, concat, Bool, true, false, ◌&&◌, ◌||◌, not, Option, none, some, List,
  [], ◌∷◌, Result, ok, err, ◌>>=◌, str_eq, if◌then◌else◌, ltb,
}
use enterprise_integration_s.Common.Int.{ℤ, pos, negsuc}
use enterprise_integration_s.Common.Table.{query_row, select_where}
use enterprise_integration_s.Common.Sorting.{sort_by, text_before}
use enterprise_integration_s.Orders.Provider.{
  Strings, shopee_like, tokopedia_like, normalise_provider,
}
use enterprise_integration_s.Store.{ShopRow}

-- A row of credentials; its status is ACTIVE or REVOKED.
pub record Credential : Type 0 where
  pub id : String
  pub shop_id : String
  pub client_id : String
  pub secret_ciphertext : String
  pub access_token_ciphertext : Option String
  pub active : Bool

-- `integrationClient`
pub record Client : Type 0 where
  pub credential_id : String
  pub shop_id : String
  pub client_id : String

-- What readRequestBody returns.
pub data Body : Type 0 where
  too_large unreadable : Body
  read : String → Body

-- What the checks take from outside the program: strconv, hex, HMAC-SHA256, AES-GCM and the clock.
pub record Crypto : Type 0 where
  pub now : ℕ
  pub parse_int : String → Option ℤ
  pub hex_decode : String → Option String
  pub hex_encode : String → String
  pub hmac : String → String → String
  pub decrypt : String → Option String

-- The database and Redis at a request.
pub record Site : Type 0 where
  pub maintenance : Bool
  pub credentials : List Credential
  pub shops : List ShopRow
  pub lookup_fails : Bool
  pub scenario_fails : String → Bool
  pub force_rate_limit : String → Bool
  pub allow_rate : String → Bool

-- The parts of a request that the checks read. For the Tokopedia-like contract the client identifier,
-- the time stamp and the signature are query parameters.
pub record SignedRequest : Type 0 where
  pub method : String
  pub path : String
  pub query : List (String × List String)
  pub client_id : String
  pub stamp : String
  pub signature : String
  pub access_token : String
  pub body : Body

-- A refusal, with its status or code.
abbrev pub require : Bool → ℕ → Result ℕ (Unit {0})
require true code = ok tt
require false code = err code

abbrev pub or_refuse : {A : Type 0} → Option A → ℕ → Result ℕ A
or_refuse none code = err code
or_refuse (some a) code = ok a

-- time.Since(time.Unix(unix, 0)).Abs() <= timestampWindow, five minutes
unfoldable pub in_window : ℕ → Option ℤ → Bool
in_window now none = false
in_window now (some (pos unix)) =
    let t = unix * 1000000 in not (ltb (300 * 1000000) ((now - t) + (t - now)))
in_window now (some (negsuc n)) = not (ltb (300 * 1000000) (now + (n + 1) * 1000000))

abbrev pub body_of : Body → Result ℕ String
body_of too_large = err 413
body_of unreadable = err 400
body_of (read text) = ok text

abbrev pub client_is : String → Credential → Bool
client_is id c = str_eq c.client_id id

abbrev pub client_of : Credential → Client
client_of c = record { credential_id = c.id; shop_id = c.shop_id; client_id = c.client_id }

-- The signature decodes to the expected digest.
abbrev pub matches : Option String → String → Bool
matches none expected = false
matches (some provided) expected = str_eq expected provided

abbrev pub profile_is : (String → String) → String → Option ShopRow → Bool
profile_is normalise provider none = false
profile_is normalise provider (some s) = str_eq (normalise s.provider_profile) provider

-- The alphabetical parameters of a query, without two of them.
unfoldable pub signing_values : String → List String → String
signing_values key [] = ""
signing_values key (v ∷ vs) = concat key (concat v (signing_values key vs))

unfoldable pub signing_parameters : List (String × List String) → String
unfolding signing_values
signing_parameters [] = ""
signing_parameters ((key, values) ∷ rest) =
    concat (signing_values key (sort_by text_before values)) (signing_parameters rest)

-- The message of `Sign`.
unfoldable pub signing_base : String → String → List (String × List String) → String → String
unfolding signing_parameters
signing_base secret path query body =
    let signed =
      select_where (λ p. not (str_eq p.0 "sign") && not (str_eq p.0 "access_token")) query in
    let middle = signing_parameters (sort_by (λ a b. text_before a.0 b.0) signed) in
    concat secret (concat (concat path (concat middle body)) secret)

module _ (str : Strings) (crypto : Crypto) (site : Site) where
  -- `Sign`
  abbrev pub sign : String → String → List (String × List String) → String → String
  sign secret path query body =
      crypto.hex_encode (crypto.hmac secret (signing_base secret path query body))

  abbrev pub decoded : Option String → String
  decoded none = ""
  decoded (some text) = text

  -- The headers and the time stamp.
  abbrev pub fresh : SignedRequest → ℕ → ℕ → Result ℕ (Unit {0})
  fresh r missing expired =
      require (not (str_eq r.client_id "" || str_eq r.stamp "" || str_eq r.signature "")) missing
      >>= λ _. require (in_window crypto.now (crypto.parse_int r.stamp)) expired

  -- The scenario and the quota of a credential.
  abbrev pub within_quota : String → Client → ℕ → Result ℕ (Unit {0})
  within_quota prefix client failed =
      require (not (site.scenario_fails client.shop_id)) failed >>= λ _.
      require (not (site.force_rate_limit client.shop_id)) 429 >>= λ _.
      require (site.allow_rate (concat prefix client.credential_id)) 429

  -- What each contract signs, under the credential's secret.
  abbrev pub integration_digest : SignedRequest → String → String → String
  integration_digest r secret body =
      crypto.hmac secret (concat r.method (concat r.path (concat r.stamp body)))

  abbrev pub shopee_digest : SignedRequest → String → String → String
  shopee_digest r secret body =
      crypto.hmac secret (concat r.client_id (concat r.path (concat r.stamp body)))

  abbrev pub tokopedia_digest : SignedRequest → String → String → String
  tokopedia_digest r secret body = decoded (crypto.hex_decode (sign secret r.path r.query body))

  -- The last checks of all three: the quota, the secret, the body and the signature.
  abbrev pub signed_client :
      String → ℕ → (String → String → String) → SignedRequest → Credential → Result ℕ Client
  signed_client prefix code digest r credential = do
    let client = client_of credential
    _ ← within_quota prefix client 500
    secret ← or_refuse (crypto.decrypt credential.secret_ciphertext) 500
    body ← body_of r.body
    _ ← require (matches (crypto.hex_decode r.signature) (digest secret body)) code
    ok client

  -- `integrationAuth`
  unfoldable pub integration_auth : SignedRequest → Result ℕ Client
  integration_auth r = do
    _ ← require (not site.maintenance) 503
    _ ← fresh r 401 401
    _ ← require (not site.lookup_fails) 500
    credential ← or_refuse (query_row (client_is r.client_id) site.credentials) 401
    _ ← require credential.active 403
    signed_client "" 401 (integration_digest r) r credential

  -- `shopeeIntegrationAuth`
  unfoldable pub shopee_integration_auth : SignedRequest → Result ℕ Client
  shopee_integration_auth r = do
    _ ← require (not site.maintenance) 503
    _ ← fresh r 401 401
    _ ← require (not site.lookup_fails) 500
    credential ← or_refuse (query_row (client_is r.client_id) site.credentials) 401
    _ ←
        require
          (profile_is (normalise_provider str) shopee_like
            (query_row (λ s. str_eq s.id credential.shop_id) site.shops))
          403
    _ ← require credential.active 403
    signed_client "shopee:" 401 (shopee_digest r) r credential

  -- `tokopediaIntegrationAuth`; a refusal is the code that tokopediaError takes.
  unfoldable pub tokopedia_integration_auth : SignedRequest → Result ℕ Client
  tokopedia_integration_auth r = do
    _ ← require (not site.maintenance) 500
    _ ← fresh r 36000001 36000002
    _ ← require (not site.lookup_fails) 36000001
    credential ← or_refuse (query_row (client_is r.client_id) site.credentials) 36000001
    _ ←
        require
          (profile_is (normalise_provider str) tokopedia_like
            (query_row (λ s. str_eq s.id credential.shop_id) site.shops))
          36000001
    _ ← require credential.active 36000001
    let cipher = decoded credential.access_token_ciphertext
    _ ← require (not (str_eq cipher "")) 36000001
    token ← or_refuse (crypto.decrypt cipher) 36000001
    _ ← require (str_eq token r.access_token) 36000001
    signed_client "tokopedia:" 36000001 (tokopedia_digest r) r credential
