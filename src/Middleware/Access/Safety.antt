-- ===== src/Middleware/Access/Safety.antt =====
-- What a request that passes a provider's checks has shown.
use enterprise_integration_s.Common.{
  ℕ, ◌≡◌, ◌≢◌, ◌∙◌, refl, sym, ap, String, concat, Bool, true, false, ◌||◌, not, str_eq, eq_iff,
  Option, none, some, arith, ok, bind-ok,
}
use enterprise_integration_s.Common.Table.{query_row}
use enterprise_integration_s.Orders.Provider.{
  Strings, shopee_like, tokopedia_like, normalise_provider,
}
use enterprise_integration_s.Store.{ShopRow}
use enterprise_integration_s.Middleware.Access.{
  Credential, Client, Body, too_large, unreadable, read, Crypto, Site, SignedRequest, require,
  or_refuse, in_window, body_of, client_is, client_of, matches, profile_is, decoded, fresh,
  within_quota, signed_client, shopee_digest, tokopedia_digest, shopee_integration_auth,
  tokopedia_integration_auth,
}

require-ok : {b : Bool} (code : ℕ) {u : Unit {0}} → require b code ≡ ok u → b ≡ true
require-ok {b = true} code h = refl
require-ok {b = false} code h = absurd cc

or_refuse-ok : {A : Type 0} (o : Option A) (code : ℕ) {a : A} → or_refuse o code ≡ ok a → o ≡ some a
or_refuse-ok none code h = absurd cc
or_refuse-ok (some a) code h = ground arith

body_of-ok : (b : Body) {text : String} → body_of b ≡ ok text → b ≡ read text
body_of-ok too_large h = absurd cc
body_of-ok unreadable h = absurd cc
body_of-ok (read text) h = ground arith

matches-ok : (o : Option String) (expected : String) → matches o expected ≡ true → o ≡ some expected
matches-ok none expected h = absurd cc
matches-ok (some p) expected h = ap some (sym ((eq_iff expected p).0 h))

profile_is-ok :
    (normalise : String → String) (provider : String) (o : Option ShopRow)
    → profile_is normalise provider o ≡ true
    → (s : ShopRow) × (o ≡ some s) × (normalise s.provider_profile ≡ provider)
profile_is-ok normalise provider none h = absurd cc
profile_is-ok normalise provider (some s) h =
    (s, refl, (eq_iff (normalise s.provider_profile) provider).0 h)

module _ (str : Strings) (crypto : Crypto) (site : Site) where
  -- The request is within its quota, and its signature is the expected digest, under the credential's
  -- secret, of the body that the handler reads.
  pub record Signed (prefix : String) (digest : String → String → String) (r : SignedRequest)
      (c : Credential) (client : Client) : Type 0 where
    pub identity : client ≡ client_of c
    pub allowed : site.allow_rate (concat prefix c.id) ≡ true
    pub secret : String
    pub opened : crypto.decrypt c.secret_ciphertext ≡ some secret
    pub text : String
    pub body : r.body ≡ read text
    pub signed : crypto.hex_decode r.signature ≡ some (digest secret text)

  -- The credential of the request is known, active and of a shop with the provider's profile, and the
  -- request is fresh and signed.
  pub record Admitted (provider prefix : String) (digest : String → String → String)
      (r : SignedRequest) (client : Client) : Type 0 where
    pub credential : Credential
    pub known : query_row (client_is r.client_id) site.credentials ≡ some credential
    pub active : credential.active ≡ true
    pub shop : ShopRow
    pub owned : query_row (λ s. str_eq s.id credential.shop_id) site.shops ≡ some shop
    pub profile : normalise_provider str shop.provider_profile ≡ provider
    pub in_time : in_window crypto.now (crypto.parse_int r.stamp) ≡ true
    pub signed : Signed prefix digest r credential client

  fresh-ok :
      (r : SignedRequest) (missing expired : ℕ) {u : Unit {0}}
      → fresh str crypto site r missing expired ≡ ok u
      → in_window crypto.now (crypto.parse_int r.stamp) ≡ true
  fresh-ok r missing expired {u} h =
      let (_, _, h₁) =
        bind-ok
          (require (not (str_eq r.client_id "" || str_eq r.stamp "" || str_eq r.signature ""))
            missing)
          _ {b = u} h in
      require-ok expired {u = u} h₁

  within_quota-ok :
      (prefix : String) (client : Client) (failed : ℕ) {u : Unit {0}}
      → within_quota str crypto site prefix client failed ≡ ok u
      → site.allow_rate (concat prefix client.credential_id) ≡ true
  within_quota-ok prefix client failed {u} h =
      let (_, _, h₁) =
        bind-ok (require (not (site.scenario_fails client.shop_id)) failed) _ {b = u} h in
      let (_, _, h₂) =
        bind-ok (require (not (site.force_rate_limit client.shop_id)) 429) _ {b = u} h₁ in
      require-ok 429 {u = u} h₂

  signed_client-Signed :
      (prefix : String) (code : ℕ) (digest : String → String → String) (r : SignedRequest)
      (c : Credential) (client : Client)
      → signed_client str crypto site prefix code digest r c ≡ ok client
      → Signed prefix digest r c client
  signed_client-Signed prefix code digest r c client h =
      let (_, quota, h₁) =
        bind-ok (within_quota str crypto site prefix (client_of c) 500) _ {b = client} h in
      let (secret, opened, h₂) =
        bind-ok (or_refuse (crypto.decrypt c.secret_ciphertext) 500) _ {b = client} h₁ in
      let (text, body, h₃) = bind-ok (body_of r.body) _ {b = client} h₂ in
      let (_, signed, last) =
        bind-ok (require (matches (crypto.hex_decode r.signature) (digest secret text)) code) _
          {b = client} h₃ in
      record {
        identity = ground arith;
        allowed = within_quota-ok prefix (client_of c) 500 quota;
        secret = secret;
        opened = or_refuse-ok (crypto.decrypt c.secret_ciphertext) 500 {a = secret} opened;
        text = text;
        body = body_of-ok r.body {text = text} body;
        signed =
            matches-ok (crypto.hex_decode r.signature) (digest secret text)
              (require-ok code signed);
      }

  -- Whoever passes the checks of shopeeIntegrationAuth has the known and active credential of a shop with
  -- the SHOPEE_LIKE profile, sent the request within the window of its time stamp and within its quota,
  -- and signed the partner, the path, the time stamp and the body with the credential's secret.
  pub shopee_integration_auth-Admitted :
      (r : SignedRequest) (client : Client)
      → shopee_integration_auth str crypto site r ≡ ok client
      → Admitted shopee_like "shopee:" (shopee_digest str crypto site r) r client
  unfolding shopee_integration_auth
  shopee_integration_auth-Admitted r client h =
      let (_, _, h₁) = bind-ok (require (not site.maintenance) 503) _ {b = client} h in
      let (_, timely, h₂) = bind-ok (fresh str crypto site r 401 401) _ {b = client} h₁ in
      let (_, _, h₃) = bind-ok (require (not site.lookup_fails) 500) _ {b = client} h₂ in
      let (c, known, h₄) =
        bind-ok (or_refuse (query_row (client_is r.client_id) site.credentials) 401) _ {b = client}
          h₃ in
      let shop = query_row (λ (s : ShopRow). str_eq s.id c.shop_id) site.shops in
      let (_, profile, h₅) =
        bind-ok (require (profile_is (normalise_provider str) shopee_like shop) 403) _ {b = client}
          h₄ in
      let (_, active, h₆) = bind-ok (require c.active 403) _ {b = client} h₅ in
      let (s, owned, normal) =
        profile_is-ok (normalise_provider str) shopee_like shop (require-ok 403 profile) in
      record {
        credential = c;
        known = or_refuse-ok (query_row (client_is r.client_id) site.credentials) 401 {a = c} known;
        active = require-ok 403 active;
        shop = s;
        owned = owned;
        profile = normal;
        in_time = fresh-ok r 401 401 timely;
        signed = signed_client-Signed "shopee:" 401 (shopee_digest str crypto site r) r c client h₆;
      }

  -- Whoever passes the checks of tokopediaIntegrationAuth has the known and active credential of a shop
  -- with the TOKOPEDIA_LIKE profile, holds an access token, sent the request within the window of its
  -- time stamp and within its quota, and signed the path, the query and the body with the credential's
  -- secret.
  pub tokopedia_integration_auth-Admitted :
      (r : SignedRequest) (client : Client)
      → tokopedia_integration_auth str crypto site r ≡ ok client
      → Admitted tokopedia_like "tokopedia:" (tokopedia_digest str crypto site r) r client
        × (cipher : String) × (crypto.decrypt cipher ≡ some r.access_token)
  unfolding tokopedia_integration_auth
  tokopedia_integration_auth-Admitted r client h =
      let (_, _, h₁) = bind-ok (require (not site.maintenance) 500) _ {b = client} h in
      let (_, timely, h₂) = bind-ok (fresh str crypto site r 36000001 36000002) _ {b = client} h₁ in
      let (_, _, h₃) = bind-ok (require (not site.lookup_fails) 36000001) _ {b = client} h₂ in
      let (c, known, h₄) =
        bind-ok (or_refuse (query_row (client_is r.client_id) site.credentials) 36000001) _
          {b = client} h₃ in
      let shop = query_row (λ (s : ShopRow). str_eq s.id c.shop_id) site.shops in
      let (_, profile, h₅) =
        bind-ok (require (profile_is (normalise_provider str) tokopedia_like shop) 36000001) _
          {b = client} h₄ in
      let (_, active, h₆) = bind-ok (require c.active 36000001) _ {b = client} h₅ in
      let cipher = decoded str crypto site c.access_token_ciphertext in
      let (_, _, h₇) = bind-ok (require (not (str_eq cipher "")) 36000001) _ {b = client} h₆ in
      let (token, token_opened, h₈) =
        bind-ok (or_refuse (crypto.decrypt cipher) 36000001) _ {b = client} h₇ in
      let (_, token_same, h₉) =
        bind-ok (require (str_eq token r.access_token) 36000001) _ {b = client} h₈ in
      let (s, owned, normal) =
        profile_is-ok (normalise_provider str) tokopedia_like shop (require-ok 36000001 profile) in
      let same : token ≡ r.access_token =
        (eq_iff token r.access_token).0 (require-ok 36000001 token_same) in
      (
        record {
          credential = c;
          known =
              or_refuse-ok (query_row (client_is r.client_id) site.credentials) 36000001 {a = c}
                known;
          active = require-ok 36000001 active;
          shop = s;
          owned = owned;
          profile = normal;
          in_time = fresh-ok r 36000001 36000002 timely;
          signed =
              signed_client-Signed "tokopedia:" 36000001 (tokopedia_digest str crypto site r) r c
                client h₉;
        },
        cipher,
        or_refuse-ok (crypto.decrypt cipher) 36000001 {a = token} token_opened ∙ ap some same,
      )

  -- No shop is served under both contracts: a client that passes the checks of one provider is of
  -- another shop than any client that passes the checks of the other one.
  pub provider_auth-disjoint :
      (r r' : SignedRequest) (client client' : Client)
      → shopee_integration_auth str crypto site r ≡ ok client
      → tokopedia_integration_auth str crypto site r' ≡ ok client'
      → client.shop_id ≢ client'.shop_id
  provider_auth-disjoint r r' client client' h h' same =
      let a = shopee_integration_auth-Admitted r client h in
      let (b, _, _) = tokopedia_integration_auth-Admitted r' client' h' in
      let here : a.credential.shop_id ≡ b.credential.shop_id =
        ap (λ (c : Client). c.shop_id) (sym a.signed.identity)
        ∙ same
        ∙ ap (λ (c : Client). c.shop_id) b.signed.identity in
      let owned = rw here at a.owned in
      let this : a.shop ≡ b.shop = ground (arith, owned, b.owned) in
      let profile = rw this at a.profile in
      let clash : shopee_like ≡ tokopedia_like = sym profile ∙ b.profile in absurd cc
