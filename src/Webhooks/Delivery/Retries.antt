-- ===== src/Webhooks/Delivery/Retries.antt =====
-- The attempts of one delivery by cmd/worker/main.go, from its first lease to its end.
pub mod Ends
use enterprise_integration_s.Common.{
  ℕ, zero, suc, ◌+◌, ◌*◌, ◌≤◌, ◌≡◌, ◌∙◌, ap, sym, refl, String, Bool, true, false, ◌&&◌, not,
  Option, none, some, List, [], ◌∷◌, str_eq, eq_iff, arith, ◌⊎◌, inl, inr, Bool-cases,
  if◌then◌else◌, ◌==◌, is_some, Option-cases,
}
use enterprise_integration_s.Common.Table.{
  affected, query_row, All, query_row-update_where, affected-update_where,
}
use enterprise_integration_s.Common.Keys.{query_row_only, query_row_holds}
use mathlib.Core.Option.{map as map_option}
use enterprise_integration_s.Orders.Provider.{Strings}
use enterprise_integration_s.Webhooks.State.{
  DeliveryStatus, delivered, failed, is_pending, pending, DeliveryRow, AttemptRow, WebhookRow,
  WebhookDb,
}
use enterprise_integration_s.Common.Int.{pos}
use enterprise_integration_s.Webhooks.Contract.{retry_after, retry_after-le}
use enterprise_integration_s.Webhooks.Delivery.{
  delivery_is, is_due, lease_row, lease_delivery, webhook_is,
}
use enterprise_integration_s.Webhooks.Delivery.Attempt.{
  HttpResult, call_result, prepares, Loaded, is_held, loaded_webhook, load_delivery, record_attempt,
  Others, finish_delivery, handle_loaded, handle_delivery,
}

-- Nobody else touches the tables.
abbrev alone : Others
alone = record { during_call = λ db. db; after_insert = λ db. db; after_count = λ db. db }

module _ (str : Strings) (decrypts : String → Bool) where
  -- Leasing a delivery and handling its task at once.
  unfoldable pub work : (List ℕ → Bool) → HttpResult → ℕ → String → WebhookDb → WebhookDb
  work stores answer now id db =
      let leased = lease_delivery now id db.deliveries in
      let db₁ = record db { deliveries = leased.0 } in
      if leased.1 then handle_delivery str decrypts stores answer alone now now id db₁ else db₁

  -- The recorded body of a call, by the receiver's answer.
  abbrev pub body_of : Loaded → HttpResult → List ℕ
  body_of l answer =
      (call_result (prepares str decrypts l.provider_profile l.app_key l.app_secret l.secret)
        l.force_failure answer).body

  -- The failure of a call, by the receiver's answer.
  abbrev pub failure_of : Loaded → HttpResult → Option String
  failure_of l answer =
      (call_result (prepares str decrypts l.provider_profile l.app_key l.app_secret l.secret)
        l.force_failure answer).failure

-- The delivery is there, pending after n attempts, and can be loaded as `l` says.
pub record IsReady (id : String) (l : Loaded) (n : ℕ) (d : DeliveryRow) (db : WebhookDb)
    : Type 0 where
  pub found : query_row (delivery_is id) db.deliveries ≡ some d
  pub one : affected (delivery_is id) db.deliveries ≤ 1
  pub waiting : is_pending d.status ≡ true
  pub counted : d.attempt_count ≡ n
  pub loads :
      loaded_webhook d
        (query_row (λ w. webhook_is d.webhook_id w && not (is_some w.deleted_at)) db.webhooks)
        db
      ≡ some (record l { attempts = n })
  pub attempted : All (λ a. str_eq a.delivery_id id ≡ true → a.attempt ≤ n) db.attempts

no_clash :
    (id : String) (n : ℕ) (rows : List AttemptRow)
    → All (λ a. str_eq a.delivery_id id ≡ true → a.attempt ≤ n) rows
    → affected (λ a. str_eq a.delivery_id id && (a.attempt == suc n)) rows ≡ 0
no_clash id n [] a = refl
no_clash id n (x ∷ rows) (h, a) = ground (arith, no_clash id n rows a)

-- The table after the attempt of a leased delivery.
leased_rows :
    (id : String) (now : ℕ) (d : DeliveryRow) (rows : List DeliveryRow)
    → query_row (delivery_is id) rows ≡ some d
    → affected (delivery_is id) rows ≤ 1
    → is_due now d ≡ true
    → (query_row (delivery_is id) (lease_delivery now id rows).0 ≡ some (lease_row now d))
      × ((lease_delivery now id rows).1 ≡ true)
      × (affected (delivery_is id) (lease_delivery now id rows).0 ≤ 1)
unfolding lease_delivery
leased_rows id now d rows found one due =
    let q : DeliveryRow → Bool = λ x. delivery_is id x && is_due now x in
    let (row, count) = query_row_only (delivery_is id) q (λ x t. ground arith) rows one found in
    let mine : delivery_is id d ≡ true = query_row_holds (delivery_is id) rows found in
    (
      query_row-update_where (delivery_is id) q (lease_row now) (λ x. refl) rows found
          ∙ ground arith,
      ground arith,
      rw (affected-update_where (delivery_is id) q (lease_row now) (λ x. refl) rows) one,
    )

-- What is loaded of a delivery depends on its event and its number of attempts only.
loaded-again :
    (d d' : DeliveryRow) (o : Option WebhookRow) (db : WebhookDb) (rows : List DeliveryRow)
    (attempts : List AttemptRow) (l : Loaded) (n m : ℕ)
    → d'.event_id ≡ d.event_id
    → d'.attempt_count ≡ m
    → loaded_webhook d o db ≡ some (record l { attempts = n })
    → loaded_webhook d' o (record db { deliveries = rows; attempts = attempts })
      ≡ some (record l { attempts = m })
loaded-again d d' none db rows attempts l n m same count e = absurd cc
loaded-again d d' (some w) db rows attempts l n m same count e =
    elim (Option-cases (query_row (λ x. str_eq x.id d.event_id) db.events)) [
      | inl none_found ↦ absurd (ground arith)
      | inr (ev, fe) ↦ elim (Option-cases (query_row (λ x. str_eq x.id w.shop_id) db.shops)) [
        | inl none_found ↦ absurd (ground arith)
        | inr (shop, fs) ↦
            rw (same, fe, fs, count)
              (ap (map_option (λ (x : Loaded). record x { attempts = m })) (rw (fe, fs) at e))
      ]
    ]

-- The SELECT of a delivery that was just leased.
load_leased :
    (id : String) (l : Loaded) (n now : ℕ) (d : DeliveryRow) (db : WebhookDb)
    → IsReady id l n d db
    → is_due now d ≡ true
    → load_delivery now id (record db { deliveries = (lease_delivery now id db.deliveries).0 })
      ≡ some (record l { attempts = n })
unfolding load_delivery
load_leased id l n now d db ready due =
    let rows = (lease_delivery now id db.deliveries).0 in
    let (found, _, one) = leased_rows id now d db.deliveries ready.found ready.one due in
    let held : DeliveryRow → Bool =
      λ x. delivery_is id x && is_pending x.status && is_held x.leased_until now in
    let (row, _) = query_row_only (delivery_is id) held (λ x t. ground arith) rows one found in
    let mine : delivery_is id d ≡ true =
      query_row_holds (delivery_is id) db.deliveries ready.found in
    let waiting = ready.waiting in
    let is_held_now : held (lease_row now d) ≡ true = ground arith in
    let chosen : query_row held rows ≡ some (lease_row now d) = row ∙ rw is_held_now refl in
    rw chosen
      (loaded-again d (lease_row now d) _ db rows db.attempts l n n refl ready.counted ready.loads)

-- A failed attempt before the fifth leaves the delivery ready for the next one.
abbrev retry_row : ℕ → ℕ → DeliveryRow → DeliveryRow
retry_row now n d = record d {
  attempt_count = suc n;
  next_attempt_at = some (now + retry_after (pos (suc n)) * 1000000);
  leased_until = none;
}

-- An attempt whose body the database does not store leaves the delivery leased, and otherwise as it
-- was.
pub work-unstored :
    (str : Strings) (decrypts : String → Bool) (stores : List ℕ → Bool) (answer : HttpResult)
    (id : String) (l : Loaded) (n now : ℕ) (d : DeliveryRow) (db : WebhookDb)
    → IsReady id l n d db
    → is_due now d ≡ true
    → stores (body_of str decrypts l answer) ≡ false
    → IsReady id l n (lease_row now d) (work str decrypts stores answer now id db)
unfolding work handle_delivery handle_loaded finish_delivery record_attempt
work-unstored str decrypts stores answer id l n now d db ready due refused =
    let (found, taken, one) = leased_rows id now d db.deliveries ready.found ready.one due in
    let loaded = load_leased id l n now d db ready due in
    let clear = no_clash id n db.attempts ready.attempted in
    record {
      found = rw (taken, loaded, clear, refused) found;
      one = rw (taken, loaded, clear, refused) one;
      waiting = ready.waiting;
      counted = ready.counted;
      loads =
          rw (taken, loaded, clear, refused)
            (loaded-again d (lease_row now d) _ db _ db.attempts l n n refl ready.counted
              ready.loads);
      attempted = rw (taken, loaded, clear, refused) ready.attempted;
    }
