-- ===== src/Webhooks/Delivery/Retries/Ends.antt =====
-- How the attempts of one delivery end.
use enterprise_integration_s.Common.{
  ℕ, zero, suc, ◌+◌, ◌*◌, ◌≡◌, refl, String, Bool, true, false, Option, none, some, arith,
  Option-cases, List, ◌<◌,
}
use enterprise_integration_s.Common.Table.{query_row}
use enterprise_integration_s.Orders.Provider.{Strings}
use enterprise_integration_s.Webhooks.State.{
  DeliveryStatus, delivered, failed, pending, is_pending, DeliveryRow, WebhookDb,
}
use enterprise_integration_s.Webhooks.Delivery.{delivery_is, is_due, lease_row}
use enterprise_integration_s.Webhooks.Delivery.Attempt.{HttpResult, Loaded}
use enterprise_integration_s.Webhooks.Delivery.Retries.{IsReady, body_of, work, work-unstored}

module _ (str : Strings) (decrypts : String → Bool) (stores : List ℕ → Bool)
    (answers : ℕ → HttpResult) (at : ℕ → ℕ) (id : String) where
  -- The attempts from number k on, each at its own instant.
  abbrev pub runs : ℕ → ℕ → WebhookDb → WebhookDb
  runs k zero db = db
  runs k (suc n) db = runs (suc k) n (work str decrypts stores (answers k) (at k) id db)

or_later : Option String → DeliveryStatus × ℕ → DeliveryStatus × ℕ → DeliveryStatus × ℕ
or_later none now later = now
or_later (some code) now later = later

-- The status and number of attempts that a sequence of failures ends in: DELIVERED with the first
-- attempt that does not fail, and FAILED where all n do.
unfoldable pub verdict : (ℕ → Option String) → ℕ → ℕ → DeliveryStatus × ℕ
unfolding or_later
verdict f k zero = (failed, k)
verdict f k (suc n) = or_later (f k) (delivered, suc k) (verdict f (suc k) n)

-- The row has a status and a number of attempts.
abbrev pub Ends : String → DeliveryStatus × ℕ → WebhookDb → Type 0
Ends id end db =
    (d : DeliveryRow) × (query_row (delivery_is id) db.deliveries ≡ some d)
    × (d.status ≡ end.0)
    × (d.attempt_count ≡ end.1)

is_pending-pending : (s : DeliveryStatus) → is_pending s ≡ true → s ≡ pending
is_pending-pending s = elim s as (λ x. is_pending x ≡ true → x ≡ pending) [
  | pending ↦ λ _. refl
  | _ ↦ λ h. absurd cc
]

-- Where nobody else is at work, attempts whose bodies the database does not store are not counted: a
-- delivery that is due and can be loaded is pending after them with the number of attempts that it had,
-- whatever the receiver has answered, for any number of them more than half a minute apart.
pub unstored-Ends :
    (str : Strings) (decrypts : String → Bool) (stores : List ℕ → Bool) (answers : ℕ → HttpResult)
    (at : ℕ → ℕ) (id : String) (l : Loaded)
    → ((k : ℕ) → at k + 30 * 1000000 < at (suc k))
    → ((k : ℕ) → stores (body_of str decrypts l (answers k)) ≡ false)
    → (n k count : ℕ) (d : DeliveryRow) (db : WebhookDb) → IsReady id l count d db
    → is_due (at k) d ≡ true
    → Ends id (pending, count) (runs str decrypts stores answers at id k n db)
unstored-Ends str decrypts stores answers at id l spaced refused zero k count d db ready due =
    let waiting = ready.waiting in
    (d, ready.found, is_pending-pending d.status waiting, ready.counted)
unstored-Ends str decrypts stores answers at id l spaced refused (suc n) k count d db ready due =
    let next =
      work-unstored str decrypts stores (answers k) id l count (at k) d db ready due (refused k) in
    let due_again : is_due (at (suc k)) (lease_row (at k) d) ≡ true =
      ground (arith, spaced k, Option-cases d.next_attempt_at) in
    unstored-Ends str decrypts stores answers at id l spaced refused n (suc k) count
      (lease_row (at k) d) (work str decrypts stores (answers k) (at k) id db) next due_again
