-- ===== src/Orders/State.antt =====
-- The data of internal/orders/service.go: the locked order state, the update that the service
-- decides, its errors, and the persistence contract that it is written against. An instant is a
-- number of microseconds, a duration a number of microseconds that is at least 0.
use Prim.Native.Nat.{ℕ}
use enterprise_integration_s.Common.{
  String, Bool, true, false, Option, none, some, List, ◌≡◌, Result, ok, err,
}
use enterprise_integration_s.Orders.Status.{Status}

pub data PaymentStatus : Type 0 where
  pending settled failed expired : PaymentStatus

-- `LifecycleState`
pub record LifecycleState : Type 0 where
  pub status : Status
  pub provider : String
  pub payment_status : PaymentStatus
  pub payment_expires : Option ℕ
  pub seller_deadline : Option ℕ

-- `TransitionUpdate`; its PaymentStatus is the empty text where the model has `none`.
pub record TransitionUpdate : Type 0 where
  pub target : Status
  pub payment_reference : String
  pub seller_sla : ℕ
  pub cancellation_actor : String
  pub cancellation_reason : String
  pub payment_status : Option PaymentStatus

-- The package's error values, an error with only a text, and fmt.Errorf with %w.
pub data Error : Type 0 where
  order_not_found invalid_transition deadline_not_eligible : Error
  text : String → Error
  wrap : String → Error → Error

-- errors.Is(e, ErrDeadlineNotEligible) and errors.Is(e, ErrOrderNotFound)
unfoldable pub is_deadline_not_eligible : Error → Bool
is_deadline_not_eligible deadline_not_eligible = true
is_deadline_not_eligible (wrap _ e) = is_deadline_not_eligible e
is_deadline_not_eligible _ = false

unfoldable pub is_order_not_found : Error → Bool
is_order_not_found order_not_found = true
is_order_not_found (wrap _ e) = is_order_not_found e
is_order_not_found _ = false

-- fmt.Errorf(message + ": %w", err) on the error of a call
abbrev pub wrapping : {A : Type 0} → String → Result Error A → Result Error A
wrapping message (ok a) = ok a
wrapping message (err e) = err (wrap message e)

-- One entry of an event's JSON payload: a text, or an object of texts.
pub data Field : Type 0 where
  entry : String → String → Field
  object : String → List (String × String) → Field

-- `LifecycleTransaction`, over the state S that the transaction reads and writes.
pub record LifecycleTransaction (S : Type 0) : Type 0 where
  pub lock_order : String → String → S → Result Error LifecycleState
  pub update_order : String → TransitionUpdate → S → Result Error S
  pub commit_inventory : String → S → Result Error S
  pub release_inventory : String → S → Result Error S
  pub record_event : String → String → String → List Field → S → Result Error S

-- `LifecycleRepository`: the transaction boundary. An operation that fails leaves no trace, and one
-- that reports no error has run and is the new state.
pub record LifecycleRepository (S : Type 0) : Type 0 where
  pub transaction : LifecycleTransaction S
  pub in_transaction : (S → Result Error S) → S → S × Option Error
  pub rolls_back :
      (op : S → Result Error S) (s : S) (e : Error)
      → (in_transaction op s).1 ≡ some e
      → (in_transaction op s).0 ≡ s
  pub commits :
      (op : S → Result Error S) (s : S)
      → (in_transaction op s).1 ≡ none
      → op s ≡ ok (in_transaction op s).0
