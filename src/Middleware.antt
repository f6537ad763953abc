-- ===== src/Middleware.antt =====
-- The wrapper `idempotent` of internal/server/provider_middleware.go, around a handler on a state S.
-- The statements of one request run without others between them; Idempotency has the interleavings.
-- Recording and committing the response are the recorder's of middleware.go: the handler's answer is
-- written whole, or an error is written in its place.
pub mod Once
pub mod Errors
pub mod Access
use enterprise_integration_s.Common.{
  ℕ, ◌+◌, String, Bool, true, false, ◌&&◌, ◌||◌, not, List, str_eq, if◌then◌else◌, leb, ltb,
}
use enterprise_integration_s.Common.Table.{query_row}
use enterprise_integration_s.Idempotency.{
  ClaimRow, Claim, Outcome, execute, in_progress, conflict, replay, key_is, insert_claim,
  renew_claim, Decision, return, again, renew, decide, Moments, acquire, complete, release,
}

-- What the wrapper reads of a request, with its fingerprint.
pub record Request : Type 0 where
  pub key : String
  pub credential_id : String
  pub operation : String
  pub fingerprint : String

-- A response: an error of the wrapper's own with its status and code, a stored response, or the
-- handler's.
pub data Answer : Type 0 where
  refused : ℕ → String → Answer
  replayed : ℕ → String → Answer
  answered : ℕ → String → Answer

-- The database at one request: its clock, the identifier drawn, and which of the three calls fail.
pub record Conditions : Type 0 where
  pub now : ℕ
  pub claim_id : String
  pub claim_fails : Bool
  pub complete_fails : Bool
  pub release_fails : Bool

abbrev pub claim_of : String → Request → Claim
claim_of id r = record {
  id = id;
  credential_id = r.credential_id;
  operation = r.operation;
  key = r.key;
  request_hash = r.fingerprint;
}

-- All statements of `Acquire` on the same table.
abbrev pub alone : ℕ → List ClaimRow → Moments
alone now rows = record {
  at_insert = record { now = now; rows = rows };
  at_read = record { now = now; rows = rows };
  at_renew = record { now = now; rows = rows };
}

-- The table that these statements leave.
unfoldable pub acquired_rows : Claim → ℕ → ℕ → List ClaimRow → List ClaimRow
acquired_rows c until now rows =
    if (insert_claim c until rows).1
    then (insert_claim c until rows).0
    else elim (decide c now (query_row (key_is c) rows)) [
      | renew ↦ (renew_claim c until now rows).0
      | _ ↦ rows
    ]

abbrev pub is_success : ℕ → Bool
is_success status = leb 200 status && ltb status 300

module _ {S : Type 0} (byte_length : String → ℕ) (lease : ℕ) (handler : S → S × ℕ × String) where
  -- After the handler has answered.
  unfoldable pub finish :
      Conditions → Claim → ℕ → String → S → List ClaimRow → (S × List ClaimRow) × Answer
  finish now c status body s rows =
      let (completed, done) = complete c status body rows in
      if is_success status
      then if now.complete_fails
        then ((s, rows), refused 500 "IDEMPOTENCY_FINALIZATION_FAILED")
        else if not done
        then ((s, completed), refused 500 "IDEMPOTENCY_FINALIZATION_FAILED")
        else ((s, completed), answered status body)
      else ((s, if now.release_fails then rows else release c rows), answered status body)

  unfoldable pub on_outcome :
      Conditions → Claim → Outcome → S → List ClaimRow → (S × List ClaimRow) × Answer
  unfolding finish
  on_outcome now c execute s rows =
      let (s', status, body) = handler s in finish now c status body s' rows
  on_outcome now c in_progress s rows = ((s, rows), refused 409 "IDEMPOTENCY_IN_PROGRESS")
  on_outcome now c conflict s rows = ((s, rows), refused 409 "IDEMPOTENCY_KEY_REUSED")
  on_outcome now c (replay status body) s rows = ((s, rows), replayed status body)

  -- `idempotent`
  unfoldable pub idempotent :
      Conditions → Request → S × List ClaimRow → (S × List ClaimRow) × Answer
  unfolding on_outcome acquired_rows
  idempotent now r (s, rows) =
      let c = claim_of now.claim_id r in
      if str_eq r.key ""
      then ((s, rows), refused 400 "IDEMPOTENCY_KEY_REQUIRED")
      else if ltb 255 (byte_length r.key)
      then ((s, rows), refused 400 "INVALID_IDEMPOTENCY_KEY")
      else if now.claim_fails
      then ((s, rows), refused 500 "DATABASE_ERROR")
      else on_outcome now c (acquire c lease (λ _. alone now.now rows)) s
          (acquired_rows c (now.now + lease) now.now rows)
