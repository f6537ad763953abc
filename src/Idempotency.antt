-- ===== src/Idempotency.antt =====
-- internal/idempotency/manager.go: claims on (credential, operation, key). Every statement is atomic
-- and they run outside a transaction, so `acquire` takes the moment at which each of them runs: the
-- instant and the table that it finds. A response body is a text.
pub mod Steps
pub mod Stability
pub mod Replay
pub mod Exclusion
use enterprise_integration_s.Common.{
  ℕ, zero, suc, ◌+◌, String, Bool, true, false, ◌&&◌, ◌||◌, not, Option, none, some, List, [], ◌∷◌,
  str_eq, if◌then◌else◌, leb, ltb, ◌==◌,
}
use enterprise_integration_s.Common.Table.{update_where, delete_where, affected, query_row}

pub data ClaimState : Type 0 where
  processing completed : ClaimState

-- A row of idempotency_keys.
pub record ClaimRow : Type 0 where
  pub id : String
  pub credential_id : String
  pub operation : String
  pub key : String
  pub request_hash : String
  pub state : ClaimState
  pub response_status : Option ℕ
  pub response_body : String
  pub locked_until : Option ℕ

-- `Claim`
pub record Claim : Type 0 where
  pub id : String
  pub credential_id : String
  pub operation : String
  pub key : String
  pub request_hash : String

-- `Result`, by its outcome.
pub data Outcome : Type 0 where
  execute in_progress conflict : Outcome
  replay : ℕ → String → Outcome

abbrev pub is_processing : ClaimState → Bool
is_processing processing = true
is_processing completed = false

-- credential_id=$ AND operation=$ AND key=$
abbrev pub key_is : Claim → ClaimRow → Bool
key_is c r =
    str_eq r.credential_id c.credential_id && str_eq r.operation c.operation && str_eq r.key c.key

abbrev pub claim_row : Claim → ℕ → ClaimRow
claim_row c until = record {
  id = c.id;
  credential_id = c.credential_id;
  operation = c.operation;
  key = c.key;
  request_hash = c.request_hash;
  state = processing;
  response_status = none;
  response_body = "";
  locked_until = some until;
}

-- INSERT ... ON CONFLICT DO NOTHING, and whether it inserted.
unfoldable pub insert_claim : Claim → ℕ → List ClaimRow → List ClaimRow × Bool
insert_claim c until rows =
    if affected (key_is c) rows == 0 then (claim_row c until ∷ rows, true) else (rows, false)

-- locked_until IS NULL OR locked_until<=now()
abbrev pub lease_over : Option ℕ → ℕ → Bool
lease_over none now = true
lease_over (some until) now = leb until now

abbrev pub renewable : Claim → ℕ → ClaimRow → Bool
renewable c now r =
    key_is c r
    && is_processing r.state
    && lease_over r.locked_until now
    && (str_eq r.request_hash "" || str_eq r.request_hash c.request_hash)

abbrev pub renew_row : Claim → ℕ → ClaimRow → ClaimRow
renew_row c until r = record r {
  id = c.id;
  request_hash = c.request_hash;
  locked_until = some until;
}

-- The UPDATE that takes over an abandoned claim, and whether it affected one row.
unfoldable pub renew_claim : Claim → ℕ → ℕ → List ClaimRow → List ClaimRow × Bool
renew_claim c until now rows =
    (update_where (renewable c now) (renew_row c until) rows, affected (renewable c now) rows == 1)

-- What `acquire` decides on the row that it reads: an outcome, another attempt, or a renewal.
pub data Decision : Type 0 where
  return : Outcome → Decision
  again renew : Decision

-- currentLease != nil && currentLease.After(time.Now())
abbrev pub is_leased : Option ℕ → ℕ → Bool
is_leased none now = false
is_leased (some until) now = ltb now until

abbrev decide_open : Claim → ℕ → ClaimRow → Decision
decide_open c now r = if is_leased r.locked_until now then return in_progress else renew

abbrev decide_matching : Claim → ℕ → ClaimRow → ClaimState → Option ℕ → Decision
decide_matching c now r completed (some status) = return (replay status r.response_body)
decide_matching c now r completed none = decide_open c now r
decide_matching c now r processing status = decide_open c now r

unfoldable pub decide : Claim → ℕ → Option ClaimRow → Decision
unfolding decide_matching decide_open
decide c now none = again
decide c now (some r) =
    if not (str_eq r.request_hash "") && not (str_eq r.request_hash c.request_hash)
    then return conflict
    else decide_matching c now r r.state r.response_status

-- The instant and the table at which a statement runs.
pub record Moment : Type 0 where
  pub now : ℕ
  pub rows : List ClaimRow

-- The moments of one attempt: its INSERT, its SELECT and its UPDATE.
pub record Moments : Type 0 where
  pub at_insert : Moment
  pub at_read : Moment
  pub at_renew : Moment

after_renew : List ClaimRow × Bool → Option Outcome
after_renew (_, true) = some execute
after_renew (_, false) = some in_progress

after_read : Claim → ℕ → Moment → Decision → Option Outcome
after_read c until m (return o) = some o
after_read c until m again = none
after_read c until m renew = after_renew (renew_claim c until m.now m.rows)

-- `acquire`; `none` asks for another attempt.
unfoldable pub acquire_once : Claim → ℕ → Moments → Option Outcome
unfolding after_read after_renew
acquire_once c lease ms =
    let until = ms.at_insert.now + lease in
    if (insert_claim c until ms.at_insert.rows).1
    then some execute
    else after_read c until ms.at_renew
        (decide c ms.at_read.now (query_row (key_is c) ms.at_read.rows))

or_again : Option Outcome → Outcome → Outcome
or_again none later = later
or_again (some o) later = o

acquire_from : ℕ → Claim → ℕ → (ℕ → Moments) → Outcome
unfolding or_again
acquire_from zero c lease ms = in_progress
acquire_from (suc n) c lease ms = or_again (acquire_once c lease (ms n)) (acquire_from n c lease ms)

-- `Acquire`: three attempts at most, numbered down from 2.
unfoldable pub acquire : Claim → ℕ → (ℕ → Moments) → Outcome
unfolding acquire_from
acquire = acquire_from 3

abbrev pub completable : Claim → ClaimRow → Bool
completable c r =
    str_eq r.id c.id && key_is c r && str_eq r.request_hash c.request_hash && is_processing r.state

abbrev pub complete_row : ℕ → String → ClaimRow → ClaimRow
complete_row status body r = record r {
  state = completed;
  response_status = some status;
  response_body = body;
  locked_until = none;
}

-- `Complete`; false is its ErrNoRows.
unfoldable pub complete : Claim → ℕ → String → List ClaimRow → List ClaimRow × Bool
complete c status body rows = (
  update_where (completable c) (complete_row status body) rows,
  affected (completable c) rows == 1,
)

-- `Release`
unfoldable pub release : Claim → List ClaimRow → List ClaimRow
release c = delete_where (completable c)
