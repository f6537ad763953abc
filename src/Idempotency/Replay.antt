-- ===== src/Idempotency/Replay.antt =====
-- A completed key answers every later request with the stored response.
use enterprise_integration_s.Common.{
  ℕ, ◌≡◌, ◌≢◌, ◌∙◌, sym, refl, String, true, some, List, eq_iff, arith,
}
use enterprise_integration_s.Common.Table.{
  query_row, query_row-affected, query_row-update_where, query_row_unique,
}
use enterprise_integration_s.Idempotency.{
  ClaimRow, Claim, completed, conflict, replay, key_is, insert_claim, decide, Moments, acquire_once,
  acquire, completable, complete_row, complete,
}
use enterprise_integration_s.Idempotency.Stability.{History, here, next, IsUnique, Step-keeps}

-- Any statement of any claim at any instant.
abbrev pub Anything : ℕ → Claim → Type 0
Anything now c = Unit

pub completed-History :
    (c : Claim) {r : ClaimRow} {rows rows' : List ClaimRow}
    → History Anything rows rows'
    → r.state ≡ completed
    → query_row (key_is c) rows ≡ some r
    → query_row (key_is c) rows' ≡ some r
completed-History c here done e = e
completed-History c (next h a s) done e =
    Step-keeps c s (completed-History c h done e) (ground arith) (ground arith)

pub complete-stored :
    (c : Claim) (status : ℕ) (body : String) (rows : List ClaimRow)
    → IsUnique rows
    → (complete c status body rows).1 ≡ true
    → (r : ClaimRow) × (query_row (key_is c) (complete c status body rows).0
        ≡ some (complete_row status body r))
      × (r.request_hash ≡ c.request_hash)
unfolding complete
complete-stored c status body rows u h =
    let (r, found, mine) =
      query_row_unique (key_is c) (completable c) (λ x t. ground arith) rows (u c) (ground arith) in
    (
      r,
      rw
          (
            query_row-update_where (key_is c) (completable c) (complete_row status body) (λ x. refl)
                rows found,
            mine,
          )
          refl,
      ground (arith, eq_iff r.request_hash c.request_hash),
    )

pub acquire_once-completed :
    (d : Claim) (lease : ℕ) (ms : Moments) (r : ClaimRow) (status : ℕ) (body : String)
    → query_row (key_is d) ms.at_insert.rows ≡ some (complete_row status body r)
    → query_row (key_is d) ms.at_read.rows ≡ some (complete_row status body r)
    → (d.request_hash ≡ r.request_hash → acquire_once d lease ms ≡ some (replay status body))
      × (d.request_hash ≢ r.request_hash
          → r.request_hash ≢ ""
          → acquire_once d lease ms ≡ some conflict)
unfolding acquire_once insert_claim decide
acquire_once-completed d lease ms r status body a b = (
  λ same. ground (
    arith,
    query_row-affected (key_is d) ms.at_insert.rows a,
    eq_iff r.request_hash "",
    eq_iff r.request_hash d.request_hash,
  ),
  λ differ known. ground (
    arith,
    query_row-affected (key_is d) ms.at_insert.rows a,
    eq_iff r.request_hash "",
    eq_iff r.request_hash d.request_hash,
  ),
)

-- The claim of another request for the same key.
abbrev pub same_key : Claim → String → String → Claim
same_key c id hash = record c { id = id; request_hash = hash }

-- Once a claim has been completed, and whatever statements run in between, every later request for the
-- key gets the stored status and body if its hash is the completed one's, and a conflict if the stored
-- hash is another, non-empty one. It never executes again.
pub complete-replays :
    (c : Claim) (status : ℕ) (body : String) (rows : List ClaimRow) (id hash : String) (lease : ℕ)
    (ms : ℕ → Moments)
    → IsUnique rows
    → (complete c status body rows).1 ≡ true
    → History Anything (complete c status body rows).0 (ms 2).at_insert.rows
    → History Anything (ms 2).at_insert.rows (ms 2).at_read.rows
    → (hash ≡ c.request_hash → acquire (same_key c id hash) lease ms ≡ replay status body)
      × (hash ≢ c.request_hash
          → c.request_hash ≢ ""
          → acquire (same_key c id hash) lease ms ≡ conflict)
unfolding acquire
complete-replays c status body rows id hash lease ms u h before between =
    let (r, stored, mine) = complete-stored c status body rows u h in
    let inserting = completed-History c before refl stored in
    let reading = completed-History c between refl inserting in
    let (replays, conflicts) =
      acquire_once-completed (same_key c id hash) lease (ms 2) r status body inserting reading in
    (
      λ same. rw (replays (same ∙ sym mine)) refl,
      λ differ known. rw (conflicts (λ e. differ (e ∙ mine)) (λ e. known (sym mine ∙ e))) refl,
    )
