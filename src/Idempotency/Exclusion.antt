-- ===== src/Idempotency/Exclusion.antt =====
-- While a claim's lease runs, no other request executes for its key.
use enterprise_integration_s.Common.{
  ℕ, ◌<◌, ◌≡◌, ◌≢◌, sym, ◌⊎◌, String, true, some, List, eq_iff, arith,
}
use enterprise_integration_s.Common.Table.{query_row, query_row-affected}
use enterprise_integration_s.Idempotency.{
  ClaimRow, Claim, in_progress, conflict, key_is, claim_row, insert_claim, decide, Moments,
  acquire_once,
}
use enterprise_integration_s.Idempotency.Stability.{History, here, next, Step-keeps}
use enterprise_integration_s.Idempotency.Replay.{same_key}

-- Statements of other requests before an instant.
abbrev pub OthersBefore : String → ℕ → ℕ → Claim → Type 0
OthersBefore id until now c = (now < until) × (c.id ≢ id)

owned-History :
    (c : Claim) (until : ℕ) {rows rows' : List ClaimRow}
    → History (OthersBefore c.id until) rows rows'
    → query_row (key_is c) rows ≡ some (claim_row c until)
    → query_row (key_is c) rows' ≡ some (claim_row c until)
owned-History c until here e = e
owned-History c until (next {now = now} {c = d} h a s) e =
    Step-keeps c s (owned-History c until h e) (ground arith)
      (ground (arith, eq_iff c.id d.id, λ (e : c.id ≡ d.id). a.1 (sym e)))

inserted :
    (c : Claim) (until : ℕ) (rows : List ClaimRow)
    → (insert_claim c until rows).1 ≡ true
    → query_row (key_is c) (insert_claim c until rows).0 ≡ some (claim_row c until)
unfolding insert_claim
inserted c until rows h = ground (
  arith,
  eq_iff c.credential_id c.credential_id,
  eq_iff c.operation c.operation,
  eq_iff c.key c.key,
)

acquire_once-leased :
    (c d : Claim) (until lease : ℕ) (ms : Moments)
    → query_row (key_is d) ms.at_insert.rows ≡ some (claim_row c until)
    → query_row (key_is d) ms.at_read.rows ≡ some (claim_row c until)
    → ms.at_read.now < until
    → (acquire_once d lease ms ≡ some in_progress) ⊎ (acquire_once d lease ms ≡ some conflict)
unfolding acquire_once insert_claim decide
acquire_once-leased c d until lease ms a b early =
    ground (arith, query_row-affected (key_is d) ms.at_insert.rows a)

-- After a request has inserted its claim, and until its lease ends or it completes or releases the
-- claim itself, a request with another identifier for the same key is told to wait, or that the key
-- belongs to a different request: whatever the others do in between, it does not execute.
pub insert-excludes :
    (c : Claim) (until : ℕ) (rows : List ClaimRow) (id hash : String) (lease : ℕ) (ms : Moments)
    → (insert_claim c until rows).1 ≡ true
    → History (OthersBefore c.id until) (insert_claim c until rows).0 ms.at_insert.rows
    → History (OthersBefore c.id until) ms.at_insert.rows ms.at_read.rows
    → ms.at_read.now < until
    → (acquire_once (same_key c id hash) lease ms ≡ some in_progress)
      ⊎ (acquire_once (same_key c id hash) lease ms ≡ some conflict)
insert-excludes c until rows id hash lease ms h before between early =
    let inserting = owned-History c until before (inserted c until rows h) in
    let reading = owned-History c until between inserting in
    acquire_once-leased c (same_key c id hash) until lease ms inserting reading early
