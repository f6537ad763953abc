-- ===== src/Tests/IdempotencyTests.antt =====
-- Two requests for one idempotency key.
use enterprise_integration_s.Common.{◌≡◌, ◌≢◌, refl, ◌⊎◌, String, some, List, [], ◌∷◌, arith}
use enterprise_integration_s.Idempotency.{
  ClaimRow, Claim, in_progress, conflict, replay, claim_row, insert_claim, Moments, acquire_once,
  acquire, complete,
}
use enterprise_integration_s.Idempotency.Stability.{here, IsUnique}
use enterprise_integration_s.Idempotency.Replay.{same_key, complete-replays}
use enterprise_integration_s.Idempotency.Exclusion.{insert-excludes}

abbrev hash : String
hash = "aaa"

abbrev first : Claim
first = record {
  id = "idm1";
  credential_id = "cred1";
  operation = "createPackage";
  key = "k1";
  request_hash = hash;
}

abbrev claimed : List ClaimRow
claimed = claim_row first 130 ∷ []

abbrev moments : List ClaimRow → Moments
moments rows = record {
  at_insert = record { now = 110; rows = rows };
  at_read = record { now = 111; rows = rows };
  at_renew = record { now = 112; rows = rows };
}

claimed-IsUnique : IsUnique claimed
claimed-IsUnique c = ground arith

abbrev finished : List ClaimRow
finished = unfold complete in (complete first 201 "{}" claimed).0

complete-replays_example :
    (hash ≡ hash
      → acquire (same_key first "idm2" hash) 30 (λ n. moments finished) ≡ replay 201 "{}")
    × (hash ≢ hash
        → hash ≢ ""
        → acquire (same_key first "idm2" hash) 30 (λ n. moments finished) ≡ conflict)
unfolding complete
complete-replays_example =
    complete-replays first 201 "{}" claimed "idm2" hash 30 (λ n. moments finished) claimed-IsUnique
      refl here here

insert-excludes_example :
    (acquire_once (same_key first "idm2" "bbb") 30 (moments claimed) ≡ some in_progress)
    ⊎ (acquire_once (same_key first "idm2" "bbb") 30 (moments claimed) ≡ some conflict)
unfolding insert_claim
insert-excludes_example =
    insert-excludes first 130 [] "idm2" "bbb" 30 (moments claimed) refl here here (ground arith)
