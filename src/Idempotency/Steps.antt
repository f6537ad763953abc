-- ===== src/Idempotency/Steps.antt =====
-- The interleavings of internal/idempotency/manager.go: any process runs any statement at any
-- instant.
use enterprise_integration_s.Common.{ℕ, String, List}
use enterprise_integration_s.Idempotency.{
  ClaimRow, Claim, insert_claim, renew_claim, complete, release,
}

-- One statement of some process, at an instant.
pub data Step (now : ℕ) (c : Claim) (rows : List ClaimRow) : List ClaimRow → Type 0 where
  inserts : (until : ℕ) → Step now c rows (insert_claim c until rows).0
  renews : (until : ℕ) → Step now c rows (renew_claim c until now rows).0
  completes : (status : ℕ) (body : String) → Step now c rows (complete c status body rows).0
  releases : Step now c rows (release c rows)
