-- ===== src/Idempotency/Stability.antt =====
-- What the statements of internal/idempotency/manager.go keep, under every interleaving.
use enterprise_integration_s.Common.{
  ℕ, ◌≤◌, ◌≡◌, refl, true, false, some, List, eq_iff, arith, inl, inr, Bool-cases, ◌==◌,
}
use enterprise_integration_s.Common.Table.{
  affected, query_row, affected-le, affected-update_where, affected-delete_where,
  query_row-affected, query_row-update_where, query_row-delete_where,
}
use enterprise_integration_s.Idempotency.{
  ClaimRow, Claim, key_is, claim_row, insert_claim, renewable, renew_row, renew_claim, completable,
  complete_row, complete, release,
}
use enterprise_integration_s.Idempotency.Steps.{Step, inserts, renews, completes, releases}

-- Statements by claims and at instants that a condition allows.
pub data History (Allowed : ℕ → Claim → Type 0) (rows : List ClaimRow)
    : List ClaimRow → Type 0 where
  here : History Allowed rows rows
  next :
      {rows₁ rows₂ : List ClaimRow} {now : ℕ} {c : Claim}
      → History Allowed rows rows₁
      → Allowed now c
      → Step now c rows₁ rows₂
      → History Allowed rows rows₂

key_is-claim_row :
    (c d : Claim) (until : ℕ)
    → key_is c (claim_row d until) ≡ true
    → (r : ClaimRow) → key_is c r ≡ true
    → key_is d r ≡ true
key_is-claim_row c d until h r k = ground (
  arith,
  eq_iff d.credential_id c.credential_id,
  eq_iff d.operation c.operation,
  eq_iff d.key c.key,
  eq_iff r.credential_id c.credential_id,
  eq_iff r.operation c.operation,
  eq_iff r.key c.key,
  eq_iff r.credential_id d.credential_id,
  eq_iff r.operation d.operation,
  eq_iff r.key d.key,
)

-- The UNIQUE constraint: one row at most for a key.
abbrev pub IsUnique : List ClaimRow → Type 0
IsUnique rows = (c : Claim) → affected (key_is c) rows ≤ 1

insert_claim-IsUnique :
    (d : Claim) (until : ℕ) (rows : List ClaimRow)
    → IsUnique rows
    → IsUnique (insert_claim d until rows).0
unfolding insert_claim
insert_claim-IsUnique d until rows u c = elim (Bool-cases (affected (key_is d) rows == 0)) [
  | inr there ↦ rw there (u c)
  | inl free ↦ rw free (elim (Bool-cases (key_is c (claim_row d until))) [
    | inr other ↦ rw other (omega (arith, u c))
    | inl same ↦
        ground (arith, affected-le (key_is c) (key_is d) (key_is-claim_row c d until same) rows)
  ])
]

-- Every statement keeps the constraint.
Step-IsUnique :
    {now : ℕ} {d : Claim} {rows rows' : List ClaimRow}
    → Step now d rows rows'
    → IsUnique rows
    → IsUnique rows'
unfolding renew_claim complete release
Step-IsUnique {d = d} {rows = rows} (inserts until) u c = insert_claim-IsUnique d until rows u c
Step-IsUnique {now} {d} {rows} (renews until) u c =
    rw (affected-update_where (key_is c) (renewable d now) (renew_row d until) (λ r. refl) rows)
      (u c)
Step-IsUnique {d = d} {rows = rows} (completes status body) u c =
    rw
      (affected-update_where (key_is c) (completable d) (complete_row status body) (λ r. refl) rows)
      (u c)
Step-IsUnique {d = d} {rows = rows} releases u c =
    omega (arith, u c, affected-delete_where (key_is c) (completable d) rows)

pub History-IsUnique :
    {Allowed : ℕ → Claim → Type 0} {rows rows' : List ClaimRow}
    → History Allowed rows rows'
    → IsUnique rows
    → IsUnique rows'
History-IsUnique here u = u
History-IsUnique (next h a s) u = Step-IsUnique s (History-IsUnique h u)

insert_claim-keeps :
    (c d : Claim) (until : ℕ) (rows : List ClaimRow) {r : ClaimRow}
    → query_row (key_is c) rows ≡ some r
    → query_row (key_is c) (insert_claim d until rows).0 ≡ some r
unfolding insert_claim
insert_claim-keeps c d until rows e = elim (Bool-cases (affected (key_is d) rows == 0)) [
  | inr there ↦ rw there e
  | inl free ↦ rw free (elim (Bool-cases (key_is c (claim_row d until))) [
    | inr other ↦ rw other e
    | inl same ↦ absurd (
        ground (
          arith,
          query_row-affected (key_is c) rows e,
          affected-le (key_is c) (key_is d) (key_is-claim_row c d until same) rows,
        ))
  ])
]

-- A row that a statement neither renews, completes nor releases stays the row of its key.
pub Step-keeps :
    (c : Claim) {r : ClaimRow} {now : ℕ} {d : Claim} {rows rows' : List ClaimRow}
    → Step now d rows rows'
    → query_row (key_is c) rows ≡ some r
    → renewable d now r ≡ false
    → completable d r ≡ false
    → query_row (key_is c) rows' ≡ some r
unfolding renew_claim complete release
Step-keeps c {d = d} {rows = rows} (inserts until) e n m = insert_claim-keeps c d until rows e
Step-keeps c {r} {now} {d} {rows} (renews until) e n m =
    rw
      (
        query_row-update_where (key_is c) (renewable d now) (renew_row d until) (λ x. refl) rows e,
        n,
      )
      refl
Step-keeps c {r} {now} {d} {rows} (completes status body) e n m =
    rw
      (
        query_row-update_where (key_is c) (completable d) (complete_row status body) (λ x. refl)
            rows e,
        m,
      )
      refl
Step-keeps c {d = d} {rows = rows} releases e n m =
    query_row-delete_where (key_is c) (completable d) rows e m
