-- ===== src/Middleware/Once.antt =====
-- The handler behind an idempotency key runs once at most with success.
use enterprise_integration_s.Common.{
  ℕ, ◌+◌, ◌≡◌, ◌≢◌, refl, sym, String, true, false, str_eq, eq_iff, if◌then◌else◌, List, some,
  arith, Bool-cases, inl, inr, ltb,
}
use enterprise_integration_s.Common.Table.{query_row, query_row-affected}
use enterprise_integration_s.Idempotency.{
  ClaimRow, Claim, Outcome, execute, in_progress, conflict, replay, key_is, insert_claim, decide,
  renew_claim, Decision, return, again, renew, acquire, complete, complete_row,
}
use enterprise_integration_s.Idempotency.Steps.{inserts, renews}
use enterprise_integration_s.Idempotency.Stability.{History, here, next, IsUnique, History-IsUnique}
use enterprise_integration_s.Idempotency.Replay.{
  Anything, completed-History, complete-stored, complete-replays,
}
use enterprise_integration_s.Middleware.{
  Request, refused, replayed, answered, Conditions, claim_of, alone, acquired_rows, is_success,
  finish, on_outcome, idempotent,
}

after_decision-IsUnique :
    (c : Claim) (until now : ℕ) (rows : List ClaimRow)
    → IsUnique rows
    → (d : Decision) → IsUnique (elim d [ renew ↦ (renew_claim c until now rows).0 | _ ↦ rows ])
after_decision-IsUnique c until now rows u renew =
    History-IsUnique {Allowed = Anything} (next {now = now} {c = c} here tt (renews until)) u
after_decision-IsUnique c until now rows u again = u
after_decision-IsUnique c until now rows u (return o) = u

-- Acquiring keeps the UNIQUE constraint.
acquired_rows-IsUnique :
    (c : Claim) (until now : ℕ) (rows : List ClaimRow)
    → IsUnique rows
    → IsUnique (acquired_rows c until now rows)
unfolding acquired_rows
acquired_rows-IsUnique c until now rows u = elim (Bool-cases (insert_claim c until rows).1) [
  | inl free ↦
      rw free
        (History-IsUnique {Allowed = Anything} (next {now = now} {c = c} here tt (inserts until)) u)
  | inr there ↦
      rw there
        (after_decision-IsUnique c until now rows u (decide c now (query_row (key_is c) rows)))
]

-- A completed key is left alone.
acquired_rows-completed :
    (c : Claim) (until now : ℕ) (rows : List ClaimRow) (r : ClaimRow) (status : ℕ) (body : String)
    → query_row (key_is c) rows ≡ some (complete_row status body r)
    → acquired_rows c until now rows ≡ rows
unfolding acquired_rows insert_claim decide
acquired_rows-completed c until now rows r status body e =
    let there = query_row-affected (key_is c) rows {r = complete_row status body r} e in
    rw e (ground arith)

module _ {S : Type 0} (byte_length : String → ℕ) (lease : ℕ) (handler : S → S × ℕ × String) where
  -- What an answered request with a success has done to its key.
  record Finished (now : Conditions) (r : Request) (status : ℕ) (body : String)
      (rows rows₁ : List ClaimRow) : Type 0 where
    keyed : str_eq r.key "" ≡ false
    short : ltb 255 (byte_length r.key) ≡ false
    done :
        (complete
          (claim_of now.claim_id r)
          status
          body
          (acquired_rows (claim_of now.claim_id r) (now.now + lease) now.now rows)).1
        ≡ true
    left :
        rows₁
        ≡ (complete
            (claim_of now.claim_id r)
            status
            body
            (acquired_rows (claim_of now.claim_id r) (now.now + lease) now.now rows)).0

  finish-answered :
      (now : Conditions) (c : Claim) (code status : ℕ) (text body : String) (s s₁ : S)
      (rows rows₁ : List ClaimRow)
      → finish byte_length lease handler now c code text s rows
        ≡ ((s₁, rows₁), answered status body)
      → is_success status ≡ true
      → ((complete c status body rows).1 ≡ true) × (rows₁ ≡ (complete c status body rows).0)
  unfolding finish
  finish-answered now c code status text body s s₁ rows rows₁ h success =
      elim (Bool-cases (is_success code)) [
        | inr failed ↦
            let h = rw failed at h in
            let same : code ≡ status = ground arith in absurd (ground arith)
        | inl good ↦ elim (Bool-cases now.complete_fails) [
          | inl fails ↦ let h = rw (good, fails) at h in absurd cc
          | inr kept ↦ elim (Bool-cases (complete c code text rows).1) [
            | inr undone ↦ let h = rw (good, kept, undone) at h in absurd cc
            | inl done ↦
                let h = rw (good, kept, done) at h in
                let same_code : code ≡ status = ground arith in
                let same_text : text ≡ body = ground arith in
                rw (sym same_code, sym same_text) (done, ground arith)
          ]
        ]
      ]

  on_outcome-finished :
      (now : Conditions) (c : Claim) (o : Outcome) (s s₁ : S) (rows rows₁ : List ClaimRow)
      (status : ℕ) (body : String)
      → on_outcome byte_length lease handler now c o s rows ≡ ((s₁, rows₁), answered status body)
      → is_success status ≡ true
      → ((complete c status body rows).1 ≡ true) × (rows₁ ≡ (complete c status body rows).0)
  unfolding on_outcome
  on_outcome-finished now c execute s s₁ rows rows₁ status body h success =
      finish-answered now c (handler s).1 status (handler s).2 body (handler s).0 s₁ rows rows₁ h
        success
  on_outcome-finished now c in_progress s s₁ rows rows₁ status body h success = absurd cc
  on_outcome-finished now c conflict s s₁ rows rows₁ status body h success = absurd cc
  on_outcome-finished now c (replay x y) s s₁ rows rows₁ status body h success = absurd cc

  idempotent-Finished :
      (now : Conditions) (r : Request) (s s₁ : S) (rows rows₁ : List ClaimRow) (status : ℕ)
      (body : String)
      → idempotent byte_length lease handler now r (s, rows) ≡ ((s₁, rows₁), answered status body)
      → is_success status ≡ true
      → Finished now r status body rows rows₁
  unfolding idempotent
  idempotent-Finished now r s s₁ rows rows₁ status body h success =
      let c = claim_of now.claim_id r in
      let rows' = acquired_rows c (now.now + lease) now.now rows in
      elim (Bool-cases (str_eq r.key "")) [
        | inl blank ↦ let h = rw blank at h in absurd cc
        | inr keyed ↦ elim (Bool-cases (ltb 255 (byte_length r.key))) [
          | inl long ↦ let h = rw (keyed, long) at h in absurd cc
          | inr short ↦ elim (Bool-cases now.claim_fails) [
            | inl fails ↦ let h = rw (keyed, short, fails) at h in absurd cc
            | inr claims ↦
                let h = rw (keyed, short, claims) at h in
                let (done, left) =
                  on_outcome-finished now c (acquire c lease (λ _. alone now.now rows)) s s₁ rows'
                    rows₁ status body h success in
                record { keyed = keyed; short = short; done = done; left = left }
          ]
        ]
      ]

-- After a request with a fingerprint is answered with a success, and whatever statements of other
-- requests run in between, a later request with its key does not run its handler: the state and the
-- table stay as they were, and the answer is the stored status and body where its fingerprint is the
-- same, and a 409 where it is another one.
pub idempotent-once :
    {S : Type 0} (byte_length : String → ℕ) (lease : ℕ) (handler later : S → S × ℕ × String)
    (now now' : Conditions) (r : Request) (s s₁ s₂ : S) (rows rows₁ rows₂ : List ClaimRow)
    (status : ℕ) (body print : String)
    → IsUnique rows
    → idempotent byte_length lease handler now r (s, rows) ≡ ((s₁, rows₁), answered status body)
    → is_success status ≡ true
    → History Anything rows₁ rows₂
    → now'.claim_fails ≡ false
    → r.fingerprint ≢ ""
    → idempotent byte_length lease later now' (record r { fingerprint = print }) (s₂, rows₂) ≡ (
      (s₂, rows₂),
      if str_eq print r.fingerprint
          then replayed status body
          else refused 409 "IDEMPOTENCY_KEY_REUSED",
    )
unfolding idempotent on_outcome
idempotent-once byte_length lease handler later now now' r s s₁ s₂ rows rows₁ rows₂ status body
      print u h success between up known =
    let f =
      idempotent-Finished byte_length lease handler now r s s₁ rows rows₁ status body h success in
    let c = claim_of now.claim_id r in
    let d = claim_of now'.claim_id (record r { fingerprint = print }) in
    let rows' = acquired_rows c (now.now + lease) now.now rows in
    let u' = acquired_rows-IsUnique c (now.now + lease) now.now rows u in
    let between = rw (f.left) at between in
    let (x, stored, mine) = complete-stored c status body rows' u' f.done in
    let kept = completed-History c between refl stored in
    let (replays, conflicts) =
      complete-replays c status body rows' now'.claim_id print lease (λ _. alone now'.now rows₂) u'
        f.done between here in
    let still = acquired_rows-completed d (now'.now + lease) now'.now rows₂ x status body kept in
    elim (Bool-cases (str_eq print r.fingerprint)) [
      | inl same ↦
          rw (f.keyed, f.short, up, replays ((eq_iff print r.fingerprint).0 same), still, same) refl
      | inr other ↦
          let differ : print ≢ r.fingerprint = λ e. ground (arith, eq_iff print r.fingerprint) in
          rw (f.keyed, f.short, up, conflicts differ known, still, other) refl
    ]
