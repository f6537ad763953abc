-- ===== src/Common/Keys.antt =====
-- What a condition with one row at most, as a primary key has, says of the row that a query finds.
pub mod Found
use Prim.Native.Nat.{ℕ, ◌+◌, ◌≤◌}
use mathlib.Core.Path.{◌≡◌, refl}
use mathlib.Core.Logic.{inl, inr}
use mathlib.Core.Bool.{Bool, true}
use mathlib.Core.Option.{none, some}
use mathlib.Core.List.{List, [], ◌∷◌}
use native.Mathlib.Omega.{arith}
use enterprise_integration_s.Common.Tests.{if◌then◌else◌, Bool-cases}
use enterprise_integration_s.Common.Table.{
  update_where, affected, query_row, total, affected-none_le,
}

module _ {ℓ} {R : Type ℓ} where
  query_row-none : (q : R → Bool) (rows : List R) → affected q rows ≡ 0 → query_row q rows ≡ none
  query_row-none q [] e = refl
  query_row-none q (x ∷ rows) e = ground (arith, query_row-none q rows)

  -- Where a condition has one row at most, a stronger one has that row or none.
  pub query_row_only :
      (p q : R → Bool)
      → ((r : R) → q r ≡ true → p r ≡ true)
      → (rows : List R) {r : R} → affected p rows ≤ 1
      → query_row p rows ≡ some r
      → (query_row q rows ≡ (if q r then some r else none))
        × (affected q rows ≡ (if q r then 1 else 0))
  query_row_only p q h [] one e = absurd cc
  query_row_only p q h (x ∷ rows) {r} one e = elim (Bool-cases (p x)) [
    | inl t ↦
        let rest : affected q rows ≡ 0 = affected-none_le p q h rows (ground arith) in
        let is_x : x ≡ r = ground arith in ground (arith, query_row-none q rows rest)
    | inr t ↦ ground (arith, h x, query_row_only p q h rows {r = r})
  ]

  -- The row that a query returns satisfies its condition.
  pub query_row_holds :
      (q : R → Bool) (rows : List R) {r : R} → query_row q rows ≡ some r → q r ≡ true
  query_row_holds q [] e = cc
  query_row_holds q (x ∷ rows) {r} e = ground (arith, query_row_holds q rows {r = r})

  total-update_none :
      (q : R → Bool) (f : R → R) (w : R → ℕ) (rows : List R)
      → affected q rows ≡ 0
      → total w (update_where q f rows) ≡ total w rows
  total-update_none q f w [] e = refl
  total-update_none q f w (x ∷ rows) e = ground (arith, total-update_none q f w rows)

  pub affected-query_none :
      (q : R → Bool) (rows : List R) → query_row q rows ≡ none → affected q rows ≡ 0
  affected-query_none q [] e = refl
  affected-query_none q (x ∷ rows) e = ground (arith, affected-query_none q rows)

  -- A statement whose condition has one row at most moves a column's sum as it moves that row.
  pub total-update_found :
      (q : R → Bool) (f : R → R) (w : R → ℕ) (rows : List R) {r : R}
      → affected q rows ≤ 1
      → query_row q rows ≡ some r
      → total w (update_where q f rows) + w r ≡ total w rows + w (f r)
  total-update_found q f w [] one e = absurd cc
  total-update_found q f w (x ∷ rows) {r} one e = elim (Bool-cases (q x)) [
    | inl t ↦
        let rest : affected q rows ≡ 0 = ground arith in
        let is_x : x ≡ r = ground arith in
        let same = total-update_none q f w rows rest in rw (t, is_x, same) (omega arith)
    | inr t ↦
        let later : query_row q rows ≡ some r = ground arith in
        let few : affected q rows ≤ 1 = ground arith in
        rw t (omega (arith, total-update_found q f w rows few later))
  ]
