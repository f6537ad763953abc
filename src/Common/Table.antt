-- ===== src/Common/Table.antt =====
-- SQL statements on a table, which is the list of its rows: UPDATE ... WHERE and its number of
-- affected rows, SELECT of one row, and the sum of a column.
use Prim.Native.Nat.{ℕ, ◌+◌, ◌*◌, ◌≤◌}
use mathlib.Core.Path.{◌≡◌, refl}
use mathlib.Core.Logic.{inl, inr}
use mathlib.Core.Bool.{Bool, true, false}
use mathlib.Core.Option.{Option, none, some}
use mathlib.Core.List.{List, [], ◌∷◌}
use native.Mathlib.Omega.{arith}
use enterprise_integration_s.Common.Tests.{if◌then◌else◌, Bool-cases}

module _ {ℓ} {R : Type ℓ} where
  -- UPDATE table SET f WHERE q
  abbrev pub update_where : (R → Bool) → (R → R) → List R → List R
  update_where q f [] = []
  update_where q f (r ∷ rows) = (if q r then f r else r) ∷ update_where q f rows

  -- RowsAffected of a statement with WHERE q
  abbrev pub affected : (R → Bool) → List R → ℕ
  affected q [] = 0
  affected q (r ∷ rows) = (if q r then 1 else 0) + affected q rows

  -- SELECT * FROM table WHERE q, in the order of the rows
  abbrev pub select_where : (R → Bool) → List R → List R
  select_where q [] = []
  select_where q (r ∷ rows) = let rest = select_where q rows in if q r then r ∷ rest else rest

  -- DELETE FROM table WHERE q
  abbrev pub delete_where : (R → Bool) → List R → List R
  delete_where q [] = []
  delete_where q (r ∷ rows) = let rest = delete_where q rows in if q r then rest else r ∷ rest

  -- QueryRow: the first row; `none` is pgx.ErrNoRows
  abbrev pub query_row : (R → Bool) → List R → Option R
  query_row q [] = none
  query_row q (r ∷ rows) = let rest = query_row q rows in if q r then some r else rest

  -- SELECT sum(w) FROM table
  abbrev pub total : (R → ℕ) → List R → ℕ
  total w [] = 0
  total w (r ∷ rows) = w r + total w rows

  abbrev pub All {κ} : (R → Type κ) → List R → Type κ
  All P [] = Unit
  All P (r ∷ rows) = P r × All P rows

module _ {ℓ} {R : Type ℓ} where
  -- A column changes by the same amount in every affected row, so its sum changes by the amount
  -- times the number of affected rows.
  pub total-update_where :
      (q : R → Bool) (f : R → R) (w : R → ℕ) (a b : ℕ)
      → ((r : R) → q r ≡ true → w (f r) + a ≡ w r + b)
      → (rows : List R)
      → total w (update_where q f rows) + affected q rows * a ≡ total w rows + affected q rows * b
  total-update_where q f w a b h [] = omega arith
  total-update_where q f w a b h (r ∷ rows) = elim (Bool-cases (q r)) [
    | inl e ↦ rw e (omega (arith, h r e, total-update_where q f w a b h rows))
    | inr e ↦ rw e (omega (arith, total-update_where q f w a b h rows))
  ]

  -- A column that the statement leaves alone keeps its sum.
  pub total-update_where_same :
      (q : R → Bool) (f : R → R) (w : R → ℕ)
      → ((r : R) → q r ≡ true → w (f r) ≡ w r)
      → (rows : List R) → total w (update_where q f rows) ≡ total w rows
  total-update_where_same q f w h [] = refl
  total-update_where_same q f w h (r ∷ rows) = elim (Bool-cases (q r)) [
    | inl e ↦ rw e (omega (arith, h r e, total-update_where_same q f w h rows))
    | inr e ↦ rw e (omega (arith, total-update_where_same q f w h rows))
  ]

  pub All-update_where {κ} :
      (P : R → Type κ) (q : R → Bool) (f : R → R)
      → ((r : R) → q r ≡ true → P r → P (f r))
      → (rows : List R) → All P rows
      → All P (update_where q f rows)
  All-update_where P q f h [] a = tt
  All-update_where P q f h (r ∷ rows) a = elim (Bool-cases (q r)) [
    | inl e ↦ rw e (h r e a.0, All-update_where P q f h rows a.1)
    | inr e ↦ rw e (a.0, All-update_where P q f h rows a.1)
  ]

  -- The row that a query returns satisfies its condition, and whatever all rows satisfy.
  pub query_row-All {κ} :
      (P : R → Type κ) (q : R → Bool) (rows : List R) {r : R}
      → query_row q rows ≡ some r
      → All P rows
      → P r × (q r ≡ true)
  query_row-All P q [] e a = cc
  query_row-All P q (x ∷ rows) {r} e a = elim (Bool-cases (q x)) [
    | inl t ↦ ground arith
    | inr t ↦ ground (arith, query_row-All P q rows {r = r})
  ]

  pub All-map {κ μ} :
      {P : R → Type κ} {Q : R → Type μ}
      → ((r : R) → P r → Q r)
      → (rows : List R) → All P rows
      → All Q rows
  All-map h [] a = tt
  All-map h (r ∷ rows) a = (h r a.0, All-map h rows a.1)

  -- A statement that affects one row moves a column's sum as it moves that row.
  pub total-update_one :
      (q : R → Bool) (f : R → R) (w : R → ℕ) (a b : ℕ) (rows : List R)
      → affected q rows ≡ 1
      → ((r : R) → q r ≡ true → w (f r) + a ≡ w r + b)
      → total w (update_where q f rows) + a ≡ total w rows + b
  total-update_one q f w a b rows one h =
      let moved = rw one at (total-update_where q f w a b h rows) in omega arith

  -- A statement that keeps a condition's columns keeps the number of rows that satisfy it.
  pub affected-update_where :
      (p q : R → Bool) (f : R → R)
      → ((r : R) → p (f r) ≡ p r)
      → (rows : List R) → affected p (update_where q f rows) ≡ affected p rows
  affected-update_where p q f h [] = refl
  affected-update_where p q f h (r ∷ rows) = elim (Bool-cases (q r)) [
    | inl e ↦ rw (e, h r) (omega (arith, affected-update_where p q f h rows))
    | inr e ↦ rw e (omega (arith, affected-update_where p q f h rows))
  ]

  -- A stronger condition affects no more rows.
  pub affected-le :
      (p q : R → Bool)
      → ((r : R) → p r ≡ true → q r ≡ true)
      → (rows : List R) → affected p rows ≤ affected q rows
  affected-le p q h [] = omega arith
  affected-le p q h (r ∷ rows) = elim (Bool-cases (p r)) [
    | inl e ↦ rw (e, h r e) (omega (arith, affected-le p q h rows))
    | inr e ↦ rw e (omega (arith, affected-le p q h rows))
  ]

  -- A query that finds a row has one to find.
  pub query_row-affected :
      (q : R → Bool) (rows : List R) {r : R} → query_row q rows ≡ some r → 1 ≤ affected q rows
  query_row-affected q [] e = cc
  query_row-affected q (x ∷ rows) {r} e = elim (Bool-cases (q x)) [
    | inl t ↦ rw t (omega arith)
    | inr t ↦ ground (arith, query_row-affected q rows {r = r})
  ]

module _ {ℓ} {R : Type ℓ} where
  -- A statement that keeps a condition's columns keeps the first row that satisfies it, updated.
  pub query_row-update_where :
      (p q : R → Bool) (f : R → R)
      → ((r : R) → p (f r) ≡ p r)
      → (rows : List R) {r : R} → query_row p rows ≡ some r
      → query_row p (update_where q f rows) ≡ some (if q r then f r else r)
  query_row-update_where p q f h [] e = cc
  query_row-update_where p q f h (x ∷ rows) {r} e =
      ground (arith, h x, query_row-update_where p q f h rows {r = r})

  pub query_row-delete_where :
      (p q : R → Bool) (rows : List R) {r : R}
      → query_row p rows ≡ some r
      → q r ≡ false
      → query_row p (delete_where q rows) ≡ some r
  query_row-delete_where p q [] e n = cc
  query_row-delete_where p q (x ∷ rows) {r} e n =
      ground (arith, query_row-delete_where p q rows {r = r})

  pub affected-delete_where :
      (p q : R → Bool) (rows : List R) → affected p (delete_where q rows) ≤ affected p rows
  affected-delete_where p q [] = omega arith
  affected-delete_where p q (x ∷ rows) = ground (arith, affected-delete_where p q rows)

  -- A statement that affects no row changes no count.
  pub affected-update_where_none :
      (p q : R → Bool) (f : R → R) (rows : List R)
      → affected q rows ≡ 0
      → affected p (update_where q f rows) ≡ affected p rows
  affected-update_where_none p q f [] e = refl
  affected-update_where_none p q f (x ∷ rows) e =
      ground (arith, affected-update_where_none p q f rows)

  -- A statement that brings no row under a condition leaves none under it.
  pub affected-update_where_zero :
      (p q : R → Bool) (f : R → R)
      → ((r : R) → q r ≡ true → p (f r) ≡ true → p r ≡ true)
      → (rows : List R) → affected p rows ≡ 0
      → affected p (update_where q f rows) ≡ 0
  affected-update_where_zero p q f h [] e = refl
  affected-update_where_zero p q f h (x ∷ rows) e =
      ground (arith, affected-update_where_zero p q f h rows, h x)

  pub affected-none_le :
      (p q : R → Bool)
      → ((r : R) → q r ≡ true → p r ≡ true)
      → (rows : List R) → affected p rows ≡ 0
      → affected q rows ≡ 0
  affected-none_le p q h rows e = omega (arith, affected-le q p h rows)

  -- Where a condition has one row at most, a stronger one that has a row has that one.
  pub query_row_unique :
      (p q : R → Bool)
      → ((r : R) → q r ≡ true → p r ≡ true)
      → (rows : List R) → affected p rows ≤ 1
      → affected q rows ≡ 1
      → (r : R) × (query_row p rows ≡ some r) × (q r ≡ true)
  query_row_unique p q h [] a b = absurd (omega arith)
  query_row_unique p q h (x ∷ rows) a b = elim (Bool-cases (q x)) [
    | inl t ↦ (x, rw (h x t) refl, t)
    | inr t ↦ elim (Bool-cases (p x)) [
      | inl s ↦ absurd (ground (arith, affected-none_le p q h rows))
      | inr s ↦
          let (r, found, holds) = query_row_unique p q h rows (ground arith) (ground arith) in
          (r, ground arith, holds)
    ]
  ]
