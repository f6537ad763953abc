-- ===== src/Common/Keys/Found.antt =====
-- Rows that a key tells apart, each found by its key.
use Prim.Native.Nat.{ℕ, ◌+◌, ◌≤◌}
use Prim.Native.String.{String}
use mathlib.Core.Path.{◌≡◌, refl}
use mathlib.Core.Bool.{Bool, true, false, ◌&&◌}
use mathlib.Core.Option.{some}
use mathlib.Core.List.{List, [], ◌∷◌, ◌++◌}
use native.Mathlib.Omega.{arith}
use text.Mathlib.Text.{◌==◌ as str_eq}
use text.Mathlib.TextEquality.{eq_iff}
use enterprise_integration_s.Common.Tests.{length}
use enterprise_integration_s.Common.Table.{affected, total, query_row, select_where, All}

module _ {ℓ} {R : Type ℓ} where
  pub affected-none :
      (q : R → Bool) (rows : List R) → affected q rows ≡ 0 → All (λ r. q r ≡ false) rows
  affected-none q [] e = tt
  affected-none q (r ∷ rows) e = (ground arith, affected-none q rows (ground arith))

  pub All-both {κ μ ν} :
      {P : R → Type κ} {Q : R → Type μ} {S : R → Type ν}
      → ((r : R) → P r → Q r → S r)
      → (rows : List R) → All P rows
      → All Q rows
      → All S rows
  All-both h [] a b = tt
  All-both h (r ∷ rows) a b = (h r a.0 b.0, All-both h rows a.1 b.1)

  pub All-append {κ} :
      (P : R → Type κ) (rows more : List R) → All P rows → All P more → All P (rows ++ more)
  All-append P [] more a b = b
  All-append P (r ∷ rows) more a b = (a.0, All-append P rows more a.1 b)

  pub affected-append :
      (q : R → Bool) (rows more : List R)
      → affected q (rows ++ more) ≡ affected q rows + affected q more
  affected-append q [] more = omega arith
  affected-append q (r ∷ rows) more = omega (arith, affected-append q rows more)

  pub total-append :
      (w : R → ℕ) (rows more : List R) → total w (rows ++ more) ≡ total w rows + total w more
  total-append w [] more = omega arith
  total-append w (r ∷ rows) more = omega (arith, total-append w rows more)

  pub length-append : (rows more : List R) → length (rows ++ more) ≡ length rows + length more
  length-append [] more = omega arith
  length-append (r ∷ rows) more = omega (arith, length-append rows more)

  pub append_assoc : (a b c : List R) → (a ++ b) ++ c ≡ a ++ (b ++ c)
  append_assoc [] b c = refl
  append_assoc (r ∷ a) b c = rw (append_assoc a b c) refl

  pub affected-select_where :
      (p q : R → Bool) (rows : List R)
      → affected q (select_where p rows) ≡ affected (λ r. p r && q r) rows
  affected-select_where p q [] = refl
  affected-select_where p q (r ∷ rows) = ground (arith, affected-select_where p q rows)

  -- Where no two rows have the same key, each row is the one that its key finds.
  pub keyed_found :
      (key : R → String) (rows : List R)
      → ((k : String) → affected (λ r. str_eq (key r) k) rows ≤ 1)
      → All (λ r. query_row (λ x. str_eq (key x) (key r)) rows ≡ some r) rows
  keyed_found key [] one = tt
  keyed_found key (x ∷ rows) one =
      let self : str_eq (key x) (key x) ≡ true = ground (arith, eq_iff (key x) (key x)) in
      let others : affected (λ r. str_eq (key r) (key x)) rows ≡ 0 = ground (arith, one (key x)) in
      let few : (k : String) → affected (λ r. str_eq (key r) k) rows ≤ 1 =
        λ k. ground (arith, one k) in
      (
        rw self refl,
        All-both (λ r apart found. ground (arith, eq_iff (key x) (key r), eq_iff (key r) (key x)))
            rows (affected-none (λ r. str_eq (key r) (key x)) rows others)
            (keyed_found key rows few),
      )
