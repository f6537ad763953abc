-- ===== src/Common/Sorting/Laws.antt =====
-- Sorting keeps what all rows satisfy, and how many rows satisfy a condition.
use Prim.Native.Nat.{ℕ}
use mathlib.Core.Path.{◌≡◌, refl}
use mathlib.Core.Logic.{inl, inr}
use mathlib.Core.Bool.{Bool}
use mathlib.Core.List.{List, [], ◌∷◌}
use native.Mathlib.Omega.{arith}
use enterprise_integration_s.Common.Tests.{Bool-cases}
use enterprise_integration_s.Common.Table.{affected, total, All}
use enterprise_integration_s.Common.Sorting.{insert_sorted, sort_by}

module _ {ℓ} {A : Type ℓ} (before : A → A → Bool) where
  affected-insert_sorted :
      (q : A → Bool) (x : A) (ys : List A)
      → affected q (insert_sorted before x ys) ≡ affected q (x ∷ ys)
  unfolding insert_sorted
  affected-insert_sorted q x [] = refl
  affected-insert_sorted q x (y ∷ ys) = ground (arith, affected-insert_sorted q x ys)

  pub affected-sort_by :
      (q : A → Bool) (xs : List A) → affected q (sort_by before xs) ≡ affected q xs
  unfolding sort_by
  affected-sort_by q [] = refl
  affected-sort_by q (x ∷ xs) =
      ground (arith, affected-insert_sorted q x (sort_by before xs), affected-sort_by q xs)

  All-insert_sorted {κ} :
      (P : A → Type κ) (x : A) (ys : List A) → P x → All P ys → All P (insert_sorted before x ys)
  unfolding insert_sorted
  All-insert_sorted P x [] p ps = (p, tt)
  All-insert_sorted P x (y ∷ ys) p ps = elim (Bool-cases (before y x)) [
    | inl e ↦ rw e (ps.0, All-insert_sorted P x ys p ps.1)
    | inr e ↦ rw e (p, ps)
  ]

  pub All-sort_by {κ} : (P : A → Type κ) (xs : List A) → All P xs → All P (sort_by before xs)
  unfolding sort_by
  All-sort_by P [] ps = tt
  All-sort_by P (x ∷ xs) ps = All-insert_sorted P x (sort_by before xs) ps.0 (All-sort_by P xs ps.1)

  total-insert_sorted :
      (w : A → ℕ) (x : A) (ys : List A) → total w (insert_sorted before x ys) ≡ total w (x ∷ ys)
  unfolding insert_sorted
  total-insert_sorted w x [] = refl
  total-insert_sorted w x (y ∷ ys) = ground (arith, total-insert_sorted w x ys)

  pub total-sort_by : (w : A → ℕ) (xs : List A) → total w (sort_by before xs) ≡ total w xs
  unfolding sort_by
  total-sort_by w [] = refl
  total-sort_by w (x ∷ xs) =
      ground (arith, total-insert_sorted w x (sort_by before xs), total-sort_by w xs)
