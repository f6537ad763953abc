-- ===== src/Deadlines/Draining.antt =====
-- One claimed batch leaves less to claim.
use enterprise_integration_s.Common.{
  ℕ, zero, suc, ◌+◌, ◌≤◌, ◌<◌, ◌≡◌, ◌≢◌, refl, String, Bool, true, false, ◌&&◌, not, str_eq, eq_iff,
  List, [], ◌∷◌, arith, Bool-cases, List-cases, inl, inr, length,
}
use enterprise_integration_s.Common.Table.{
  affected, All, All-map, update_where, select_where, affected-le,
}
use enterprise_integration_s.Common.Keys.Found.{affected-select_where}
use enterprise_integration_s.Common.Sorting.{sort_by, take}
use enterprise_integration_s.Common.Sorting.Laws.{affected-sort_by, All-sort_by}
use enterprise_integration_s.Store.{OrderRow}
use enterprise_integration_s.Deadlines.{
  Rule, claimable, due_before, chosen, is_among, claimed_row, lease_milliseconds,
}

pub affected-update_where_le :
    {R : Type 0} (p q : R → Bool) (f : R → R)
    → ((r : R) → q r ≡ true → p (f r) ≡ true → p r ≡ true)
    → (rows : List R) → affected p (update_where q f rows) ≤ affected p rows
affected-update_where_le p q f h [] = omega arith
affected-update_where_le p q f h (r ∷ rows) =
    ground (arith, h r, affected-update_where_le p q f h rows)

affected-update_where_lt :
    {R : Type 0} (p q : R → Bool) (f : R → R)
    → ((r : R) → q r ≡ true → p (f r) ≡ false)
    → (rows : List R)
    → affected p (update_where q f rows) + affected (λ r. p r && q r) rows ≤ affected p rows
affected-update_where_lt p q f h [] = omega arith
affected-update_where_lt p q f h (r ∷ rows) =
    ground (arith, h r, affected-update_where_lt p q f h rows)

All-take {κ} :
    {R : Type 0} (P : R → Type κ) (n : ℕ) (rows : List R) → All P rows → All P (take n rows)
unfolding take
All-take P zero rows a = tt
All-take P (suc n) [] a = tt
All-take P (suc n) (r ∷ rows) a = (a.0, All-take P n rows a.1)

take-some : {R : Type 0} (n : ℕ) (r : R) (rows : List R) → 1 ≤ n → length (take n (r ∷ rows)) ≢ 0
unfolding take
take-some zero r rows h e = absurd (omega arith)
take-some (suc n) r rows h e = absurd (omega arith)

-- Each selected row is there to be counted.
select-counted :
    (p : OrderRow → Bool) (rows : List OrderRow)
    → All (λ o. 1 ≤ affected (λ x. p x && str_eq x.id o.id) rows) (select_where p rows)
select-counted p [] = tt
select-counted p (r ∷ rows) =
    let later : All (λ o. 1 ≤ affected (λ x. p x && str_eq x.id o.id) (r ∷ rows))
        (select_where p rows) =
      All-map (λ o some_there. omega (arith, some_there)) (select_where p rows)
        (select-counted p rows) in
    elim (Bool-cases (p r)) [
      | inl e ↦ rw e (rw ((eq_iff r.id r.id).1 refl) (omega arith), rw e at later)
      | inr e ↦ rw e (rw e at later)
    ]

module _ (rule : Rule) (batch now : ℕ) (locked : String → Bool) where
  -- An order that is due and that no other transaction has locked.
  abbrev pub waiting : OrderRow → Bool
  waiting o = claimable rule now o && not (locked o.id)

  chosen-counted :
      (rows : List OrderRow)
      → All
          (λ o. 1 ≤ affected (λ x. waiting x && str_eq x.id o.id) rows)
          (chosen rule batch now locked rows)
  unfolding chosen
  chosen-counted rows =
      All-take (λ o. 1 ≤ affected (λ x. waiting x && str_eq x.id o.id) rows) batch
        (sort_by (due_before rule) (select_where waiting rows))
        (All-sort_by (due_before rule) (λ o. 1 ≤ affected (λ x. waiting x && str_eq x.id o.id) rows)
          (select_where waiting rows) (select-counted waiting rows))

  among-counted :
      (rows cs : List OrderRow)
      → All (λ o. 1 ≤ affected (λ x. waiting x && str_eq x.id o.id) rows) cs
      → 1 ≤ length cs
      → 1 ≤ affected (λ x. waiting x && is_among cs x) rows
  among-counted rows [] a h = absurd (omega arith)
  among-counted rows (c ∷ cs) a h =
      let fewer =
        affected-le (λ x. waiting x && str_eq x.id c.id) (λ x. waiting x && is_among (c ∷ cs) x)
          (λ x e. ground arith) rows in
      omega (arith, a.0, fewer)

  -- A batch that claims no order has none to claim.
  pub chosen-none :
      (rows : List OrderRow)
      → 1 ≤ batch
      → length (chosen rule batch now locked rows) ≡ 0
      → affected waiting rows ≡ 0
  unfolding chosen
  chosen-none rows some_batch e =
      let sorted = sort_by (due_before rule) (select_where waiting rows) in
      let counted = affected-sort_by (due_before rule) waiting (select_where waiting rows) in
      let selected = affected-select_where waiting waiting rows in
      let same = affected-le waiting (λ o. waiting o && waiting o) (λ o h. ground arith) rows in
      elim (List-cases sorted) [
        | inl empty ↦ let counted = rw empty at counted in omega (arith, counted, selected, same)
        | inr (o, rest, some_there) ↦
            absurd (take-some batch o rest some_batch (rw (← some_there) e))
      ]

-- An order that is claimed is not due under any rule while its lease lasts.
claimed-not :
    (rule : Rule) (now ms : ℕ) (locked : String → Bool) (o : OrderRow)
    → 1 ≤ ms
    → waiting rule 0 now locked (claimed_row now ms o) ≡ false
claimed-not rule now ms locked o some_ms = ground arith

module _ (rule : Rule) (batch lease now : ℕ) (locked : String → Bool) (rows : List OrderRow) where
  abbrev pub claimed_rows : List OrderRow
  claimed_rows =
      update_where (is_among (chosen rule batch now locked rows))
        (claimed_row now (lease_milliseconds lease)) rows

  -- A claim leaves no more to claim under any rule.
  pub claimed-le :
      (other : Rule)
      → affected (waiting other batch now locked) claimed_rows
        ≤ affected (waiting other batch now locked) rows
  claimed-le other =
      affected-update_where_le (waiting other batch now locked)
        (is_among (chosen rule batch now locked rows)) (claimed_row now (lease_milliseconds lease))
        (λ o _ h. absurd (
          ground (arith, claimed-not other now (lease_milliseconds lease) locked o (ground arith))))
        rows

  -- A claim of some order leaves less to claim.
  pub claimed-lt :
      1 ≤ length (chosen rule batch now locked rows)
      → affected (waiting rule batch now locked) claimed_rows
        < affected (waiting rule batch now locked) rows
  claimed-lt some_order =
      let cs = chosen rule batch now locked rows in
      let among =
        among-counted rule batch now locked rows cs (chosen-counted rule batch now locked rows)
          some_order in
      let left =
        affected-update_where_lt (waiting rule batch now locked) (is_among cs)
          (claimed_row now (lease_milliseconds lease))
          (λ o _. claimed-not rule now (lease_milliseconds lease) locked o (ground arith)) rows in
      omega (arith, among, left)
