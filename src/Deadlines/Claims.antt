-- ===== src/Deadlines/Claims.antt =====
-- The lease of claimDeadlineBatch.
use enterprise_integration_s.Common.{
  ℕ, ◌+◌, ◌*◌, ◌<◌, ◌≡◌, String, Bool, true, false, List, [], ◌∷◌, arith, inl, inr, Bool-cases,
}
use enterprise_integration_s.Common.Table.{All, update_where}
use enterprise_integration_s.Store.{OrderRow}
use enterprise_integration_s.Deadlines.{
  Rule, claimable, chosen, is_among, claimed_row, lease_milliseconds, claim_deadline_batch,
}

leased_rows :
    (cs : List OrderRow) (rule : Rule) (now later ms : ℕ) (rows : List OrderRow)
    → later < now + ms * 1000
    → All
        (λ o. is_among cs o ≡ true → claimable rule later o ≡ false)
        (update_where (is_among cs) (claimed_row now ms) rows)
leased_rows cs rule now later ms [] early = tt
leased_rows cs rule now later ms (o ∷ rows) early = elim (Bool-cases (is_among cs o)) [
  | inl e ↦ rw e ((λ t. ground arith), leased_rows cs rule now later ms rows early)
  | inr e ↦ rw e ((λ t. absurd (ground arith)), leased_rows cs rule now later ms rows early)
]

-- While the lease of a batch runs, none of its orders can be claimed again, under either rule and by
-- any worker that finds the table as the claim left it.
pub claim_deadline_batch-exclusive :
    (rule again : Rule) (batch lease now later : ℕ) (locked : String → Bool) (rows : List OrderRow)
    → later < now + lease_milliseconds lease * 1000
    → All
        (λ o.
          is_among (chosen rule batch now locked rows) o ≡ true → claimable again later o ≡ false)
        (claim_deadline_batch rule batch lease now locked rows).0
unfolding claim_deadline_batch
claim_deadline_batch-exclusive rule again batch lease now later locked rows early =
    leased_rows (chosen rule batch now locked rows) again now later (lease_milliseconds lease) rows
      early
