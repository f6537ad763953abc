-- ===== src/Deadlines/Drained.antt =====
-- The loop of enforceOrderDeadlines ends, with no due order left unclaimed.
use enterprise_integration_s.Common.{
  ℕ, zero, suc, ◌+◌, ◌≤◌, ◌<◌, ◌≡◌, ◌≢◌, refl, String, Bool, true, ◌&&◌, str_eq, ltb, ◌==◌, List,
  [], ◌∷◌, ◌++◌, map, Option, some, arith, Bool-cases, Result-cases, inl, inr, length,
}
use enterprise_integration_s.Common.Table.{affected, update_where}
use enterprise_integration_s.Orders.Provider.{Strings}
use enterprise_integration_s.Orders.State.{Error}
use enterprise_integration_s.Orders.Service.{Service}
use enterprise_integration_s.Orders.UseCases.{
  check_deadline, overdue_update, cancel_overdue, cancel_overdue_op,
}
use enterprise_integration_s.Store.{OrderRow, Db, Env}
use enterprise_integration_s.Events.{record_event}
use enterprise_integration_s.Inventory.Invariant.{Inv}
use enterprise_integration_s.Inventory.Invariant.Release.{release-Inv}
use enterprise_integration_s.Inventory.Holding.{release}
use enterprise_integration_s.Repository.{
  inventory_error-err, lock_order, updated_order, update_order, in_transaction,
  lifecycle_transaction, postgres_repository,
}
use enterprise_integration_s.Repository.Cancellation.{healthy, Inv-stock}
use enterprise_integration_s.Deadlines.{
  Rule, payment_rule, seller_rule, reason_of_rule, DeadlineCandidate, candidate_of, chosen,
  claim_deadline_batch, process_candidate, process_deadline_batch, enforce_rule,
  enforce_order_deadlines,
}
use enterprise_integration_s.Deadlines.Batches.{process_candidate-Inv, process_deadline_batch-Inv}
use enterprise_integration_s.Deadlines.Draining.{
  affected-update_where_le, waiting, chosen-none, claimed_rows, claimed-le, claimed-lt,
}

module _ (str : Strings) (service : Service) (env : Env) (batch lease now : ℕ)
    (locked : String → Bool) where
  abbrev pub due : Rule → Db → ℕ
  due rule db = affected (waiting rule batch now locked) db.orders

  -- A cancelled order is due under no rule.
  overdue_not_waiting :
      (reason : String) (rule : Rule) (r : OrderRow)
      → waiting rule batch now locked (updated_order env.now (overdue_update reason) r) ≢ true
  unfolding updated_order overdue_update
  overdue_not_waiting reason payment_rule r h = ground arith
  overdue_not_waiting reason seller_rule r h = ground arith

  process_candidate-le :
      (reason : String) (c : DeadlineCandidate) (rule : Rule) (db : Db)
      → Inv db
      → due rule (process_candidate str service (postgres_repository env healthy) reason c db).0
        ≤ due rule db
  unfolding process_candidate cancel_overdue cancel_overdue_op in_transaction lifecycle_transaction
      postgres_repository update_order record_event
  process_candidate-le reason c rule db v = elim (Result-cases (lock_order c.shop_id c.id db)) [
    | inl (x, missing) ↦ rw missing (omega arith)
    | inr (state, found) ↦ elim (Result-cases (check_deadline state reason service.clock)) [
      | inl (x, refused) ↦ rw (found, refused) (omega arith)
      | inr (event, is_due) ↦
          let db₁ = record db {
            orders =
                update_where (λ r. str_eq r.id c.id) (updated_order env.now (overdue_update reason))
                  db.orders;
          } in
          elim (Result-cases (release env.now c.id db₁)) [
            | inl (x, failed) ↦
                let (_, wrapped) = inventory_error-err "release inventory" x in
                rw (found, is_due, failed, wrapped) (omega arith)
            | inr (db₂, done) ↦
                let (_, _, orders) =
                  release-Inv env.now c.id db₁ db₂ done (Inv-stock db db₁ refl refl refl v) in
                rw (found, is_due, done, orders)
                  (affected-update_where_le (waiting rule batch now locked) (λ r. str_eq r.id c.id)
                    (updated_order env.now (overdue_update reason))
                    (λ r _ h. absurd (overdue_not_waiting reason rule r h)) db.orders)
          ]
    ]
  ]

  process_deadline_batch-le :
      (reason : String) (cs : List DeadlineCandidate) (rule : Rule) (db : Db)
      → Inv db
      → due rule
          (process_deadline_batch str service (postgres_repository env healthy) reason cs db).0
        ≤ due rule db
  unfolding process_deadline_batch
  process_deadline_batch-le reason [] rule db v = omega arith
  process_deadline_batch-le reason (c ∷ cs) rule db v =
      let kept = (process_candidate-Inv str service env reason c db v).0 in
      omega (
        arith,
        process_candidate-le reason c rule db v,
        process_deadline_batch-le reason cs rule _ kept,
      )

  abbrev enforced : Rule → Db → (Db × List Error) × List DeadlineCandidate
  enforced rule db =
      enforce_rule str service (postgres_repository env healthy) batch lease now locked rule db

  length-map : {A B : Type 0} (f : A → B) (xs : List A) → length (map f xs) ≡ length xs
  length-map f [] = refl
  length-map f (x ∷ xs) = rw (length-map f xs) refl

  -- What one rule of a round does.
  record Enforced (rule : Rule) (db : Db) : Type 0 where
    invariant : Inv (enforced rule db).0.0
    fewer : (other : Rule) → due other (enforced rule db).0.0 ≤ due other db
    some_claimed : 1 ≤ length (enforced rule db).1 → due rule (enforced rule db).0.0 < due rule db
    none_claimed : 1 ≤ batch → length (enforced rule db).1 ≡ 0 → due rule db ≡ 0

  enforce_rule-Enforced : (rule : Rule) (db : Db) → Inv db → Enforced rule db
  unfolding enforce_rule claim_deadline_batch
  enforce_rule-Enforced rule db v =
      let cs = chosen rule batch now locked db.orders in
      let db₁ : Db = record db { orders = claimed_rows rule batch lease now locked db.orders } in
      let v₁ = Inv-stock db db₁ refl refl refl v in
      let names = map candidate_of cs in
      let count = length-map candidate_of cs in
      record {
        invariant = process_deadline_batch-Inv str service env (reason_of_rule rule) names db₁ v₁;
        fewer = λ other. omega (
          arith,
          process_deadline_batch-le (reason_of_rule rule) names other db₁ v₁,
          claimed-le rule batch lease now locked db.orders other,
        );
        some_claimed = λ h. omega (
          arith,
          process_deadline_batch-le (reason_of_rule rule) names rule db₁ v₁,
          claimed-lt rule batch lease now locked db.orders (omega (arith, h, count)),
        );
        none_claimed = λ some_batch h.
            chosen-none rule batch now locked db.orders some_batch (omega (arith, h, count));
      }

  abbrev second : Db → Db
  second db = (enforced seller_rule (enforced payment_rule db).0.0).0.0

  abbrev claims : Db → ℕ
  claims db =
      length (enforced payment_rule db).1
      + length (enforced seller_rule (enforced payment_rule db).0.0).1

  round-lt :
      (db : Db)
      → Enforced payment_rule db
      → Enforced seller_rule (enforced payment_rule db).0.0
      → 1 ≤ claims db
      → due payment_rule (second db) + due seller_rule (second db)
        < due payment_rule db + due seller_rule db
  round-lt db a b some_claim =
      let db₁ = (enforced payment_rule db).0.0 in
      let p = b.fewer payment_rule in
      let q = a.fewer seller_rule in
      let p' = a.fewer payment_rule in
      let q' = b.fewer seller_rule in
      elim (Bool-cases (ltb 0 (length (enforced payment_rule db).1))) [
        | inl first ↦ let less = a.some_claimed (ground arith) in omega (arith, p, q, q', less)
        | inr none_first ↦ let less = b.some_claimed (ground arith) in omega (arith, p, q, p', less)
      ]

  round-none :
      (db : Db)
      → 1 ≤ batch
      → Enforced payment_rule db
      → Enforced seller_rule (enforced payment_rule db).0.0
      → length (enforced payment_rule db).1 ≡ 0
      → length (enforced seller_rule (enforced payment_rule db).0.0).1 ≡ 0
      → (due payment_rule (second db) ≡ 0) × (due seller_rule (second db) ≡ 0)
  round-none db some_batch a b first then_second =
      let x = a.none_claimed some_batch first in
      let y = b.none_claimed some_batch then_second in
      (
        omega (arith, x, a.fewer payment_rule, b.fewer payment_rule),
        omega (arith, y, b.fewer seller_rule),
      )

  abbrev pub loop : ℕ → Db → Option (Db × List Error)
  loop =
      enforce_order_deadlines str service (postgres_repository env healthy) batch lease now locked

  abbrev pub IsDrained : Option (Db × List Error) → Type 0
  IsDrained r =
      (db' : Db) × (errors : List Error) × (r ≡ some (db', errors))
      × Inv db'
      × (due payment_rule db' ≡ 0)
      × (due seller_rule db' ≡ 0)

  -- Where the accounting invariants hold and all statements run at one instant, the loop of
  -- enforceOrderDeadlines ends after at most as many rounds as orders are due, and one more. It leaves
  -- no order that is due and not locked by another transaction unclaimed, and the invariants as they
  -- were.
  pub enforce_order_deadlines-drains :
      (fuel : ℕ) (db : Db)
      → 1 ≤ batch
      → due payment_rule db + due seller_rule db < fuel
      → Inv db
      → IsDrained (loop fuel db)
  unfolding enforce_order_deadlines
  enforce_order_deadlines-drains zero db some_batch few v = absurd (omega arith)
  enforce_order_deadlines-drains (suc fuel) db some_batch few v =
      let a = enforce_rule-Enforced payment_rule db v in
      let b = enforce_rule-Enforced seller_rule (enforced payment_rule db).0.0 a.invariant in
      elim (Bool-cases (
        length (enforced payment_rule db).1 == 0
        && length (enforced seller_rule (enforced payment_rule db).0.0).1 == 0)) [
          | inl idle ↦
              let (p, s) = round-none db some_batch a b (ground arith) (ground arith) in
              (
                second db,
                (enforced payment_rule db).0.1
                    ++ (enforced seller_rule (enforced payment_rule db).0.0).0.1,
                rw idle refl,
                b.invariant,
                p,
                s,
              )
          | inr busy ↦
              let less = round-lt db a b (ground arith) in
              let (db', errors, ended, kept, p, s) =
                enforce_order_deadlines-drains fuel (second db) some_batch
                  (omega (arith, less, few)) b.invariant in
              (
                db',
                ((enforced payment_rule db).0.1
                      ++ (enforced seller_rule (enforced payment_rule db).0.0).0.1)
                    ++ errors,
                rw (busy, ended) refl,
                kept,
                p,
                s,
              )
        ]
