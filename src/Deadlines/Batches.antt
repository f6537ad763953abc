-- ===== src/Deadlines/Batches.antt =====
-- A batch of overdue orders over the PostgreSQL repository.
use enterprise_integration_s.Common.{
  ℕ, ◌≡◌, refl, String, true, List, [], ◌∷◌, Result-cases, ok, err, str_eq, arith, inl, inr,
}
use enterprise_integration_s.Common.Table.{update_where}
use enterprise_integration_s.Orders.Provider.{Strings}
use enterprise_integration_s.Orders.State.{Error, LifecycleState, is_deadline_not_eligible}
use enterprise_integration_s.Orders.Service.{Service}
use enterprise_integration_s.Orders.UseCases.{
  check_deadline, overdue_update, cancel_overdue, cancel_overdue_op,
}
use enterprise_integration_s.Store.{Db, Env}
use enterprise_integration_s.Events.{record_event}
use enterprise_integration_s.Inventory.Invariant.{HasRoom, Inv}
use enterprise_integration_s.Inventory.Invariant.Release.{release-Inv, release-total}
use enterprise_integration_s.Inventory.Holding.{release}
use enterprise_integration_s.Repository.{
  inventory_error-err, lock_order, updated_order, update_order, in_transaction,
  lifecycle_transaction, postgres_repository,
}
use enterprise_integration_s.Repository.Cancellation.{healthy, Inv-stock}
use enterprise_integration_s.Deadlines.{
  DeadlineCandidate, job_error, process_candidate, process_deadline_batch,
}

-- A refused deadline is an error that the batch ignores.
check_deadline-refused :
    (state : LifecycleState) (reason : String) (now : ℕ) (e : Error)
    → check_deadline state reason now ≡ err e
    → is_deadline_not_eligible e ≡ true
unfolding check_deadline is_deadline_not_eligible
check_deadline-refused state reason now e h = ground arith

-- Over a healthy connection, the job of a candidate keeps the accounting invariants. It reports no
-- error where the order can be read and products.stock has room for what the order still holds.
pub process_candidate-Inv :
    (str : Strings) (service : Service) (env : Env) (reason : String) (c : DeadlineCandidate)
    (db : Db)
    → Inv db
    → Inv (process_candidate str service (postgres_repository env healthy) reason c db).0
      × ((state : LifecycleState)
          → lock_order c.shop_id c.id db ≡ ok state
          → HasRoom c.id db
          → (process_candidate str service (postgres_repository env healthy) reason c db).1 ≡ [])
unfolding process_candidate cancel_overdue cancel_overdue_op in_transaction lifecycle_transaction
    postgres_repository update_order record_event job_error
process_candidate-Inv str service env reason c db v =
    elim (Result-cases (lock_order c.shop_id c.id db)) [
      | inl (x, missing) ↦ rw missing (v, λ state found _. absurd cc)
      | inr (state, found) ↦ elim (Result-cases (check_deadline state reason service.clock)) [
        | inl (x, refused) ↦
            rw (found, refused, check_deadline-refused state reason service.clock x refused)
              (v, λ _ _ _. refl)
        | inr (event, due) ↦
            let db₁ = record db {
              orders =
                  update_where (λ r. str_eq r.id c.id)
                    (updated_order env.now (overdue_update reason)) db.orders;
            } in
            let v₁ = Inv-stock db db₁ refl refl refl v in
            (
              elim (Result-cases (release env.now c.id db₁)) [
                | inl (x, failed) ↦
                    let (_, wrapped) = inventory_error-err "release inventory" x in
                    rw (found, due, failed, wrapped) v
                | inr (db₂, done) ↦
                    let (v₂, _, _) = release-Inv env.now c.id db₁ db₂ done v₁ in
                    rw (found, due, done) (Inv-stock db₂ _ refl refl refl v₂)
              ],
              λ _ _ room.
                  let (db₂, done, _, _, _) = release-total env.now c.id db₁ v₁ room in
                  rw (found, due, done) refl,
            )
      ]
    ]

-- Whatever has become of its candidates since they were claimed, a batch keeps the accounting
-- invariants of the stock.
pub process_deadline_batch-Inv :
    (str : Strings) (service : Service) (env : Env) (reason : String) (cs : List DeadlineCandidate)
    (db : Db)
    → Inv db
    → Inv (process_deadline_batch str service (postgres_repository env healthy) reason cs db).0
unfolding process_deadline_batch
process_deadline_batch-Inv str service env reason [] db v = v
process_deadline_batch-Inv str service env reason (c ∷ cs) db v =
    process_deadline_batch-Inv str service env reason cs _
      (process_candidate-Inv str service env reason c db v).0
