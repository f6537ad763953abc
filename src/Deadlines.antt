-- ===== src/Deadlines.antt =====
-- cmd/worker/deadlines.go: claiming due orders in batches under a persisted lease, and cancelling them.
-- One claim is one statement; the rows that other transactions hold locked, which it skips, are a
-- parameter. The jobs of a batch run concurrently, each in its own transaction, so a batch is the
-- sequence of their transactions.
pub mod Claims
pub mod Draining
pub mod Drained
pub mod Batches
use enterprise_integration_s.Common.{
  ℕ, zero, suc, ◌==◌, length, ◌+◌, ◌*◌, ◌/◌, max, String, Bool, true, false, ◌&&◌, ◌||◌, not,
  Option, none, some, List, [], ◌∷◌, ◌++◌, map, str_eq, if◌then◌else◌, ltb, leb,
}
use enterprise_integration_s.Common.Table.{update_where, select_where}
use enterprise_integration_s.Common.Sorting.{sort_by, take, text_before}
use enterprise_integration_s.Orders.Status.{unpaid, paid, processing, same_status}
use enterprise_integration_s.Orders.Provider.{Strings}
use enterprise_integration_s.Orders.State.{
  Error, LifecycleRepository, is_deadline_not_eligible, wrap,
}
use enterprise_integration_s.Orders.Service.{Service, is_pending}
use enterprise_integration_s.Orders.UseCases.{
  payment_expired_reason, seller_sla_expired_reason, cancel_overdue,
}
use enterprise_integration_s.Store.{OrderRow, Db}

-- deadlineRules
pub data Rule : Type 0 where
  payment_rule seller_rule : Rule

abbrev pub reason_of_rule : Rule → String
reason_of_rule payment_rule = payment_expired_reason
reason_of_rule seller_rule = seller_sla_expired_reason

abbrev pub deadline_of : Rule → OrderRow → Option ℕ
deadline_of payment_rule o = o.payment_expires_at
deadline_of seller_rule o = o.seller_deadline_at

abbrev pub in_rule : Rule → OrderRow → Bool
in_rule payment_rule o = same_status o.status unpaid && is_pending o.payment_status
in_rule seller_rule o = same_status o.status paid || same_status o.status processing

-- column<=now(), which is not true of NULL
abbrev pub reached : Option ℕ → ℕ → Bool
reached none now = false
reached (some at) now = leb at now

-- deadline_claimed_until IS NULL OR deadline_claimed_until<=now()
abbrev pub is_free : Option ℕ → ℕ → Bool
is_free none now = true
is_free (some until) now = leb until now

abbrev pub claimable : Rule → ℕ → OrderRow → Bool
claimable rule now o =
    in_rule rule o && reached (deadline_of rule o) now && is_free o.deadline_claimed_until now

abbrev instant_of : Option ℕ → ℕ
instant_of none = 0
instant_of (some at) = at

-- ORDER BY the deadline, then id
abbrev pub due_before : Rule → OrderRow → OrderRow → Bool
due_before rule a b =
    let x = instant_of (deadline_of rule a) in
    let y = instant_of (deadline_of rule b) in ltb x y || (not (ltb y x) && text_before a.id b.id)

-- deadlineCandidate
pub record DeadlineCandidate : Type 0 where
  pub id : String
  pub shop_id : String

abbrev pub candidate_of : OrderRow → DeadlineCandidate
candidate_of o = record { id = o.id; shop_id = o.shop_id }

-- The rows that the claim query chooses.
unfoldable pub chosen : Rule → ℕ → ℕ → (String → Bool) → List OrderRow → List OrderRow
chosen rule batch now locked rows =
    take batch (
      sort_by (due_before rule)
        (select_where (λ o. claimable rule now o && not (locked o.id)) rows))

abbrev pub is_among : List OrderRow → OrderRow → Bool
is_among [] o = false
is_among (c ∷ cs) o = str_eq o.id c.id || is_among cs o

abbrev pub claimed_row : ℕ → ℕ → OrderRow → OrderRow
claimed_row now lease_ms o = record o { deadline_claimed_until = some (now + lease_ms * 1000) }

-- max(lease.Milliseconds(), 1), of a lease in microseconds
abbrev pub lease_milliseconds : ℕ → ℕ
lease_milliseconds lease = max (lease / 1000) 1

-- `claimDeadlineBatch`
unfoldable pub claim_deadline_batch :
    Rule → ℕ → ℕ → ℕ → (String → Bool) → List OrderRow → List OrderRow × List DeadlineCandidate
claim_deadline_batch rule batch lease now locked rows =
    let cs = chosen rule batch now locked rows in
    (
      update_where (is_among cs) (claimed_row now (lease_milliseconds lease)) rows,
      map candidate_of cs,
    )

-- A job's error, unless the order is no longer eligible.
unfoldable pub job_error : String → Option Error → List Error
job_error id none = []
job_error id (some e) = if is_deadline_not_eligible e then [] else wrap "expire order" e ∷ []

module _ (str : Strings) (service : Service) (repository : LifecycleRepository Db) where
  -- One job of `processDeadlineBatch`.
  unfoldable pub process_candidate : String → DeadlineCandidate → Db → Db × List Error
  process_candidate reason c db =
      let done = cancel_overdue str service repository c.shop_id c.id reason db in
      (done.0, job_error c.id done.1)

  -- `processDeadlineBatch`, its jobs in the order of their transactions.
  unfoldable pub process_deadline_batch : String → List DeadlineCandidate → Db → Db × List Error
  process_deadline_batch reason [] db = (db, [])
  process_deadline_batch reason (c ∷ cs) db =
      let first = process_candidate reason c db in
      let rest = process_deadline_batch reason cs first.0 in (rest.0, first.1 ++ rest.1)

  -- One rule in the loop of `enforceOrderDeadlines`: the tables, and whether it claimed any order.
  unfoldable pub enforce_rule :
      ℕ → ℕ → ℕ → (String → Bool) → Rule → Db → (Db × List Error) × List DeadlineCandidate
  enforce_rule batch lease now locked rule db =
      let claimed = claim_deadline_batch rule batch lease now locked db.orders in
      let db₁ = record db { orders = claimed.0 } in
      (process_deadline_batch (reason_of_rule rule) claimed.1 db₁, claimed.1)

  abbrev pub after_round : List Error → Option (Db × List Error) → Option (Db × List Error)
  after_round errors none = none
  after_round errors (some (db, later)) = some (db, errors ++ later)

  -- `enforceOrderDeadlines`, all of whose statements run at the instant now; `none` is a loop that the
  -- fuel does not finish.
  unfoldable pub enforce_order_deadlines :
      ℕ → ℕ → ℕ → (String → Bool) → ℕ → Db → Option (Db × List Error)
  unfolding enforce_rule
  enforce_order_deadlines batch lease now locked zero db = none
  enforce_order_deadlines batch lease now locked (suc fuel) db =
      let first = enforce_rule batch lease now locked payment_rule db in
      let second = enforce_rule batch lease now locked seller_rule first.0.0 in
      let errors = first.0.1 ++ second.0.1 in
      let later = enforce_order_deadlines batch lease now locked fuel second.0.0 in
      if length first.1 == 0 && length second.1 == 0
      then some (second.0.0, errors)
      else after_round errors later

-- deadlinePollInterval, deadlineLease, deadlineBatchSize and deadlineConcurrency
unfoldable pub or_default : ℕ → ℕ → ℕ
or_default fallback configured = if ltb 0 configured then configured else fallback

abbrev pub deadline_poll_interval : ℕ → ℕ
deadline_poll_interval = or_default 1000000

abbrev pub deadline_lease : ℕ → ℕ
deadline_lease = or_default (30 * 1000000)

abbrev pub deadline_batch_size : ℕ → ℕ
deadline_batch_size = or_default 100

abbrev pub deadline_concurrency : ℕ → ℕ
deadline_concurrency = or_default 8
