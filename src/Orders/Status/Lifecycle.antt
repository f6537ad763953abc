-- ===== src/Orders/Status/Lifecycle.antt =====
-- Properties of the transition table of internal/orders/lifecycle.go.
use enterprise_integration_s.Common.{
  ℕ, suc, ◌+◌, ◌↔◌, String, ◌≤◌, ◌≡◌, refl, ◌⊎◌, ◌≢◌, true, false, arith,
}
use enterprise_integration_s.Orders.Status.{
  Status, unpaid, paid, processing, ready_to_ship, shipped, in_delivery, delivered, completed,
  cancelled, returned, other, can_transition,
}

-- A history of allowed transitions, and how many it has.
pub data Reach : Status → Status → ℕ → Type 0 where
  here : {s : Status} → Reach s s 0
  next : {s t u : Status} {n : ℕ} → can_transition s t ≡ true → Reach t u n → Reach s u (suc n)

-- How far along the lifecycle a status is.
abbrev progress : Status → ℕ
progress unpaid = 0
progress paid = 1
progress processing = 2
progress ready_to_ship = 3
progress shipped = 4
progress in_delivery = 5
progress delivered = 6
progress _ = 7

progress-can_transition : (s t : Status) → can_transition s t ≡ true → suc (progress s) ≤ progress t
unfolding can_transition
progress-can_transition s t h = ground arith

progress-Reach : {s t : Status} {n : ℕ} → Reach s t n → progress s + n ≤ progress t
progress-Reach here = omega arith
progress-Reach (next {s = s} {t = t} h r) =
    omega (arith, progress-can_transition s t h, progress-Reach r)

progress-le : (s : Status) → progress s ≤ 7
progress-le unpaid = omega arith
progress-le s = omega arith

-- Every chain of allowed transitions has at most seven steps, whatever the statuses at its ends:
-- the lifecycle has no cycle.
pub Reach-le_seven : {s t : Status} {n : ℕ} → Reach s t n → n ≤ 7
Reach-le_seven {t = t} r = omega (arith, progress-Reach r, progress-le t)

abbrev pub IsTerminal : Status → Type 0
IsTerminal s = (s ≡ completed) ⊎ (s ≡ cancelled) ⊎ (s ≡ returned)

-- From COMPLETED, CANCELLED and RETURNED no transition is allowed.
terminal_stuck : (s t : Status) → IsTerminal s → can_transition s t ≡ false
unfolding can_transition
terminal_stuck s t h = ground arith

stuck-IsTerminal :
    (s : Status)
    → ((text : String) → s ≢ other text)
    → ((t : Status) → can_transition s t ≡ false)
    → IsTerminal s
unfolding can_transition
stuck-IsTerminal (other text) known h = absurd (known text refl)
stuck-IsTerminal s known h = ground (
  arith,
  h paid,
  h processing,
  h ready_to_ship,
  h shipped,
  h in_delivery,
  h delivered,
  h completed,
)

-- A status constant allows no transition exactly when it is COMPLETED, CANCELLED or RETURNED.
pub IsTerminal-iff :
    (s : Status)
    → ((text : String) → s ≢ other text)
    → IsTerminal s ↔ ((t : Status) → can_transition s t ≡ false)
IsTerminal-iff s known = (λ h t. terminal_stuck s t h, stuck-IsTerminal s known)
