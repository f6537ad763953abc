-- ===== src/Orders/Status.antt =====
-- internal/orders/lifecycle.go: the order statuses and the single transition table. A status is a
-- Go string; `other` stands for every text that is no constant of the package.
pub mod Lifecycle
use enterprise_integration_s.Common.{ℕ, String, Bool, true, false, str_eq, ◌==◌}

pub data Status : Type 0 where
  unpaid paid processing ready_to_ship shipped in_delivery delivered completed : Status
  cancelled returned : Status
  other : String → Status

abbrev pub status_code : Status → ℕ
status_code unpaid = 0
status_code paid = 1
status_code processing = 2
status_code ready_to_ship = 3
status_code shipped = 4
status_code in_delivery = 5
status_code delivered = 6
status_code completed = 7
status_code cancelled = 8
status_code returned = 9
status_code (other _) = 10

-- The comparison of two status texts.
abbrev pub same_status : Status → Status → Bool
same_status (other s) (other t) = str_eq s t
same_status s t = status_code s == status_code t

-- The constants' texts.
unfoldable pub status_text : Status → String
status_text unpaid = "UNPAID"
status_text paid = "PAID"
status_text processing = "PROCESSING"
status_text ready_to_ship = "READY_TO_SHIP"
status_text shipped = "SHIPPED"
status_text in_delivery = "IN_DELIVERY"
status_text delivered = "DELIVERED"
status_text completed = "COMPLETED"
status_text cancelled = "CANCELLED"
status_text returned = "RETURNED"
status_text (other s) = s

-- `transitions[from][to]`; a missing key reads as false.
unfoldable pub can_transition : Status → Status → Bool
can_transition unpaid paid = true
can_transition unpaid cancelled = true
can_transition paid processing = true
can_transition paid cancelled = true
can_transition processing ready_to_ship = true
can_transition processing cancelled = true
can_transition ready_to_ship shipped = true
can_transition ready_to_ship cancelled = true
can_transition shipped in_delivery = true
can_transition in_delivery delivered = true
can_transition in_delivery returned = true
can_transition delivered completed = true
can_transition _ _ = false
