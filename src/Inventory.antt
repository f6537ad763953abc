-- ===== src/Inventory.antt =====
-- internal/inventory/reservation.go: warehouse reservation and physical stock. Each function runs in
-- its caller's transaction; on an error the caller rolls back, so only the error is returned.
pub mod Allocation
pub mod Holding
pub mod Counting
pub mod Warehouses
pub mod Invariant
pub mod Refinement
