-- ===== src/Orders.antt =====
-- Order lifecycle: apps/marketplace/internal/orders.
pub mod Status
pub mod Provider
pub mod State
pub mod Service
pub mod UseCases
pub mod Console
