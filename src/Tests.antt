-- ===== src/Tests.antt =====
-- Runs of the definitions, and the theorems at concrete inputs.
mod Fixtures
mod OrderTests
mod PackageTests
mod SimulationTests
mod ProductTests
mod MiddlewareTests
mod InventoryTests
mod IdempotencyTests
mod WebhookTests
mod ActionTests
