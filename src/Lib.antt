-- ===== src/Lib.antt =====
-- Enterprise Integration Simulator: a marketplace whose orders, stock, payments and webhooks
-- imitate those of commerce providers. Paths start at the repository's root.
--
-- The program is a Go server and a Go worker over one PostgreSQL database. The server's handlers
-- move orders and shipments (apps/marketplace/internal/server), by the rules of
-- apps/marketplace/internal/orders and with the stock accounting of
-- apps/marketplace/internal/inventory; each of these transactions writes domain events and outbox
-- rows (apps/marketplace/internal/events). The worker (apps/marketplace/cmd/worker) cancels overdue
-- orders, fans outbox rows out into webhook deliveries, leases due deliveries and sends them.
-- Requests with an idempotency key are claimed by apps/marketplace/internal/idempotency.
--
-- The files, each with the code that it models:
--   Common                     Boolean tests, results, and SQL statements on a table as a list of
--                              rows
--   Common/Keys                the row of a primary key
--   Store                      the tables of migrations 001 to 013 that orders and stock use
--   Orders/Status              apps/marketplace/internal/orders/lifecycle.go: CanTransition
--   Orders/Provider            apps/marketplace/internal/orders/provider.go: CanCancel,
--                              ValidCancellationReason
--   Orders/State               apps/marketplace/internal/orders/service.go: its types, errors and
--                              interfaces
--   Orders/Service             apps/marketplace/internal/orders/service.go: the options, and
--                              Transition and Cancel inside their transaction
--   Orders/UseCases            apps/marketplace/internal/orders/service.go: CancelOverdue, and the
--                              three methods whole
--   Orders/Console             apps/marketplace/internal/orders/console.go: ConsoleActions
--   Inventory/Allocation       apps/marketplace/internal/inventory/reservation.go: Allocate
--   Inventory/Holding          apps/marketplace/internal/inventory/reservation.go: Commit, Release,
--                              FulfillPackage
--   Inventory/Counting         apps/marketplace/internal/server/control_inventory.go:
--                              updateWarehouseInventory
--   Inventory/Warehouses       apps/marketplace/internal/inventory/reservation.go:
--                              EnsureDefaultWarehouse
--   Inventory/Invariant        what the stock columns mean, and which operations keep it
--   Events                     apps/marketplace/internal/events/outbox.go: Record
--   Repository                 apps/marketplace/internal/repository/orders/postgres.go: the
--                              lifecycle contract on the tables
--   Idempotency                apps/marketplace/internal/idempotency/manager.go: Acquire, Complete,
--                              Release
--   Actions                    apps/marketplace/internal/server/lifecycle_handlers.go: orderAction,
--                              failPayment
--   Shipments                  apps/marketplace/internal/server/lifecycle_handlers.go:
--                              transitionTx, transitionShipment, shipmentAction
--   Packages                   apps/marketplace/internal/server/provider_fulfillment.go:
--                              createPackageForOrder, with the triggers of migrations 011 and 012
--   Packages/Shipping          apps/marketplace/internal/server/provider_fulfillment.go:
--                              createShipmentForOrder
--   Packages/Control           apps/marketplace/internal/server/control_fulfillment.go:
--                              createControlPackage
--   Packages/Contents          what the contents of packages satisfy
--   Products                   apps/marketplace/internal/products/service.go: the catalogue, and the
--                              errors of apps/marketplace/internal/server/control_products.go
--   Products/Catalogue         apps/marketplace/internal/repository/products/postgres.go
--   Simulation                 apps/marketplace/internal/server/control_fulfillment.go:
--                              createSimulatedOrder
--   Middleware                 apps/marketplace/internal/server/provider_middleware.go: idempotent
--   Middleware/Errors          apps/marketplace/internal/server/provider_middleware.go: the error codes
--   Middleware/Access          apps/marketplace/internal/server/provider_middleware.go and server.go:
--                              the checks of signed requests; Sign of
--                              apps/marketplace/internal/tokopedia/contract.go
--   Deadlines                  apps/marketplace/cmd/worker/deadlines.go: the rules, the claims, the
--                              batches and their loop
--   Tokopedia                  apps/marketplace/internal/tokopedia/contract.go: OrderStatus,
--                              CanonicalOrderStatuses
--   RateLimit                  apps/marketplace/internal/ratelimit/fixed_window.go: Allow
--   Webhooks/State             the tables of webhooks, deliveries and attempts
--   Webhooks/Contract          apps/marketplace/internal/webhooks: the events, their SHOPEE_LIKE
--                              names, the retry delays
--   Webhooks/Publisher         apps/marketplace/cmd/worker/main.go: publishOutbox
--   Webhooks/Delivery          apps/marketplace/cmd/worker/main.go: scheduleDeliveries and the
--                              statements of handleDelivery; retryDelivery and retireWebhook of
--                              apps/marketplace/internal/server
--   Webhooks/Delivery/Attempt  apps/marketplace/cmd/worker/main.go: handleDelivery
--   Webhooks/Delivery/Retries  the attempts of one delivery, one after the other
--   Webhooks/Replay            apps/marketplace/internal/server/lifecycle_handlers.go: replayEvent,
--                              duplicateEvent
--   Tests                      the theorems at concrete inputs
--
-- State is passed explicitly: Db and WebhookDb hold the tables, and a transaction is a function
-- into a result whose error rolls it back. Concurrency is the order of atomic statements:
-- Idempotency/Steps and Webhooks/Delivery/Steps have one constructor per statement, and
-- Idempotency's acquire takes the table that each of its statements finds.
--
-- Instants and durations are microseconds, as in PostgreSQL. Quantities in the tables are natural
-- numbers, which their CHECK constraints make them; a requested quantity is a signed int. The sum
-- of the requested quantities of a product wraps at 2^64, and a sum from 2^63 on reads as negative
-- (Inventory/Allocation). The stock columns are INTEGER: a release or a count that would pass
-- 2^31-1 is an error (Inventory/Holding, Inventory/Counting). The three attempts of Acquire are the code's own bound, no fuel.
-- The loop of enforceOrderDeadlines runs on fuel, all of it at one instant; one round more than
-- there are due orders is enough (Deadlines/Drained).
--
-- Outside the model, and parameters of it: strings.ToUpper, ToLower and TrimSpace (Strings), the
-- clock, the identifiers that platform.NewID draws, which are taken to be new, the errors of Begin
-- and Commit (Connection), the receiver's answers, HMAC-SHA256, hexadecimal text and AES-GCM (Crypto),
-- the quota of Redis, the task queue, a random product, which bytes PostgreSQL stores as text, and
-- whether an operator may access a shop. A statement fails only by a constraint that is written out
-- or by its number of affected rows. sort.Slice is an insertion sort.
--
-- Prices are natural numbers, and a total is the int64 that its low 64 bits are (Simulation).
--
-- Not modelled: the handlers that only read and project rows, HTTP routing, the sessions of the
-- dashboard, the administration of shops and warehouses other than stock counts, JSON
-- bodies, generated clients and queries, telemetry and start-up.
pub mod Common
pub mod Orders
pub mod Store
pub mod Inventory
pub mod Events
pub mod Idempotency
pub mod Repository
pub mod Webhooks
pub mod RateLimit
pub mod Tokopedia
pub mod Deadlines
pub mod Actions
pub mod Shipments
pub mod Packages
pub mod Middleware
pub mod Products
pub mod Simulation
mod Tests
