-- ===== src/Webhooks.antt =====
-- Webhook delivery: internal/webhooks, the worker's publishOutbox, scheduleDeliveries and
-- handleDelivery (cmd/worker/main.go), and the server's retry and removal of a webhook.

pub mod Contract
pub mod State
pub mod Publisher
pub mod Delivery
pub mod Replay
