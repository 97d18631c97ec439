-- ===== src/Webhooks.antt =====
-- src/webhooks: events delivered to customers' endpoints, and Meta's own reports.
pub mod Store
pub mod Dispatcher
pub mod Settle
pub mod Outbox
pub mod StatusUpdate
pub mod Url
