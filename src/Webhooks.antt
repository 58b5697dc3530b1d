-- ===== src/Webhooks.antt =====
-- Webhook delivery: packages/server/src/webhooks.ts and webhook-outbox.ts.
pub mod State
pub mod Dispatcher
pub mod Methods
pub mod Trace
pub mod Queue
pub mod Journal
pub mod Kept
pub mod Durable
pub mod Restart
pub mod Cycle
pub mod Rounds
pub mod Delivered
pub mod Bounded
pub mod Removal
pub mod Tests
