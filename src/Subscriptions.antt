-- ===== src/Subscriptions.antt =====
-- Webhook and pull-wake subscriptions (crates/durable-streams-server/src/subscriptions).
pub mod Glob
pub mod Api
pub mod Model
pub mod Tokens
pub mod Wakes
pub mod Completion
pub mod Control
pub mod Transaction
pub mod Worker
pub mod Outcome
pub mod Generations
pub mod Fencing
pub mod Durability
pub mod Backoff
pub mod Cursors
