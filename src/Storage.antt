-- ===== src/Storage.antt =====
-- The storage contract (crates/durable-streams-server/src/storage): types, rules, the memory backend.
pub mod Platform
pub mod Types
pub mod Access
pub mod Shared
pub mod Fork
pub mod Memory
