-- ===== src/Storage/Memory.antt =====
-- storage/memory.rs: the in-memory backend. The locks make each method atomic but `read`, whose
-- two halves are `prepare_read` and `finish_read`. A method takes the state, and returns its result
-- and the new state. `clock i` is the instant that the method's i-th call of `Utc::now()` returns.
-- `notify` counts the messages sent on a stream's broadcast channel.
pub mod Entry
pub mod Append
pub mod Chain
pub mod Create
pub mod Replace
pub mod Forking
pub mod Delete
pub mod Commit
pub mod Accounting
pub mod Atomicity
pub mod Deletion
pub mod Refusal
pub mod Closing
pub mod Delivery
pub mod Layout
pub mod Reading
pub mod Creation
pub mod Recreation
pub mod Retry
pub mod Steps
