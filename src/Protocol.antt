-- ===== src/Protocol.antt =====
-- The wire protocol (crates/durable-streams-server/src/protocol): errors, offsets, headers, cursors.
pub mod Cursor
pub mod Error
pub mod Offset
pub mod Headers
pub mod Producer
pub mod StreamName
pub mod Json
pub mod Sse
