-- ===== src/Client.antt =====
-- The Rust client: what it keeps on disk.
pub mod Journal
pub mod Sse
