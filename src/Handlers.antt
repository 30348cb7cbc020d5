-- ===== src/Handlers.antt =====
-- The HTTP handlers of the server, between a request's parts and the storage.
pub mod Problem
pub mod Post
pub mod Status
pub mod Retried
pub mod Failed
pub mod Delete
pub mod Head
pub mod Gone
pub mod Events
pub mod Get
pub mod Reads
pub mod Bodies
pub mod Etags
pub mod Polls
pub mod Stream
pub mod Modes
