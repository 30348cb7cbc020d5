-- ===== src/Lib.antt =====
-- Verification of durable-streams-rust: the server (crates/durable-streams-server), with append-only
-- streams, opaque offsets, idempotent producers, expiry, forks, bounded memory and subscriptions, and
-- the journal of the client (crates/durable-streams-client).
--
-- The parts, and where they stand:
-- - Prelude: Boolean tests, lists, texts, dictionaries, bits.
-- - Protocol.Offset (offset.rs), Protocol.Error (error.rs), Protocol.Headers (headers.rs),
--   Protocol.Producer (producer.rs), Protocol.Json (json_mode.rs), Protocol.Cursor (cursor.rs;
--   Ascent proves), all of crates/durable-streams-server/src/protocol: the values of the protocol.
-- - Storage.Types and Storage.Access (mod.rs, and the access checks of shared.rs and fork.rs),
--   Storage.Shared (shared.rs), Storage.Fork (fork.rs), all of
--   crates/durable-streams-server/src/storage: what the backends share.
-- - Storage.Memory (memory.rs): the store in memory. Entry has its state and the commit of messages;
--   Append, Chain (reads), Create, Replace, Forking and Delete have its methods. The others prove:
--   Commit and Accounting on the byte counters, Steps on every state reached, Layout, Delivery and
--   Reading on messages and reads, Atomicity on failures, Refusal and Closing on closed streams, Retry on
--   producers, Deletion, Creation and Recreation on names.
-- - Handlers (crates/durable-streams-server/src): Problem has the mapping of errors (protocol/error.rs)
--   and the responses (handlers/common.rs); Post, Delete and Head have the handlers of these methods
--   (handlers/post.rs, delete.rs and head.rs), on the store in memory. Of handlers/get.rs, Reads has the
--   answers, Events a read as frames, Get the catch-up read and the long poll, Stream the event stream and
--   Modes the handler. Status, Retried, Failed, Gone, Etags, Bodies and Polls prove.
-- - Protocol.StreamName (protocol/stream_name.rs): the names of streams.
-- - Subscriptions (crates/durable-streams-server/src/subscriptions): Glob and Model (model.rs), Api,
--   Wakes and the save in Transaction (mod.rs), Tokens (crypto.rs), Completion, Control and Transaction
--   (api.rs), Worker and Outcome (worker.rs). The others prove: Glob.Table and Glob.Meaning on patterns,
--   Generations on what the service's transactions do to subscriptions, Fencing and Cursors on
--   completions, Durability on the saved state, Backoff on retries.
-- - Client.Journal (crates/durable-streams-client/src/journal.rs): Scan has `commit_valid_prefix`, File
--   the lines, `open` and `append_values`; Batches, Leftovers and Recovery prove of the records, Lines
--   and Crash of the bytes of the file.
-- - Protocol.Sse (protocol/sse.rs): the frames of an event stream, and Client.Sse
--   (crates/durable-streams-client/src/protocol.rs) its parser, with Collect for `collect_sse`. Below
--   Client.Sse, Chunks, Lines, Frames, Pairs, Messages, Delivery, Exact, Texts and Limit prove what the
--   client reads of the server's frames. Prelude.Utf8 has from_utf8 and from_utf8_lossy.
-- - Examples: concrete calls.
--
-- A store is the record InMemoryStorage: the map of streams is a dictionary, and the atomic byte
-- counter is a field. A method is a function from the state to a result and the next state, with the
-- method's locks held throughout; a match on a result is a helper with one clause for each case, named
-- after the method and the case. A text is the list of its bytes. An instant is a natural number, and
-- `clock i` is what the i-th call of `Utc::now()` in a method returns. Machine integers are natural
-- numbers, reduced modulo 2^64 or 2^32 where the source adds without a check; saturating subtraction is
-- the subtraction of natural numbers.
--
-- The service of the subscriptions is the record Control.Service: the database that the lock guards, and
-- the bytes that the storage holds of it. A request, a round of the worker and the outcome of a delivery
-- are each one transaction under that lock, a function from the service to a result and the next
-- service; Generations.Runs has the relation of their sequences, in any order and under any environment.
-- A `?` that fails leaves the transaction, and the copy of the database with it. Times are milliseconds
-- as natural numbers. The journal's file is the list of its bytes.
--
-- The crates and the storage behind the subscriptions are the record Control.Environment, with the
-- signatures in Tokens.Primitives, and the lines of the journal are read and written by two functions;
-- no law is assumed of them, but that where a file's bytes matter (Client.Journal.Lines), the records in
-- it have each a line without a newline that is read as the record again. What the code of the storage
-- calls and does not implement is the record Storage.Platform: chrono's arithmetic, serde_json, and the
-- http crate's test of a header value. No law is assumed of it.
--
-- Fuel: the two walks up a chain of forks take as many steps as there are streams, and one more.
-- `cascade_delete` takes a stream out in each step, so that the fuel suffices: its loop is `none` without
-- fuel, and Deletion.Cascades is the source's loop. A read whose chain does not end in that many steps
-- has visited a stream twice; the result is `none`, as the loop does not end.
--
-- Not modelled: the file and the transactional backends, the request handlers for PUT, the list and the
-- health check, configuration and startup, which need models of the file system, the database and axum;
-- of the subscriptions, the HTTP client of a delivery and the loop that waits for timers; of the client,
-- all but the journal and the reading of event streams.
pub mod Examples
pub mod Prelude
pub mod Protocol
pub mod Storage
pub mod Handlers
pub mod Subscriptions
pub mod Client
