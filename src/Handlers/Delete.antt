-- ===== src/Handlers/Delete.antt =====
-- handlers/delete.rs: deletion over HTTP, on the store in memory.
use durable_streams_rust.Prelude.{Str, []}
use durable_streams_rust.Protocol.Error.{Result, ok, err}
use durable_streams_rust.Storage.Memory.Entry.{InMemoryStorage}
use durable_streams_rust.Storage.Memory.Delete.{delete}
use durable_streams_rust.Handlers.Problem.{Answer, response, of_error}

unfoldable pub delete_answer : Result (Unit {0}) × InMemoryStorage → Answer × InMemoryStorage
delete_answer (err e, st) = (of_error e, st)
delete_answer (ok done, st) = (response 204 [], st)

unfoldable pub delete_stream : InMemoryStorage → Str → Answer × InMemoryStorage
unfolding delete_answer
delete_stream st name = delete_answer (delete st name)
