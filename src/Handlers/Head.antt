-- ===== src/Handlers/Head.antt =====
-- handlers/head.rs: a stream's metadata over HTTP, from the store in memory.
use durable_streams_rust.Prelude.{
  ℕ, ◌+◌, ◌-◌, ◌/◌, Option, some, none, Str, text, [], if◌then◌else◌, leb,
}
use durable_streams_rust.Prelude.Split.{decimal}
use durable_streams_rust.Protocol.Error.{Result, ok, err}
use durable_streams_rust.Storage.Types.{StreamMetadata}
use durable_streams_rust.Storage.Memory.Entry.{InMemoryStorage}
use durable_streams_rust.Storage.Memory.Append.{head}
use durable_streams_rust.Handlers.Problem.{
  Answer, response, of_error, with_header, with_next_offset, closed_if,
}

-- Nanoseconds in a millisecond and in a second, by which an instant is counted.
abbrev pub nanos_per_milli : ℕ
nanos_per_milli = 1000000

abbrev pub nanos_per_second : ℕ
nanos_per_second = 1000000000

-- What is left until a deadline: rounded up where the stream has a time to live, and 0 after it.
unfoldable pub remaining_seconds : Option ℕ → ℕ → ℕ → ℕ
remaining_seconds (some ttl) deadline now = ((deadline - now) / nanos_per_milli + 999) / 1000
remaining_seconds none deadline now = (deadline - now) / nanos_per_second

module _ (to_rfc3339 : ℕ → Str) where
  -- `now` is read only where the stream has a deadline.
  unfoldable pub with_expiry : Option ℕ → Option ℕ → ℕ → Answer → Answer
  with_expiry ttl none now answer = answer
  with_expiry ttl (some deadline) now answer =
      let seconds = remaining_seconds ttl deadline now in
      if leb 1 seconds
      then with_header (text "stream-expires-at") (to_rfc3339 deadline)
          (with_header (text "stream-ttl") (decimal seconds) answer)
      else answer

  unfoldable pub metadata_answer : ℕ → Result StreamMetadata → Answer
  unfolding with_expiry
  metadata_answer now (err e) = of_error e
  metadata_answer now (ok meta) = with_expiry meta.config.ttl_seconds meta.config.expires_at now (
      closed_if meta.closed (
        with_next_offset meta.next_offset
          (with_header (text "content-type") meta.config.content_type (response 200 []))))

  -- The instants are those that `head` and the handler read.
  unfoldable pub stream_metadata : InMemoryStorage → Str → ℕ → ℕ → Answer
  unfolding metadata_answer
  stream_metadata st name now now' = metadata_answer now' (head st name now)
