-- ===== src/Handlers/Modes.antt =====
-- handlers/get.rs: the handler of GET, in its three modes.
use durable_streams_rust.Prelude.{ℕ, Option, none, some, Str, text, str_eq, ◌++◌, if◌then◌else◌}
use durable_streams_rust.Protocol.Error.{Result, ok, err, invalid_header}
use durable_streams_rust.Protocol.Offset.{Offset, from_str}
use durable_streams_rust.Protocol.Sse.{SseCodec}
use durable_streams_rust.Storage.Platform.{Platform}
use durable_streams_rust.Storage.Types.{StreamMetadata}
use durable_streams_rust.Storage.Memory.Entry.{InMemoryStorage}
use durable_streams_rust.Storage.Memory.Append.{head}
use durable_streams_rust.Handlers.Problem.{of_error}
use durable_streams_rust.Handlers.Reads.{Reply, without_body}
use durable_streams_rust.Handlers.Get.{
  ReadQuery, resolve_offset, PollEnd, read_catch_up, read_long_poll,
}
use durable_streams_rust.Handlers.Stream.{read_sse}

module _ {V : Type 0} (platform : Platform V) (codec : SseCodec) where
  -- The answer to the head of the stream, which the handler asks for first.
  unfoldable pub read_live :
      InMemoryStorage
      → Str
      → Offset
      → Str
      → ReadQuery
      → ℕ
      → (ℕ → ℕ)
      → ℕ
      → PollEnd
      → Result StreamMetadata
      → Option Reply
  unfolding read_catch_up read_long_poll read_sse str_eq
  read_live st name offset raw_offset query now clock last wake (err e) =
      some (without_body (of_error e) st last)
  read_live st name offset raw_offset query now clock last wake (ok meta) = elim query.live [
    | none ↦
        read_catch_up platform st name offset raw_offset query.if_none_match
          meta.config.content_type clock last
    | some live ↦
        if str_eq live (text "long-poll")
        then read_long_poll platform st name offset raw_offset query.if_none_match
            meta.config.content_type now clock last wake
        else if str_eq live (text "sse")
        then read_sse platform codec st name offset meta.config.content_type now clock last
        else some (
            without_body
              (of_error (invalid_header (text "live") (text "unsupported live mode: " ++ live))) st
              last)
  ]

  unfoldable pub read_at :
      InMemoryStorage
      → Str
      → Str
      → ReadQuery
      → ℕ
      → ℕ
      → (ℕ → ℕ)
      → ℕ
      → PollEnd
      → Result Offset
      → Option Reply
  unfolding read_live
  read_at st name raw_offset query now now' clock last wake (err e) =
      some (without_body (of_error e) st last)
  read_at st name raw_offset query now now' clock last wake (ok offset) =
      read_live st name offset raw_offset query now' clock last wake (head st name now)

  unfoldable pub read_resolved :
      InMemoryStorage → Str → ReadQuery → ℕ → ℕ → (ℕ → ℕ) → ℕ → PollEnd → Result Str → Option Reply
  unfolding read_at
  read_resolved st name query now now' clock last wake (err e) =
      some (without_body (of_error e) st last)
  read_resolved st name query now now' clock last wake (ok raw_offset) =
      read_at st name raw_offset query now now' clock last wake (from_str raw_offset)

  -- read_stream. The instants are those of `head` and of `subscribe`; `wake` is how the wait of a long
  -- poll ends. The body of an event stream is what is sent at first.
  unfoldable pub read_stream :
      InMemoryStorage → Str → ReadQuery → ℕ → ℕ → (ℕ → ℕ) → ℕ → PollEnd → Option Reply
  unfolding read_resolved resolve_offset
  read_stream st name query now now' clock last wake =
      read_resolved st name query now now' clock last wake (resolve_offset query)
