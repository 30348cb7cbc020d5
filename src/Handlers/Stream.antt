-- ===== src/Handlers/Stream.antt =====
-- handlers/get.rs: live=sse, the frames that are sent at first and those of the loop that waits.
use durable_streams_rust.Prelude.{ℕ, Option, none, some, List, [], ◌∷◌, Str, text, if◌then◌else◌}
use durable_streams_rust.Protocol.Error.{Result, ok, err, not_found}
use durable_streams_rust.Protocol.Json.{is_json_content_type}
use durable_streams_rust.Protocol.Offset.{Offset}
use durable_streams_rust.Protocol.Sse.{SseCodec, is_binary_content_type, format_keepalive_frame}
use durable_streams_rust.Storage.Platform.{Platform}
use durable_streams_rust.Storage.Types.{ReadResult}
use durable_streams_rust.Storage.Memory.Entry.{InMemoryStorage}
use durable_streams_rust.Storage.Memory.Append.{subscribe}
use durable_streams_rust.Storage.Memory.Chain.{read}
use durable_streams_rust.Handlers.Events.{SseEncoding, at_end, encode_read_as_sse_frames}
use durable_streams_rust.Handlers.Problem.{Answer, response, of_error, with_header}
use durable_streams_rust.Handlers.Reads.{Reply, without_body}

unfoldable pub encoding_of : Str → SseEncoding
unfolding is_binary_content_type
encoding_of content_type = record {
  is_binary = is_binary_content_type content_type;
  is_json = is_json_content_type content_type;
}

unfoldable pub stream_answer : SseEncoding → Answer
stream_answer encoding =
    let answer = with_header (text "content-type") (text "text/event-stream") (response 200 []) in
    if encoding.is_binary
    then with_header (text "stream-sse-data-encoding") (text "base64") answer
    else answer

-- What ends a wait of the loop. A receiver that lags is notified too.
pub data SseSignal : Type 0 where
  notified channel_closed keepalive_due idle shut_down : SseSignal

module _ {V : Type 0} (platform : Platform V) (codec : SseCodec) where
  -- The frames of a read, with the counter after them.
  unfoldable pub opened : SseEncoding → InMemoryStorage → ℕ → Option (Str × ℕ) → Option Reply
  unfolding stream_answer
  opened encoding st last none = none
  opened encoding st last (some (frames, last')) =
      some (record {
        answer = stream_answer encoding;
        body = frames;
        storage = st;
        last_cursor = last';
      })

  unfoldable pub open_stream :
      SseEncoding → ℕ → Option (Result ReadResult × InMemoryStorage) → Option Reply
  unfolding opened
  open_stream encoding last none = none
  open_stream encoding last (some (err e, st)) = some (without_body (of_error e) st last)
  open_stream encoding last (some (ok r, st)) =
      opened encoding st last (encode_read_as_sse_frames codec encoding last r)

  unfoldable pub open_subscribed :
      InMemoryStorage → Str → Offset → SseEncoding → (ℕ → ℕ) → ℕ → Option ℕ → Option Reply
  unfolding open_stream
  open_subscribed st name offset encoding clock last none =
      some (without_body (of_error (not_found name)) st last)
  open_subscribed st name offset encoding clock last (some channel) =
      open_stream encoding last (read platform st name offset clock)

  unfoldable pub read_sse : InMemoryStorage → Str → Offset → Str → ℕ → (ℕ → ℕ) → ℕ → Option Reply
  unfolding open_subscribed encoding_of
  read_sse st name offset content_type now clock last =
      open_subscribed st name offset (encoding_of content_type) clock last (subscribe st name now)

  -- The last frames, when the channel is closed.
  unfoldable pub last_frames :
      SseEncoding → ℕ → Option (Result ReadResult × InMemoryStorage) → Option (List Str)
  last_frames encoding last none = none
  last_frames encoding last (some (err e, st)) = some []
  last_frames encoding last (some (ok r, st)) =
      elim (encode_read_as_sse_frames codec encoding last r) [
        | none ↦ none
        | some (frames, last') ↦ some (frames ∷ [])
      ]

  unfoldable pub frames_before : Str → Option (List Str) → Option (List Str)
  frames_before frames none = none
  frames_before frames (some more) = some (frames ∷ more)

  -- The frames of a read, and those of the loop from its end, unless the stream ends there.
  unfoldable pub next_frames :
      SseEncoding
      → ℕ
      → (Offset → ℕ → Option (List Str))
      → Option (Result ReadResult × InMemoryStorage)
      → Option (List Str)
  unfolding frames_before
  next_frames encoding last loop none = none
  next_frames encoding last loop (some (err e, st)) = some []
  next_frames encoding last loop (some (ok r, st)) =
      elim (encode_read_as_sse_frames codec encoding last r) [
        | none ↦ none
        | some (frames, last') ↦
            if at_end r then some (frames ∷ []) else frames_before frames (loop r.next_offset last')
      ]

  -- The loop of `build_sse_byte_stream`, over the signals that end its waits, each with the store and
  -- the readings of the clock then; the timers are the environment's.
  unfoldable pub stream_frames :
      Str
      → SseEncoding
      → List (SseSignal × InMemoryStorage × (ℕ → ℕ))
      → Offset
      → ℕ
      → Option (List Str)
  unfolding next_frames last_frames frames_before
  stream_frames name encoding [] tail last = some []
  stream_frames name encoding ((notified, st, clock) ∷ signals) tail last =
      next_frames encoding last (stream_frames name encoding signals)
        (read platform st name tail clock)
  stream_frames name encoding ((channel_closed, st, clock) ∷ signals) tail last =
      last_frames encoding last (read platform st name tail clock)
  stream_frames name encoding ((keepalive_due, st, clock) ∷ signals) tail last =
      frames_before format_keepalive_frame (stream_frames name encoding signals tail last)
  stream_frames name encoding ((idle, st, clock) ∷ signals) tail last = some []
  stream_frames name encoding ((shut_down, st, clock) ∷ signals) tail last = some []
