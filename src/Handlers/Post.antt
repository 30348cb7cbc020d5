-- ===== src/Handlers/Post.antt =====
-- handlers/post.rs: appends over HTTP, on the store in memory.
use durable_streams_rust.Prelude.{
  ℕ, Bool, true, false, not, ◌&&◌, Option, none, some, List, [], ◌∷◌, Str, text, if◌then◌else◌,
}
use durable_streams_rust.Prelude.Split.{decimal}
use durable_streams_rust.Protocol.Error.{
  Result, ok, err, ◌>>=◌, ◌>>◌, stream_closed, epoch_fenced, sequence_gap, invalid_header,
  empty_body, empty_array,
}
use durable_streams_rust.Protocol.Headers.{parse_bool, normalize_content_type}
use durable_streams_rust.Protocol.Producer.{ProducerHeaders, parse_producer_headers}
use durable_streams_rust.Protocol.Json.{extract_messages}
use durable_streams_rust.Storage.Platform.{Platform}
use durable_streams_rust.Storage.Types.{
  AppendResult, ProducerAppendResult, accepted, duplicate, StreamMetadata, is_empty,
}
use durable_streams_rust.Storage.Memory.Entry.{InMemoryStorage}
use durable_streams_rust.Storage.Memory.Append.{append_batch, append_with_producer, head}
use durable_streams_rust.Handlers.Problem.{
  Answer, response, of_error, with_header, with_next_offset, closed_if,
}

-- The headers that the handler reads, where they are visible ASCII, and the whole body.
pub record PostRequest : Type 0 where
  pub content_type : Option Str
  pub stream_closed : Option Str
  pub stream_seq : Option Str
  pub producer_id : Option Str
  pub producer_epoch : Option Str
  pub producer_seq : Option Str
  pub body : Str

-- What is asked of the storage.
pub record PostAppend : Type 0 where
  pub messages : List Str
  pub content_type : Str
  pub producer : Option ProducerHeaders
  pub should_close : Bool
  pub is_close_only : Bool
  pub seq : Option Str

unfoldable pub parse_stream_closed : Option Str → Bool
parse_stream_closed none = false
parse_stream_closed (some value) = parse_bool value

-- `unwrap_or_default` on a close, and a required header otherwise.
unfoldable pub content_type_of : Bool → Option Str → Result Str
content_type_of close_only (some raw) = ok (normalize_content_type raw)
content_type_of close_only none =
    if close_only
    then ok []
    else err (invalid_header (text "Content-Type") (text "missing required header"))

no_messages : List Str → Bool
no_messages [] = true
no_messages (m ∷ ms) = false

-- The metadata of the stream, as `head` finds them.
unfoldable pub closed_answer : Result StreamMetadata → Answer
closed_answer (err e) = with_header (text "stream-closed") (text "true") (of_error stream_closed)
closed_answer (ok meta) =
    with_next_offset meta.next_offset
      (with_header (text "stream-closed") (text "true") (of_error stream_closed))

unfoldable pub stream_closed_response : InMemoryStorage → Str → ℕ → Answer
unfolding closed_answer
stream_closed_response st name now = closed_answer (head st name now)

unfoldable pub batch_answer :
    Str → ℕ → Result AppendResult × InMemoryStorage → Answer × InMemoryStorage
batch_answer name now (ok result, st) =
    (closed_if result.closed (with_next_offset result.next_offset (response 204 [])), st)
batch_answer name now (err stream_closed, st) = (stream_closed_response st name now, st)
batch_answer name now (err e, st) = (of_error e, st)

unfoldable pub producer_answer : ℕ → ℕ → ℕ → Bool → Answer → Answer
producer_answer status epoch seq closed answer = closed_if closed (
    with_header (text "producer-seq") (decimal seq)
      (with_header (text "producer-epoch") (decimal epoch) answer))

unfoldable pub producer_append_answer :
    Str
    → ProducerHeaders
    → Bool
    → ℕ
    → Result ProducerAppendResult × InMemoryStorage
    → Answer × InMemoryStorage
unfolding producer_answer
producer_append_answer name producer close_only now (ok (accepted epoch seq offset closed), st) =
    let status = if close_only then 204 else 200 in
    (producer_answer status epoch seq closed (with_next_offset offset (response status [])), st)
producer_append_answer name producer close_only now (ok (duplicate epoch seq offset closed), st) =
    (producer_answer 204 epoch seq closed (with_next_offset offset (response 204 [])), st)
producer_append_answer name producer close_only now (err stream_closed, st) =
    (stream_closed_response st name now, st)
producer_append_answer name producer close_only now (err (epoch_fenced current received), st) = (
  with_header (text "producer-epoch") (decimal current)
      (of_error (epoch_fenced current producer.epoch)),
  st,
)
producer_append_answer name producer close_only now (err (sequence_gap expected actual), st) = (
  with_header (text "producer-received-seq") (decimal actual) (
      with_header (text "producer-expected-seq") (decimal expected)
        (of_error (sequence_gap expected actual))),
  st,
)
producer_append_answer name producer close_only now (err e, st) = (of_error e, st)

module _ {V : Type 0} (platform : Platform V) where
  -- The checks of the request, before the storage is called.
  unfoldable pub post_append : PostRequest → Result PostAppend
  unfolding no_messages
  post_append request =
      let should_close = parse_stream_closed request.stream_closed in
      let close_only = is_empty request.body && should_close in
      (do
        content_type ← content_type_of close_only request.content_type
        producer ←
            parse_producer_headers request.producer_id request.producer_epoch request.producer_seq
        (if is_empty request.body && not should_close then err empty_body else ok tt)
        messages ← extract_messages platform request.body content_type
        (if no_messages messages && not close_only then err empty_array else ok tt)
        ok (record {
          messages = messages;
          content_type = content_type;
          producer = producer;
          should_close = should_close;
          is_close_only = close_only;
          seq = request.stream_seq;
        }))

  -- The branch on the producer. `clock` is read by the storage, and `now` is the reading of `head`.
  unfoldable pub run_append :
      InMemoryStorage
      → Str
      → PostAppend
      → Option ProducerHeaders
      → (ℕ → ℕ)
      → ℕ
      → Answer × InMemoryStorage
  unfolding producer_append_answer batch_answer
  run_append st name a (some producer) clock now =
      producer_append_answer name producer a.is_close_only now (
        append_with_producer platform st name a.messages a.content_type producer a.should_close
          a.seq clock)
  run_append st name a none clock now =
      batch_answer name now
        (append_batch platform st name a.messages a.content_type a.seq a.should_close clock)

  unfoldable pub append_request :
      InMemoryStorage → Str → (ℕ → ℕ) → ℕ → Result PostAppend → Answer × InMemoryStorage
  append_request st name clock now (err e) = (of_error e, st)
  append_request st name clock now (ok a) = run_append st name a a.producer clock now

  -- append_data, once the body has been read.
  unfoldable pub append_data :
      InMemoryStorage → Str → PostRequest → (ℕ → ℕ) → ℕ → Answer × InMemoryStorage
  unfolding append_request
  append_data st name request clock now = append_request st name clock now (post_append request)
