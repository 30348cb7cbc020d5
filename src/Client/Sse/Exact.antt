-- ===== src/Client/Sse/Exact.antt =====
-- Messages that an event stream carries as they are.
use durable_streams_rust.Prelude.{
  ℕ, ◌<◌, List, [], ◌∷◌, map, ◌≡◌, refl, ◌∙◌, Str, Bool, ◌&&◌, inr, some, Option, u64_mod, All,
}
use durable_streams_rust.Protocol.Offset
use durable_streams_rust.Protocol.Offset.{as_str}
use durable_streams_rust.Protocol.Sse.{SseCodec}
use durable_streams_rust.Storage.Memory.Commit.{bytes_of}
use durable_streams_rust.Handlers.Events.{encode_read_as_sse_frames}
use durable_streams_rust.Client.Sse.{ok}
use durable_streams_rust.Client.Sse.Frames.{received}
use durable_streams_rust.Client.Sse.Collect.{ReadChunk, ReadResponse, SseDecoder, collect_sse}
use durable_streams_rust.Client.Sse.Pairs.{ReadsBack, as_text, to_the_end, IsUtf8}
use durable_streams_rust.Client.Sse.Delivery.{encode_read_as_sse_frames-collect_sse}
use durable_streams_rust.Client.Sse.Texts.{IsKept, received-IsKept}

map-received : (ms : List Str) → All IsKept ms → map received ms ≡ ms
map-received [] h = refl
map-received (m ∷ ms) h = λ i. received-IsKept m h.0 i ∷ map-received ms h.1 i

-- A client that reads an event stream of text to its end collects exactly the read that the server
-- sent: its messages, one chunk for each, and the offset, the closed flag and the up-to-date flag of
-- the read. No message has a carriage return or a line that begins with a space, all are UTF-8, and
-- there is one. serde_json reads back what it writes, on one line with no space in front. The counters
-- fit 64 bits.
pub collect_sse-encode_read_as_sse_frames :
    (codec : SseCodec) (decoder : SseDecoder) (content_type etag : Option Str) (m : Str)
    (ms : List Str) (tail_seq tail_bytes last : ℕ) (at_tail closed : Bool)
    → ReadsBack codec decoder
    → All IsUtf8 (m ∷ ms)
    → All IsKept (m ∷ ms)
    → tail_seq < u64_mod
    → tail_bytes < u64_mod
    → bytes_of (m ∷ ms) < u64_mod
    → (sent : Str × ℕ) × (encode_read_as_sse_frames codec as_text last (record {
      messages = m ∷ ms;
      next_offset = Offset.new tail_seq tail_bytes;
      at_tail = at_tail;
      closed = closed;
    })
        ≡ some sent)
      × (response : ReadResponse) × (collect_sse decoder
            (to_the_end content_type etag)
            (inr sent.0 ∷ [])
          ≡ ok response)
      × (map (λ (chunk : ReadChunk). chunk.content) response.chunks ≡ m ∷ ms)
      × (response.next_offset ≡ as_str (Offset.new tail_seq tail_bytes))
      × (response.stream_closed ≡ (closed && at_tail))
      × (response.up_to_date ≡ at_tail)
collect_sse-encode_read_as_sse_frames codec decoder content_type etag m ms tail_seq tail_bytes last
      at_tail closed back valid kept small_seq small_bytes small =
    let (sent, encoded, response, collected, answers) =
      encode_read_as_sse_frames-collect_sse codec decoder back content_type etag m ms tail_seq
        tail_bytes last at_tail closed valid small_seq small_bytes small in
    (
      sent,
      encoded,
      response,
      collected,
      answers.contents ∙ map-received (m ∷ ms) kept,
      answers.position,
      answers.closed,
      answers.current,
    )
