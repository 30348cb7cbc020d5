-- ===== src/Client/Sse/Delivery.antt =====
-- What the client collects of the frames that the server writes of a read.
use durable_streams_rust.Prelude.{
  ℕ, ◌<◌, List, [], ◌∷◌, map, ◌≡◌, refl, ap, ◌∙◌, Str, arith, ◌||◌, ◌&&◌, Bool, inr, true, false,
  some, Option, u64_mod, All,
}
use durable_streams_rust.Protocol.Offset
use durable_streams_rust.Protocol.Offset.{Offset, as_str, parse_components}
use durable_streams_rust.Protocol.Sse.{SseCodec}
use durable_streams_rust.Storage.Types.{ReadResult}
use durable_streams_rust.Storage.Shared.{payload_bytes}
use durable_streams_rust.Storage.Memory.Commit.{bytes_of, payload_bytes-lt}
use durable_streams_rust.Handlers.Events.{encode_messages, encode_each, encode_read_as_sse_frames}
use durable_streams_rust.Client.Sse.{ParsedEvent, ClientResult, ok, ◌>>=◌, push, default_parser}
use durable_streams_rust.Client.Sse.Frames.{received}
use durable_streams_rust.Client.Sse.Collect.{
  ReadChunk, ReadResponse, SseDecoder, Collected, nothing_collected, take_events, collect_chunks,
  received_chunk, response_of, collect_sse,
}
use durable_streams_rust.Client.Sse.Pairs.{ReadsBack, as_text, to_the_end, IsUtf8}
use durable_streams_rust.Client.Sse.Messages.{push_messages, collect_messages, settled}

-- The response, as the read and its messages have it.
pub record AnswersRead (r : ReadResult) (response : ReadResponse) : Type 0 where
  pub contents :
      map (λ (chunk : ReadChunk). chunk.content) response.chunks ≡ map received r.messages
  pub position : response.next_offset ≡ as_str r.next_offset
  pub closed : response.stream_closed ≡ (r.closed && r.at_tail)
  pub current : response.up_to_date ≡ r.at_tail

module _ (codec : SseCodec) (decoder : SseDecoder) (back : ReadsBack codec decoder)
    (content_type etag : Option Str) where
  -- A chunk with the events, all taken.
  collect_one :
      (frames : Str) (events : List ParsedEvent) (c : Collected) (offset : Str)
      → push default_parser frames ≡ ok (default_parser, events)
      → take_events decoder (to_the_end content_type etag) nothing_collected events ≡ ok c
      → c.next_offset ≡ some offset
      → collect_sse decoder (to_the_end content_type etag) (inr frames ∷ [])
        ≡ response_of decoder (to_the_end content_type etag) c (some offset)
  unfolding collect_sse collect_chunks received_chunk
  collect_one frames events c offset pushed taken position =
      ap
        (λ (x : ClientResult Collected).
          x >>= λ c'. response_of decoder (to_the_end content_type etag) c' c'.next_offset)
        (run ∙ settled (ok c) ((c.stream_closed || false) || false))
      ∙ ap (response_of decoder (to_the_end content_type etag) c) position
    where
      run :
          collect_chunks decoder
            (to_the_end content_type etag)
            default_parser
            nothing_collected
            (inr frames ∷ [])
          ≡ elim ((c.stream_closed || false) || false) as (λ _. ClientResult Collected) [
            | true ↦ ok c
            | false ↦ ok c
          ]
      run = rw (pushed, taken) refl

  -- A client that reads an event stream of text to its end collects the read that the server sent:
  -- its messages, one chunk for each, as an event stream carries them, and the offset, the closed flag
  -- and the up-to-date flag of the read. serde_json reads back what it writes, on one line with no
  -- space in front. The messages are UTF-8, there is one, and the counters fit 64 bits.
  pub encode_read_as_sse_frames-collect_sse :
      (m : Str) (ms : List Str) (tail_seq tail_bytes last : ℕ) (at_tail closed : Bool)
      → All IsUtf8 (m ∷ ms)
      → tail_seq < u64_mod
      → tail_bytes < u64_mod
      → bytes_of (m ∷ ms) < u64_mod
      → let r : ReadResult = record {
        messages = m ∷ ms;
        next_offset = Offset.new tail_seq tail_bytes;
        at_tail = at_tail;
        closed = closed;
      } in
        (sent : Str × ℕ) × (encode_read_as_sse_frames codec as_text last r ≡ some sent)
        × (response : ReadResponse) × (collect_sse decoder
              (to_the_end content_type etag)
              (inr sent.0 ∷ [])
            ≡ ok response)
        × AnswersRead r response
  unfolding encode_read_as_sse_frames encode_each Offset.new parse_components response_of
  encode_read_as_sse_frames-collect_sse m ms tail_seq tail_bytes last at_tail closed valid small_seq
        small_bytes small =
      let r : ReadResult = record {
        messages = m ∷ ms;
        next_offset = Offset.new tail_seq tail_bytes;
        at_tail = at_tail;
        closed = closed;
      } in
      let total : payload_bytes (m ∷ ms) ≡ bytes_of (m ∷ ms) = payload_bytes-lt (m ∷ ms) small in
      let (c, taken, end) =
        collect_messages codec decoder back content_type etag r tail_seq tail_bytes small_seq
          small_bytes ms m last (payload_bytes (m ∷ ms)) nothing_collected total (omega arith) in
      (
        encode_messages codec as_text r tail_seq tail_bytes last (payload_bytes (m ∷ ms)) (m ∷ ms),
        refl,
        record {
          status = 200;
          next_offset = as_str (Offset.new tail_seq tail_bytes);
          up_to_date = c.up_to_date;
          stream_closed = c.stream_closed;
          cursor = c.cursor;
          content_type = content_type;
          etag = etag;
          chunks = c.chunks;
        },
        collect_one _ _ c (as_str (Offset.new tail_seq tail_bytes))
            (push_messages codec decoder back content_type etag r tail_seq tail_bytes last
              (payload_bytes (m ∷ ms)) (m ∷ ms) valid)
            taken end.position,
        record {
          contents = end.contents;
          position = refl;
          closed = end.closed;
          current = end.current;
        },
      )
