-- ===== src/Client/Sse/Limit.antt =====
-- A client that asks for one chunk of an event stream.
use durable_streams_rust.Prelude.{
  List, ◌∷◌, ◌++◌, ◌≡◌, refl, Str, text, Bool, true, false, some, Option, ◌⊎◌, inr, str_eq,
}
use durable_streams_rust.Prelude.Utf8.{is_utf8}
use durable_streams_rust.Protocol.Sse.{SseCodec, format_data_frame}
use durable_streams_rust.Client.Sse.{SseParser, ParsedEvent, ok, err, parse, push, default_parser}
use durable_streams_rust.Client.Sse.Texts.{push_data_frame}
use durable_streams_rust.Client.Sse.Collect.{
  SseDecoder, SseRequest, add_chunk, take_event, take_events, data_bytes, collect_chunks,
  received_chunk, response_of, collect_sse,
}

abbrev pub one_chunk : Option Str → Option Str → Bool → SseRequest
one_chunk content_type etag wait = record {
  content_type = content_type;
  etag = etag;
  base64_mode = false;
  max_chunks = some 1;
  wait_for_up_to_date = wait;
}

-- A client that asks for one chunk of a stream of text fails, if what arrives first begins with a data
-- frame and is read without an error: it stops before it has seen the control event that it needs.
pub collect_sse_one :
    (codec : SseCodec) (decoder : SseDecoder) (content_type etag : Option Str) (wait : Bool)
    (m rest : Str) (chunks : List (Str ⊎ Str)) {parser : SseParser} {events : List ParsedEvent}
    → is_utf8 m ≡ true
    → push default_parser rest ≡ ok (parser, events)
    → collect_sse decoder
        (one_chunk content_type etag wait)
        (inr (format_data_frame codec m false false ++ rest) ∷ chunks)
      ≡ err (parse (text "missing SSE control event with streamNextOffset"))
unfolding collect_sse collect_chunks received_chunk take_events take_event data_bytes add_chunk
    str_eq response_of
collect_sse_one codec decoder content_type etag true m rest chunks h read =
    rw (push_data_frame codec m rest h, read) refl
collect_sse_one codec decoder content_type etag false m rest chunks h read =
    rw (push_data_frame codec m rest h, read) refl
