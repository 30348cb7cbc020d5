-- ===== src/Client/Sse/Collect.antt =====
-- protocol.rs of the client: collect_sse, which reads an event stream into a response.
use durable_streams_rust.Prelude.{
  ℕ, Bool, true, false, ◌&&◌, ◌||◌, Option, none, some, List, [], ◌∷◌, ◌++◌, Str, text, str_eq,
  length, leb, ◌==◌, if◌then◌else◌, ◌⊎◌, inl, inr,
}
use durable_streams_rust.Client.Sse.{
  ClientResult, ok, err, parse, base64, transport, ◌>>=◌, ParsedEvent, SseParser, default_parser,
  push,
}

pub record ControlEvent : Type 0 where
  pub stream_next_offset : Str
  pub stream_cursor : Option Str
  pub up_to_date : Bool
  pub stream_closed : Bool

pub record ReadChunk : Type 0 where
  pub content : Str
  pub next_offset : Str

pub record ReadResponse : Type 0 where
  pub status : ℕ
  pub next_offset : Str
  pub up_to_date : Bool
  pub stream_closed : Bool
  pub cursor : Option Str
  pub content_type : Option Str
  pub etag : Option Str
  pub chunks : List ReadChunk

-- base64's standard engine and serde_json::from_str, each with the text of its error.
pub record SseDecoder : Type 0 where
  pub decode : Str → Str ⊎ Str
  pub from_str : Str → Str ⊎ ControlEvent

-- The headers of the response, and the limits of the request.
pub record SseRequest : Type 0 where
  pub content_type : Option Str
  pub etag : Option Str
  pub base64_mode : Bool
  pub max_chunks : Option ℕ
  pub wait_for_up_to_date : Bool

-- The variables of the loop.
pub record Collected : Type 0 where
  pub chunks : List ReadChunk
  pub next_offset : Option Str
  pub cursor : Option Str
  pub up_to_date : Bool
  pub stream_closed : Bool

abbrev pub nothing_collected : Collected
nothing_collected = record {
  chunks = [];
  next_offset = none;
  cursor = none;
  up_to_date = false;
  stream_closed = false;
}

-- `event.data.replace(['\n', '\r'], "")`
unfoldable pub flattened : Str → Str
flattened [] = []
flattened (c ∷ s) = if c == 10 || c == 13 then flattened s else c ∷ flattened s

abbrev pub or_start : Option Str → Str
or_start none = text "-1"
or_start (some offset) = offset

abbrev or_data : Option Str → Str
or_data none = text "data"
or_data (some kind) = kind

unfoldable pub decoded : Str ⊎ Str → ClientResult Str
decoded (inl message) = err (base64 message)
decoded (inr bytes) = ok bytes

unfoldable pub control_of : Str ⊎ ControlEvent → ClientResult ControlEvent
control_of (inl message) = err (parse (text "invalid SSE control event JSON: " ++ message))
control_of (inr control) = ok control

abbrev reached : Option ℕ → ℕ → Bool
reached none n = false
reached (some limit) n = leb limit n

unfoldable pub add_chunk : Collected → Str → Collected
add_chunk c bytes = record c {
  chunks = c.chunks ++ (record { content = bytes; next_offset = or_start c.next_offset } ∷ []);
}

unfoldable pub set_control : Collected → ControlEvent → Collected
set_control c control = record c {
  next_offset = some control.stream_next_offset;
  cursor = control.stream_cursor;
  up_to_date = control.up_to_date || control.stream_closed;
  stream_closed = control.stream_closed;
}

module _ (decoder : SseDecoder) (request : SseRequest) where
  abbrev pub enough : Collected → Bool
  enough c = reached request.max_chunks (length c.chunks)

  abbrev pub at_end : Collected → Bool
  at_end c = c.stream_closed || (request.wait_for_up_to_date && c.up_to_date)

  unfoldable pub data_bytes : Str → ClientResult Str
  unfolding decoded flattened
  data_bytes content =
      if request.base64_mode then decoded (decoder.decode (flattened content)) else ok content

  -- The match on an event's kind. The flag says that the loop over the events breaks.
  unfoldable pub take_event : Collected → ParsedEvent → ClientResult (Collected × Bool)
  unfolding data_bytes add_chunk control_of set_control str_eq
  take_event c event =
      if str_eq (or_data event.kind) (text "data")
      then (do bytes ← data_bytes event.content; ok (add_chunk c bytes, enough (add_chunk c bytes)))
      else if str_eq (or_data event.kind) (text "control")
      then (do
        control ← control_of (decoder.from_str event.content)
        ok (set_control c control, at_end (set_control c control)))
      else ok (c, false)

  unfoldable pub take_events : Collected → List ParsedEvent → ClientResult Collected
  unfolding take_event
  take_events c [] = ok c
  take_events c (event ∷ events) = do
    (c', stop) ← take_event c event
    elim stop [ true ↦ ok c' | false ↦ take_events c' events ]

  unfoldable pub received_chunk : Str ⊎ Str → ClientResult Str
  received_chunk (inl message) = err (transport message)
  received_chunk (inr bytes) = ok bytes

  -- The loop over the chunks of the body, as they arrive.
  unfoldable pub collect_chunks : SseParser → Collected → List (Str ⊎ Str) → ClientResult Collected
  unfolding received_chunk take_events push
  collect_chunks parser c [] = ok c
  collect_chunks parser c (chunk ∷ chunks) = do
    bytes ← received_chunk chunk
    (parser', events) ← push parser bytes
    c' ← take_events c events
    elim (at_end c' || enough c') [ true ↦ ok c' | false ↦ collect_chunks parser' c' chunks ]

  unfoldable pub response_of : Collected → Option Str → ClientResult ReadResponse
  response_of c none = err (parse (text "missing SSE control event with streamNextOffset"))
  response_of c (some next_offset) = ok (record {
    status = 200;
    next_offset = next_offset;
    up_to_date = c.up_to_date;
    stream_closed = c.stream_closed;
    cursor = c.cursor;
    content_type = request.content_type;
    etag = request.etag;
    chunks = c.chunks;
  })

  -- collect_sse
  unfoldable pub collect_sse : List (Str ⊎ Str) → ClientResult ReadResponse
  unfolding collect_chunks response_of
  collect_sse chunks = do
    c ← collect_chunks default_parser nothing_collected chunks
    response_of c c.next_offset
