-- ===== src/Client/Sse/Pairs.antt =====
-- A message and its control: the laws of the libraries, and what the client takes of them.
use mathlib.Core.List.{append_assoc}
use durable_streams_rust.Prelude.{
  List, [], ◌∷◌, ◌++◌, ◌≡◌, refl, ap, ◌∙◌, Str, text, ◌||◌, Bool, inr, true, false, some, none,
  Option, str_eq,
}
use durable_streams_rust.Prelude.Utf8.{is_utf8, from_utf8_lossy_valid}
use durable_streams_rust.Protocol.Sse.{
  ControlPayload, SseCodec, format_control_frame, format_data_frame, format_raw_data_frame,
}
use durable_streams_rust.Handlers.Events.{SseEncoding}
use durable_streams_rust.Client.Sse.{ParsedEvent, ok, push, behind, default_parser, without_space}
use durable_streams_rust.Client.Sse.Chunks.{behind-behind}
use durable_streams_rust.Client.Sse.Lines.{IsText}
use durable_streams_rust.Client.Sse.Frames.{
  received, event, push-format_raw_data_frame, push-format_control_frame,
}
use durable_streams_rust.Client.Sse.Collect.{
  ControlEvent, SseDecoder, SseRequest, Collected, add_chunk, set_control, take_event, take_events,
  data_bytes, control_of,
}

abbrev pub flag : Option Bool → Bool
flag none = false
flag (some b) = b

-- A payload as the client reads it: absent fields are false.
abbrev pub as_event : ControlPayload → ControlEvent
as_event p = record {
  stream_next_offset = p.stream_next_offset;
  stream_cursor = p.stream_cursor;
  up_to_date = flag p.up_to_date;
  stream_closed = flag p.stream_closed;
}

-- serde_json writes a payload on one line of UTF-8, with no space in front, and reads it back.
pub record ReadsBack (codec : SseCodec) (decoder : SseDecoder) : Type 0 where
  pub one_line : (p : ControlPayload) → IsText (codec.to_string p)
  pub no_space : (p : ControlPayload) → without_space (codec.to_string p) ≡ codec.to_string p
  pub read_back : (p : ControlPayload) → decoder.from_str (codec.to_string p) ≡ inr (as_event p)

-- A text stream, and a request that reads to its end.
abbrev pub as_text : SseEncoding
as_text = record { is_binary = false; is_json = false }

abbrev pub to_the_end : Option Str → Option Str → SseRequest
to_the_end content_type etag = record {
  content_type = content_type;
  etag = etag;
  base64_mode = false;
  max_chunks = none;
  wait_for_up_to_date = false;
}

abbrev pub IsUtf8 : Str → Type 0
IsUtf8 s = is_utf8 s ≡ true

-- The events of one message: its data, and the control behind it.
abbrev pub pair_events : SseCodec → Str → ControlPayload → List ParsedEvent
pair_events codec m control =
    event (text "data") (received m) ∷ event (text "control") (codec.to_string control) ∷ []

-- The collector after a message and its control.
unfoldable pub after_pair : Collected → Str → ControlPayload → Collected
unfolding set_control add_chunk
after_pair c m control = set_control (add_chunk c (received m)) (as_event control)

module _ (codec : SseCodec) (decoder : SseDecoder) (back : ReadsBack codec decoder)
    (content_type etag : Option Str) where
  pub push_pair :
      (m : Str) (control : ControlPayload) (rest : Str)
      → IsUtf8 m
      → push default_parser
          (format_data_frame codec m false false ++ format_control_frame codec control ++ rest)
        ≡ behind (pair_events codec m control) (push default_parser rest)
  unfolding format_data_frame
  push_pair m control rest h =
      ap
        (λ (s : Str).
          push default_parser
            (format_raw_data_frame s ++ format_control_frame codec control ++ rest))
        (from_utf8_lossy_valid m h)
      ∙ ap (push default_parser)
          (append_assoc (format_raw_data_frame m) (format_control_frame codec control) rest)
      ∙ push-format_raw_data_frame m (format_control_frame codec control ++ rest) h
      ∙ ap (behind (event (text "data") (received m) ∷ [])) (
          push-format_control_frame codec control rest (back.one_line control)
            (back.no_space control))
      ∙ behind-behind (event (text "data") (received m) ∷ [])
          (event (text "control") (codec.to_string control) ∷ []) (push default_parser rest)

  pub take_pair :
      (c : Collected) (m : Str) (control : ControlPayload) (events : List ParsedEvent)
      → take_events decoder (to_the_end content_type etag) c (pair_events codec m control ++ events)
        ≡ elim (flag control.stream_closed || false) [
          | true ↦ ok (after_pair c m control)
          | false ↦
              take_events decoder (to_the_end content_type etag) (after_pair c m control) events
        ]
  unfolding take_events take_event data_bytes str_eq control_of set_control after_pair
  take_pair c m control events = rw (back.read_back control) refl
