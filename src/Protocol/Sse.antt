-- ===== src/Protocol/Sse.antt =====
-- protocol/sse.rs: the frames of an event stream.
use durable_streams_rust.Prelude.{
  ℕ, Bool, false, not, ◌||◌, Option, List, [], ◌∷◌, ◌++◌, Str, text, str_eq, starts_with,
  if◌then◌else◌, ◌==◌,
}
use durable_streams_rust.Prelude.Split.{onto_first}
use durable_streams_rust.Prelude.Utf8.{from_utf8_lossy}

pub record ControlPayload : Type 0 where
  pub stream_next_offset : Str
  pub stream_cursor : Option Str
  pub up_to_date : Option Bool
  pub stream_closed : Option Bool

abbrev pub newline : ℕ
newline = 10

abbrev pub carriage_return : ℕ
carriage_return = 13

-- serde_json::to_string, and base64's standard engine.
pub record SseCodec : Type 0 where
  pub to_string : ControlPayload → Str
  pub encode : Str → Str

-- The loop of `split_lines`: every form of a line's end is a boundary.
unfoldable pub split_lines : Str → List Str
unfolding onto_first
split_lines [] = [] ∷ []
split_lines (c ∷ []) = if c == carriage_return || c == newline then [] ∷ [] ∷ [] else (c ∷ []) ∷ []
split_lines (c ∷ d ∷ s) =
    let rest = split_lines (d ∷ s) in
    let after = split_lines s in
    if c == carriage_return
    then if d == newline then [] ∷ after else [] ∷ rest
    else if c == newline
    then [] ∷ rest
    else onto_first c rest

abbrev pub data_field : Str → Str
data_field line = text "data:" ++ line

-- The loop of `format_raw_data_frame`.
unfoldable pub data_lines : List Str → Str
data_lines [] = []
data_lines (line ∷ lines) = data_field line ++ (newline ∷ data_lines lines)

unfoldable pub format_raw_data_frame : Str → Str
format_raw_data_frame s =
    text "event: data" ++ (newline ∷ data_lines (split_lines s) ++ (newline ∷ []))

unfoldable pub format_keepalive_frame : Str
format_keepalive_frame = b':' ∷ newline ∷ newline ∷ []

unfoldable is_text_content_type : Str → Bool
unfolding starts_with str_eq
is_text_content_type ct = starts_with (text "text/") ct || str_eq ct (text "application/json")

unfoldable pub is_binary_content_type : Str → Bool
unfolding is_text_content_type
is_binary_content_type ct = not (is_text_content_type ct)

-- The loop over the messages of a JSON stream: commas between them.
unfoldable pub joined : List Str → Str
joined [] = []
joined (msg ∷ []) = from_utf8_lossy msg
joined (msg ∷ next ∷ msgs) = from_utf8_lossy msg ++ (b',' ∷ joined (next ∷ msgs))

module _ (codec : SseCodec) where
  unfoldable pub format_control_frame : ControlPayload → Str
  format_control_frame payload =
      text "event: control"
      ++ (newline ∷ data_field (codec.to_string payload) ++ (newline ∷ newline ∷ []))

  unfoldable pub format_data_frame : Str → Bool → Bool → Str
  unfolding format_raw_data_frame
  format_data_frame message is_binary is_json = format_raw_data_frame (
      if is_binary
      then codec.encode message
      else if is_json
      then b'[' ∷ from_utf8_lossy message ++ (b']' ∷ [])
      else from_utf8_lossy message)

  frames_of : List Str → Bool → Str
  unfolding format_data_frame
  frames_of [] is_binary = []
  frames_of (msg ∷ msgs) is_binary =
      format_data_frame msg is_binary false ++ frames_of msgs is_binary

  unfoldable pub format_data_frames : List Str → Bool → Bool → Str
  unfolding frames_of joined format_raw_data_frame
  format_data_frames [] is_binary is_json = []
  format_data_frames (msg ∷ msgs) is_binary is_json =
      if is_json
      then format_raw_data_frame (b'[' ∷ joined (msg ∷ msgs) ++ (b']' ∷ []))
      else frames_of (msg ∷ msgs) is_binary
