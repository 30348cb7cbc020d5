-- ===== src/Handlers/Events.antt =====
-- handlers/get.rs: a read as the frames of an event stream. The counter of the cursor generator is
-- passed along. The subtractions of u64 wrap, as they do in a release build.
use durable_streams_rust.Prelude.{
  ℕ, ◌+◌, ◌-◌, ◌%◌, Bool, true, false, ◌&&◌, ◌||◌, Option, none, some, List, [], ◌∷◌, ◌++◌, Str,
  length, u64_mod, ◌==◌, if◌then◌else◌,
}
use durable_streams_rust.Prelude.Split.{decimal}
use durable_streams_rust.Protocol.Cursor.{generate}
use durable_streams_rust.Protocol.Offset
use durable_streams_rust.Protocol.Offset.{Offset, as_str, parse_components}
use durable_streams_rust.Protocol.Sse.{
  ControlPayload, SseCodec, format_control_frame, format_data_frame, format_data_frames,
}
use durable_streams_rust.Storage.Types.{ReadResult}
use durable_streams_rust.Storage.Shared.{payload_bytes}

abbrev pub sub64 : ℕ → ℕ → ℕ
sub64 a b = (a + u64_mod - b) % u64_mod

pub record SseEncoding : Type 0 where
  pub is_binary : Bool
  pub is_json : Bool

abbrev pub at_end : ReadResult → Bool
at_end r = r.closed && r.at_tail

unfoldable pub control_cursor : ℕ → ReadResult → Option Str × ℕ
control_cursor last r =
    let (cursor, last') = generate last r.next_offset in
    if at_end r then (none, last) else (some (decimal cursor), last')

unfoldable pub build_sse_control : ℕ → ReadResult → ControlPayload × ℕ
unfolding control_cursor
build_sse_control last r =
    let (cursor, last') = control_cursor last r in
    (
      record {
        stream_next_offset = as_str r.next_offset;
        stream_cursor = cursor;
        up_to_date = if r.at_tail then some true else none;
        stream_closed = if at_end r then some true else none;
      },
      last',
    )

abbrev pub has_none : List Str → Bool
has_none [] = true
has_none (m ∷ ms) = false

module _ (codec : SseCodec) where
  -- The read as it stands behind one of its messages, with this many messages and bytes after it.
  unfoldable pub message_read : ReadResult → ℕ → ℕ → ℕ → ℕ → ReadResult
  message_read r tail_seq tail_bytes messages bytes =
      let at_tail = (messages == 0) && r.at_tail in
      record {
        messages = [];
        next_offset = Offset.new (sub64 tail_seq messages) (sub64 tail_bytes bytes);
        at_tail = at_tail;
        closed = r.closed && at_tail;
      }

  -- The loop over the messages.
  unfoldable pub encode_messages : SseEncoding → ReadResult → ℕ → ℕ → ℕ → ℕ → List Str → Str × ℕ
  unfolding message_read build_sse_control format_data_frame format_control_frame
  encode_messages encoding r tail_seq tail_bytes last remaining [] = ([], last)
  encode_messages encoding r tail_seq tail_bytes last remaining (m ∷ ms) =
      let bytes = sub64 remaining (length m) in
      let (control, last') =
        build_sse_control last (message_read r tail_seq tail_bytes (length ms) bytes) in
      let (frames, last'') = encode_messages encoding r tail_seq tail_bytes last' bytes ms in
      (
        format_data_frame codec m encoding.is_binary false
            ++ format_control_frame codec control
            ++ frames,
        last'',
      )

  -- `none` where the source panics: the tail of a read is no sentinel.
  unfoldable pub encode_each : SseEncoding → ℕ → ReadResult → Option (ℕ × ℕ) → Option (Str × ℕ)
  unfolding encode_messages
  encode_each encoding last r none = none
  encode_each encoding last r (some (tail_seq, tail_bytes)) =
      some
        (encode_messages encoding r tail_seq tail_bytes last (payload_bytes r.messages) r.messages)

  unfoldable pub encode_whole : SseEncoding → ℕ → ReadResult → Str × ℕ
  unfolding build_sse_control format_data_frames format_control_frame
  encode_whole encoding last r =
      let (control, last') = build_sse_control last r in
      (
        format_data_frames codec r.messages false encoding.is_json
            ++ format_control_frame codec control,
        last',
      )

  -- The frames of a read, and the counter after them.
  unfoldable pub encode_read_as_sse_frames : SseEncoding → ℕ → ReadResult → Option (Str × ℕ)
  unfolding encode_each encode_whole
  encode_read_as_sse_frames encoding last r =
      if encoding.is_json || has_none r.messages
      then some (encode_whole encoding last r)
      else encode_each encoding last r (parse_components r.next_offset)
