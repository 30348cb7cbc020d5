-- ===== src/Handlers/Reads.antt =====
-- handlers/get.rs: what a read answers, with its body.
use durable_streams_rust.Prelude.{
  ℕ, Bool, true, false, Option, none, some, List, [], ◌∷◌, ◌++◌, Str, text, str_eq, if◌then◌else◌,
}
use durable_streams_rust.Prelude.Split.{decimal}
use durable_streams_rust.Protocol.Cursor.{generate}
use durable_streams_rust.Protocol.Json.{is_json_content_type, wrap_read_iter}
use durable_streams_rust.Protocol.Offset.{Offset, as_str}
use durable_streams_rust.Storage.Types.{ReadResult}
use durable_streams_rust.Storage.Memory.Entry.{InMemoryStorage}
use durable_streams_rust.Handlers.Events.{at_end}
use durable_streams_rust.Handlers.Problem.{
  Answer, response, with_header, with_next_offset, closed_if,
}

-- An answer with its body, and the store and the cursor generator's counter after it.
pub record Reply : Type 0 where
  pub answer : Answer
  pub body : Str
  pub storage : InMemoryStorage
  pub last_cursor : ℕ

abbrev pub without_body : Answer → InMemoryStorage → ℕ → Reply
without_body answer st last = record {
  answer = answer;
  body = [];
  storage = st;
  last_cursor = last;
}

unfoldable pub generate_etag : Str → ReadResult → Str
generate_etag start_offset r =
    b'"'
    ∷ (start_offset
        ++ (b':'
            ∷ (as_str r.next_offset ++ (if at_end r then b':' ∷ b'c' ∷ b'"' ∷ [] else b'"' ∷ []))))

-- The client's tag is the one of the read.
unfoldable pub is_unmodified : Str → Option Str → Bool
is_unmodified etag none = false
is_unmodified etag (some client) = str_eq client etag

abbrev flag_text : Bool → Str
flag_text value = if value then text "true" else text "false"

unfoldable pub up_to_date : Bool → Answer → Answer
up_to_date value answer = with_header (text "stream-up-to-date") (flag_text value) answer

unfoldable pub build_304_response : ReadResult → Answer
unfolding up_to_date
build_304_response r = up_to_date true (with_next_offset r.next_offset (response 304 []))

unfoldable pub with_cursor : Option ℕ → Answer → Answer
with_cursor none answer = answer
with_cursor (some cursor) answer = with_header (text "stream-cursor") (decimal cursor) answer

abbrev pub concatenated : List Str → Str
concatenated [] = []
concatenated (m ∷ ms) = m ++ concatenated ms

unfoldable pub build_body : ReadResult → Str → Str
unfolding wrap_read_iter
build_body r content_type =
    if is_json_content_type content_type then wrap_read_iter r.messages else concatenated r.messages

unfoldable pub build_data_response : ReadResult → Str → Str → Option ℕ → Answer × Str
unfolding up_to_date with_cursor build_body
build_data_response r content_type etag cursor = (
  with_cursor cursor (
      closed_if (at_end r) (
        with_header (text "etag") etag (
          up_to_date r.at_tail (
            with_next_offset r.next_offset
              (with_header (text "content-type") content_type (response 200 [])))))),
  build_body r content_type,
)

unfoldable pub build_204_response : ℕ → Offset → Bool → Answer × ℕ
unfolding up_to_date with_cursor
build_204_response last next_offset is_closed =
    let (cursor, last') = generate last next_offset in
    (
      with_cursor (some cursor)
          (closed_if is_closed (up_to_date true (with_next_offset next_offset (response 204 [])))),
      last',
    )

unfoldable pub data_reply : ReadResult → Str → Str → InMemoryStorage → ℕ → Reply
unfolding build_data_response
data_reply r content_type etag st last =
    let (answer, body) = build_data_response r content_type etag none in
    record { answer = answer; body = body; storage = st; last_cursor = last }

-- With a cursor, for a client that polls.
unfoldable pub polled_reply : ReadResult → Str → Str → InMemoryStorage → ℕ → Reply
unfolding build_data_response
polled_reply r content_type etag st last =
    let (cursor, last') = generate last r.next_offset in
    let (answer, body) = build_data_response r content_type etag (some cursor) in
    record { answer = answer; body = body; storage = st; last_cursor = last' }

unfoldable pub empty_reply : Offset → Bool → InMemoryStorage → ℕ → Reply
unfolding build_204_response
empty_reply next_offset is_closed st last =
    let (answer, last') = build_204_response last next_offset is_closed in
    without_body answer st last'
