-- ===== src/Examples/Events.antt =====
-- The theorems on event streams, entity tags and long polls at concrete values.
use durable_streams_rust.Prelude.{
  ℕ, [], ◌∷◌, ◌++◌, map, ◌≡◌, ◌↔◌, ◌⊎◌, refl, Str, text, true, false, none, some, inr, arith, All,
  ◌&&◌,
}
use durable_streams_rust.Prelude.Utf8.{is_utf8, valid_after, after_first}
use durable_streams_rust.Protocol.Error.{ok}
use durable_streams_rust.Protocol.Offset
use durable_streams_rust.Protocol.Offset.{as_str}
use durable_streams_rust.Protocol.Sse.{format_data_frame}
use durable_streams_rust.Handlers.Events.{encode_read_as_sse_frames}
use durable_streams_rust.Handlers.Problem.{answer_status}
use durable_streams_rust.Handlers.Reads.{Reply, generate_etag}
use durable_streams_rust.Handlers.Bodies.{body_of}
use durable_streams_rust.Handlers.Get.{after_wait, awake, catch_up_reply}
use durable_streams_rust.Handlers.Etags.{read_to, SameEnd, catch_up_reply-304_iff}
use durable_streams_rust.Handlers.Polls.{append_batch-after_wait}
use durable_streams_rust.Client.Sse
use durable_streams_rust.Client.Sse.{
  push, default_parser, followed_by, parse, parse_buffer, take_lines, parse_lines, with_buffer,
}
use durable_streams_rust.Client.Sse.Chunks.{push-append}
use durable_streams_rust.Client.Sse.Collect.{ReadChunk, ReadResponse, collect_sse}
use durable_streams_rust.Client.Sse.Pairs.{as_text, to_the_end, IsUtf8}
use durable_streams_rust.Client.Sse.Exact.{collect_sse-encode_read_as_sse_frames}
use durable_streams_rust.Client.Sse.Limit.{one_chunk, collect_sse_one}
use durable_streams_rust.Client.Sse.Texts.{space_lost}
use durable_streams_rust.Examples.Setting.{
  plain, ticking, orders, plain_text, orders_entry, shop, two_messages,
}
use durable_streams_rust.Examples.Appends.{
  append_outcome, shop_after, after_append, append_run, shop_found, after_found, shop-IsLaidOut,
  shop-IsReadable,
}
use durable_streams_rust.Examples.Codec.{small_codec, small_decoder, small_codec-ReadsBack}

push-append_example :
    push default_parser (text "event: da" ++ text "ta")
    ≡ followed_by (push default_parser (text "event: da")) (λ parser. push parser (text "ta"))
push-append_example = push-append default_parser (text "event: da") (text "ta")

b_is_utf8 : is_utf8 (text "b") ≡ true
unfolding is_utf8 valid_after after_first
b_is_utf8 = refl

two_are-IsUtf8 : All IsUtf8 two_messages
unfolding is_utf8 valid_after after_first
two_are-IsUtf8 = (refl, (refl, tt))

collect_sse-encode_read_as_sse_frames_example :
    (sent : Str × ℕ) × (encode_read_as_sse_frames small_codec as_text 0 (record {
      messages = two_messages;
      next_offset = Offset.new 2 3;
      at_tail = true;
      closed = false;
    })
      ≡ some sent)
    × (response : ReadResponse) × (collect_sse small_decoder
          (to_the_end none none)
          (inr sent.0 ∷ [])
        ≡ Sse.ok response)
    × (map (λ (chunk : ReadChunk). chunk.content) response.chunks ≡ two_messages)
    × (response.next_offset ≡ as_str (Offset.new 2 3))
    × (response.stream_closed ≡ (false && true))
    × (response.up_to_date ≡ true)
collect_sse-encode_read_as_sse_frames_example =
    collect_sse-encode_read_as_sse_frames small_codec small_decoder none none (text "a")
      (text "bc" ∷ []) 2 3 0 true false small_codec-ReadsBack two_are-IsUtf8
      (((refl, refl, tt)), ((refl, refl, (refl, refl, tt)), tt)) (omega arith) (omega arith)
      (omega arith)

space_lost_example :
    push default_parser (format_data_frame small_codec (text " b") false false ++ [])
    ≡ push default_parser (format_data_frame small_codec (text "b") false false ++ [])
space_lost_example = space_lost small_codec (text "b") [] b_is_utf8 refl

nothing_read : push default_parser [] ≡ Sse.ok (default_parser, [])
unfolding push parse_buffer take_lines parse_lines with_buffer
nothing_read = refl

collect_sse_one_example :
    collect_sse small_decoder
      (one_chunk none none true)
      (inr (format_data_frame small_codec (text "b") false false ++ []) ∷ [])
    ≡ Sse.err (parse (text "missing SSE control event with streamNextOffset"))
collect_sse_one_example =
    collect_sse_one small_codec small_decoder none none true (text "b") [] [] b_is_utf8 nothing_read

catch_up_reply-304_iff_example :
    let r = read_to [] 2 3 true false in
    let r' = read_to two_messages 4 6 true true in
    let status =
      answer_status
        (catch_up_reply
          (text "-1")
          (some (generate_etag (text "-1") r))
          plain_text
          0
          (ok r', shop)).answer in
    ((status ≡ 304) ↔ SameEnd r r') × ((status ≡ 304) ⊎ (status ≡ 200))
catch_up_reply-304_iff_example =
    catch_up_reply-304_iff (text "-1") plain_text 0 shop [] two_messages 2 3 4 6 true false true
      true

append_batch-after_wait_example :
    (reply : Reply) × (after_wait plain orders plain_text
        (read_to [] 0 0 true false)
        0
        (awake shop_after ticking)
      ≡ some reply)
    × (answer_status reply.answer ≡ 200)
    × (reply.body ≡ body_of plain_text (text "a") (text "bc" ∷ []))
append_batch-after_wait_example =
    append_batch-after_wait plain shop orders (text "a") (text "bc" ∷ []) plain_text none false
      ticking ticking append_outcome shop_after orders_entry after_append [] 0 0 0 plain_text
      (read_to [] 0 0 true false) append_run shop_found after_found shop-IsLaidOut (omega arith)
      (omega arith) refl shop-IsReadable refl
