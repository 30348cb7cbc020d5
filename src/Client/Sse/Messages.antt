-- ===== src/Client/Sse/Messages.antt =====
-- What the client collects of the frames of all messages of a read.
use mathlib.Core.List.{append_assoc, map-append}
use durable_streams_rust.Prelude.{
  ℕ, ◌<◌, List, [], ◌∷◌, ◌++◌, map, ◌≡◌, refl, ap, ◌∙◌, Str, arith, ◌||◌, ◌&&◌, Bool, true, false,
  some, Option, length, u64_mod, All,
}
use durable_streams_rust.Protocol.Offset
use durable_streams_rust.Protocol.Offset.{Offset, as_str, parse_components}
use durable_streams_rust.Protocol.Sse.{ControlPayload, SseCodec}
use durable_streams_rust.Storage.Types.{ReadResult}
use durable_streams_rust.Storage.Memory.Commit.{bytes_of}
use durable_streams_rust.Handlers.Events.{sub64, build_sse_control, message_read, encode_messages}
use durable_streams_rust.Client.Sse.{
  ParsedEvent, ClientResult, ok, push, parse_buffer, take_lines, parse_lines, with_buffer, behind,
  default_parser,
}
use durable_streams_rust.Client.Sse.Frames.{received}
use durable_streams_rust.Client.Sse.Collect.{
  ReadChunk, SseDecoder, SseRequest, Collected, take_events,
}
use durable_streams_rust.Client.Sse.Pairs.{
  flag, ReadsBack, as_text, to_the_end, IsUtf8, pair_events, after_pair, push_pair, take_pair,
}

abbrev pub contents_of : Collected → List Str
contents_of c = map (λ (chunk : ReadChunk). chunk.content) c.chunks

-- The data that were collected since `c`, and the end of the read where they end.
pub record Delivers (r : ReadResult) (offset : Str) (ms : List Str) (c c' : Collected)
    : Type 0 where
  pub contents : contents_of c' ≡ contents_of c ++ map received ms
  pub position : c'.next_offset ≡ some offset
  pub closed : c'.stream_closed ≡ (r.closed && r.at_tail)
  pub current : c'.up_to_date ≡ r.at_tail

contents_of-after_pair :
    (c : Collected) (m : Str) (control : ControlPayload)
    → contents_of (after_pair c m control) ≡ contents_of c ++ (received m ∷ [])
unfolding after_pair
contents_of-after_pair c m control = map-append _ c.chunks _

goes_on :
    (c d : ClientResult Collected) (b : Bool)
    → b ≡ false
    → elim (b || false) as (λ _. ClientResult Collected) [ true ↦ c | false ↦ d ] ≡ d
goes_on c d true h = cc
goes_on c d false h = refl

pub settled :
    (c : ClientResult Collected) (b : Bool)
    → elim b as (λ _. ClientResult Collected) [ true ↦ c | false ↦ c ] ≡ c
settled c true = refl
settled c false = refl

module _ (codec : SseCodec) (decoder : SseDecoder) (back : ReadsBack codec decoder)
    (content_type etag : Option Str) (r : ReadResult) (tail_seq tail_bytes : ℕ) where
  abbrev request : SseRequest
  request = to_the_end content_type etag

  -- The control behind a message, with the cursor counter after it.
  control_behind : ℕ → ℕ → Str → List Str → ControlPayload × ℕ
  control_behind last remaining m ms =
      build_sse_control last
        (message_read codec r tail_seq tail_bytes (length ms) (sub64 remaining (length m)))

  pub message_events : ℕ → ℕ → List Str → List ParsedEvent
  unfolding control_behind
  message_events last remaining [] = []
  message_events last remaining (m ∷ ms) =
      pair_events codec m (control_behind last remaining m ms).0
      ++ message_events (control_behind last remaining m ms).1 (sub64 remaining (length m)) ms

  pub push_messages :
      (last remaining : ℕ) (ms : List Str)
      → All IsUtf8 ms
      → push default_parser
          (encode_messages codec as_text r tail_seq tail_bytes last remaining ms).0
        ≡ ok (default_parser, message_events last remaining ms)
  unfolding encode_messages message_events control_behind
  push_messages last remaining [] h =
      unfold push parse_buffer take_lines parse_lines with_buffer in refl
  push_messages last remaining (m ∷ ms) h =
      push_pair codec decoder back content_type etag m (control_behind last remaining m ms).0 _ h.0
      ∙ ap (behind (pair_events codec m (control_behind last remaining m ms).0))
          (push_messages (control_behind last remaining m ms).1 (sub64 remaining (length m)) ms h.1)

  last_offset :
      (last remaining : ℕ) (m : Str)
      → remaining ≡ length m
      → tail_seq < u64_mod
      → tail_bytes < u64_mod
      → (control_behind last remaining m []).0.stream_next_offset
        ≡ as_str (Offset.new tail_seq tail_bytes)
  unfolding control_behind build_sse_control message_read
  last_offset last remaining m e h k =
      let a : sub64 tail_seq 0 ≡ tail_seq = omega arith in
      let b : sub64 tail_bytes (sub64 remaining (length m)) ≡ tail_bytes = omega arith in
      λ i. as_str (Offset.new (a i) (b i))

  last_closed :
      (last remaining : ℕ) (m : Str)
      → flag (control_behind last remaining m []).0.stream_closed ≡ (r.closed && r.at_tail)
  unfolding control_behind build_sse_control message_read
  last_closed last remaining m = ground arith

  last_current :
      (last remaining : ℕ) (m : Str)
      → (flag (control_behind last remaining m []).0.up_to_date
          || flag (control_behind last remaining m []).0.stream_closed)
        ≡ r.at_tail
  unfolding control_behind build_sse_control message_read
  last_current last remaining m = ground arith

  earlier_open :
      (last remaining : ℕ) (m n : Str) (ms : List Str)
      → flag (control_behind last remaining m (n ∷ ms)).0.stream_closed ≡ false
  unfolding control_behind build_sse_control message_read
  earlier_open last remaining m n ms = ground arith

  module _ (small_seq : tail_seq < u64_mod) (small_bytes : tail_bytes < u64_mod) where
    pub collect_messages :
        (ms : List Str) (m : Str) (last remaining : ℕ) (c : Collected)
        → remaining ≡ bytes_of (m ∷ ms)
        → remaining < u64_mod
        → (c' : Collected) × (take_events decoder request c (message_events last remaining (m ∷ ms))
            ≡ ok c')
          × Delivers r (as_str (Offset.new tail_seq tail_bytes)) (m ∷ ms) c c'
    unfolding message_events after_pair take_events
    collect_messages [] m last remaining c e small =
        let control = (control_behind last remaining m []).0 in
        (
          after_pair c m control,
          take_pair codec decoder back content_type etag c m control [] ∙ settled _ _,
          record {
            contents = contents_of-after_pair c m control;
            position = ap some (last_offset last remaining m (omega arith) small_seq small_bytes);
            closed = last_closed last remaining m;
            current = last_current last remaining m;
          },
        )
    collect_messages (n ∷ ms) m last remaining c e small =
        let control = (control_behind last remaining m (n ∷ ms)).0 in
        let next = after_pair c m control in
        let rest : sub64 remaining (length m) ≡ bytes_of (n ∷ ms) = omega arith in
        let rest_small : sub64 remaining (length m) < u64_mod = omega arith in
        let (c', run, end) =
          collect_messages ms n (control_behind last remaining m (n ∷ ms)).1
            (sub64 remaining (length m)) next rest rest_small in
        (
          c',
          take_pair codec decoder back content_type etag c m control (
                message_events (control_behind last remaining m (n ∷ ms)).1
                  (sub64 remaining (length m)) (n ∷ ms))
              ∙ goes_on _ _ _ (earlier_open last remaining m n ms)
              ∙ run,
          record {
            contents =
                end.contents
                ∙ ap (λ (xs : List Str). xs ++ map received (n ∷ ms))
                    (contents_of-after_pair c m control)
                ∙ append_assoc (contents_of c) (received m ∷ []) (map received (n ∷ ms));
            position = end.position;
            closed = end.closed;
            current = end.current;
          },
        )
