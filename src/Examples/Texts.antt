-- ===== src/Examples/Texts.antt =====
-- The theorems on offsets, ranges, headers and cursors at concrete texts.
use durable_streams_rust.Prelude.{
  trim, ℕ, ◌≡◌, text, ◌↔◌, ◌≤◌, ◌+◌, ◌≢◌, List, [], ◌∷◌, some, str_cmp, refl, arith,
}
use durable_streams_rust.Protocol.Error.{ok}
use durable_streams_rust.Protocol.Offset
use durable_streams_rust.Protocol.Offset.{Offset, as_str, parse_components, from_str, cmp}
use durable_streams_rust.Protocol.Cursor.{offset_value, generate}
use durable_streams_rust.Protocol.Cursor.Ascent.{Ascend, generated, generated-Ascend}
use durable_streams_rust.Protocol.Headers.{parse_u64}
use durable_streams_rust.Protocol.Producer.{
  ProducerHeaders, max_safe_integer, parse_non_negative_int, parse_producer_headers,
  parse_producer_headers_bounds,
}
use durable_streams_rust.Storage.Types.{Message, new_message}
use durable_streams_rust.Storage.Fork.{message_range}
use durable_streams_rust.Storage.Fork.Ranges.{message_range-le}
use durable_streams_rust.Protocol.Offset.RoundTrip.{IsCanonical, from_str_iff}
use durable_streams_rust.Protocol.Offset.Order.{cmp-as_str}

abbrev early : Offset
early = Offset.new 3 42

abbrev late : Offset
late = Offset.new 16 0

early-text_example :
    (from_str (text "0000000000000003_000000000000002a") ≡ ok early)
    ↔ (IsCanonical early × (as_str early ≡ text "0000000000000003_000000000000002a"))
early-text_example = from_str_iff (text "0000000000000003_000000000000002a") early

early-IsCanonical : IsCanonical early
unfolding Offset.new
early-IsCanonical = (omega arith, omega arith, refl)

late-IsCanonical : IsCanonical late
unfolding Offset.new
late-IsCanonical = (omega arith, omega arith, refl)

early-late_example : cmp early late ≡ str_cmp (as_str early) (as_str late)
early-late_example = cmp-as_str early late early-IsCanonical late-IsCanonical

abbrev pair : List Message
pair = new_message (Offset.new 0 0) (text "a") ∷ new_message (Offset.new 1 1) (text "bc") ∷ []

pair_example :
    ((message_range pair (Offset.new 1 1) (some (Offset.new 1 0))).0
      ≤ (message_range pair (Offset.new 1 1) (some (Offset.new 1 0))).1)
    × ((message_range pair (Offset.new 1 1) (some (Offset.new 1 0))).1 ≤ 2)
pair_example = message_range-le pair (Offset.new 1 1) (some (Offset.new 1 0))

abbrev parsed : ProducerHeaders
parsed = record { id = text "w"; epoch = 1; seq = 42 }

headers_run :
    parse_producer_headers (some (text "w")) (some (text "1")) (some (text "42")) ≡ ok (some parsed)
unfolding parse_producer_headers parse_non_negative_int parse_u64
headers_run = refl

headers_example :
    (parsed.epoch ≤ max_safe_integer) × (parsed.seq ≤ max_safe_integer) × (parsed.id ≢ [])
headers_example =
    parse_producer_headers_bounds (some (text "w")) (some (text "1")) (some (text "42")) parsed
      headers_run

-- A plus sign in front hides a leading zero from the test.
plus_accepted : parse_non_negative_int (text "+05") (text "Producer-Seq") ≡ ok 5
unfolding parse_non_negative_int parse_u64
plus_accepted = refl

abbrev three_positions : List (ℕ × ℕ)
three_positions = (1, 2) ∷ (1, 2) ∷ (3, 7) ∷ []

generated-Ascend_example : Ascend 5 three_positions (generated 5 three_positions)
generated-Ascend_example =
    generated-Ascend 5 three_positions
      (omega arith, omega arith, (omega arith, omega arith, (omega arith, omega arith, tt)))
      (omega arith) (omega arith)

-- A cursor above 2^53 - 1.
cursor_past_safe : (generate 0 (Offset.new 67108864 0)).0 ≡ max_safe_integer + 1
unfolding generate parse_components Offset.new offset_value
cursor_past_safe = refl

-- A no-break space in front and an em space behind.
trim_unicode : trim (194 ∷ 160 ∷ b'a' ∷ 32 ∷ b'b' ∷ 226 ∷ 128 ∷ 131 ∷ []) ≡ text "a b"
unfolding trim
trim_unicode = refl
