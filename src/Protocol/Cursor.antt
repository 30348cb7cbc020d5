-- ===== src/Protocol/Cursor.antt =====
-- protocol/cursor.rs: cursors of long-poll and event-stream responses. The generator's atomic counter
-- is passed along; a round of its compare-and-exchange loop that fails has changed nothing. A cursor is
-- the number that the source prints in decimal.
pub mod Ascent
use durable_streams_rust.Prelude.{
  ℕ, ◌+◌, ◌*◌, ◌%◌, ◌^◌, Option, none, some, max, bit_or, add64, u64_mod,
}
use durable_streams_rust.Protocol.Offset
use durable_streams_rust.Protocol.Offset.{Offset, parse_components}

abbrev pub byte_offset_bits : ℕ
byte_offset_bits = 27

-- `(read_seq << BYTE_OFFSET_BITS) | byte_offset`; the shift drops what leaves the word.
unfoldable pub offset_value : ℕ → ℕ → ℕ
offset_value read_seq byte_offset = bit_or (read_seq * 2 ^ byte_offset_bits % u64_mod) byte_offset

unfoldable pub cursor_at : ℕ → Option (ℕ × ℕ) → ℕ × ℕ
unfolding offset_value
cursor_at last none = (0, last)
cursor_at last (some (read_seq, byte_offset)) =
    let next = max (offset_value read_seq byte_offset) (add64 last 1) in (next, next)

-- CursorGenerator::generate: the cursor, and the counter after it.
unfoldable pub generate : ℕ → Offset → ℕ × ℕ
unfolding cursor_at
generate last next_offset = cursor_at last (parse_components next_offset)
