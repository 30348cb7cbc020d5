-- ===== src/Protocol/Offset.antt =====
-- protocol/offset.rs: stream positions, their text, and their order.
-- `raw` is the 33-byte encoding that the source caches in each concrete offset.
mod Hex
pub mod RoundTrip
pub mod Order
pub mod Width
use durable_streams_rust.Prelude.{
  ℕ, zero, suc, ◌+◌, ◌-◌, ◌*◌, ◌/◌, ◌%◌, ◌^◌, Bool, true, false, not, ◌&&◌, ◌||◌, Option, none,
  some, List, [], ◌∷◌, ◌++◌, Str, text, length, get_or, take, drop, ltb, leb, ◌==◌, if◌then◌else◌,
  str_eq, str_cmp, bit_or, bit_and, u64_mod, compare, Ordering, Bool-cases,
}
use durable_streams_rust.Protocol.Error.{Result, ok, err, invalid_offset}

pub data Offset : Type 0 where
  start : Offset
  now : Offset
  -- read_seq, byte_offset, raw
  concrete : ℕ → ℕ → Str → Offset

abbrev pub start_text : Str
start_text = text "-1"

abbrev pub now_text : Str
now_text = text "now"

abbrev hex : Str
hex = text "0123456789abcdef"

-- One half of `encode_offset`. Slot `i` of 16 has `shift = (15 - i) * 4`, which is `k * 4` where
-- `k` more slots follow; `n >> shift` is a division by a power of two.
pub encode_hex : ℕ → ℕ → Str
encode_hex zero n = []
encode_hex (suc k) n = get_or hex (bit_and (n / 2 ^ (k * 4)) 0xF) 0 ∷ encode_hex k n

pub encode_offset : ℕ → ℕ → Str
encode_offset read_seq byte_offset = encode_hex 16 read_seq ++ (b'_' ∷ encode_hex 16 byte_offset)

unfoldable pub new : ℕ → ℕ → Offset
new read_seq byte_offset = concrete read_seq byte_offset (encode_offset read_seq byte_offset)

unfoldable pub is_start : Offset → Bool
is_start start = true
is_start _ = false

unfoldable pub is_now : Offset → Bool
is_now now = true
is_now _ = false

unfoldable is_sentinel : Offset → Bool
is_sentinel start = true
is_sentinel now = true
is_sentinel (concrete _ _ _) = false

unfoldable pub as_str : Offset → Str
as_str start = start_text
as_str now = now_text
as_str (concrete read_seq byte_offset raw) = raw

unfoldable pub parse_components : Offset → Option (ℕ × ℕ)
parse_components start = none
parse_components now = none
parse_components (concrete read_seq byte_offset raw) = some (read_seq, byte_offset)

-- The digit of one byte in `decode_hex_16`; `b - b'0'` is under the guard, so `-` is exact.
pub hex_digit : ℕ → Option ℕ
hex_digit b =
    if leb b'0' b && leb b b'9'
    then some (b - b'0')
    else if leb b'a' b && leb b b'f'
    then some (b - b'a' + 10)
    else none

-- The loop of `decode_hex_16`: `value << 4` keeps the low 64 bits.
pub decode_loop : ℕ → Str → Option ℕ
decode_loop value [] = some value
decode_loop value (b ∷ bs) = elim (hex_digit b) [
  | none ↦ none
  | some digit ↦ decode_loop (bit_or (value * 16 % u64_mod) digit) bs
]

decode_hex_16 : Str → Option ℕ
decode_hex_16 bytes = if not (length bytes == 16) then none else decode_loop 0 bytes

is_ascii_uppercase : ℕ → Bool
is_ascii_uppercase b = leb b'A' b && leb b b'Z'

is_lower_hex : ℕ → Bool
is_lower_hex b = (leb b'0' b && leb b b'9') || (leb b'a' b && leb b b'f')

-- The loop over the bytes of `s` from index `idx` on; `none` where it finds nothing to reject.
pub check_bytes : Str → ℕ → Str → Option Str
check_bytes s idx [] = none
check_bytes s idx (b ∷ bs) =
    let rest = check_bytes s (idx + 1) bs in
    if idx == 16
    then rest
    else if is_ascii_uppercase b
    then some (text "Offset must use lowercase hex digits: '" ++ s ++ text "'")
    else if not (is_lower_hex b)
    then some (
        text "Invalid hex character in part "
        ++ (if ltb idx 16 then text "1" else text "2")
        ++ text " of '"
        ++ s
        ++ text "'")
    else rest

ok_or {ℓ} : {A : Type ℓ} → Option A → Str → Result A
ok_or none message = err (invalid_offset message)
ok_or (some a) message = ok a

both_halves : Str → Option ℕ → Option ℕ → Result Offset
both_halves s none _ =
    err (invalid_offset (text "Failed to parse hex values in '" ++ s ++ text "'"))
both_halves s (some _) none =
    err (invalid_offset (text "Failed to parse hex values in '" ++ s ++ text "'"))
both_halves s (some read_seq) (some byte_offset) = ok (new read_seq byte_offset)

from_checked : Str → Option Str → Result Offset
from_checked s (some message) = err (invalid_offset message)
from_checked s none = both_halves s (decode_hex_16 (take 16 s)) (decode_hex_16 (drop 17 s))

pub from_str : Str → Result Offset
from_str s =
    if str_eq s start_text
    then ok start
    else if str_eq s now_text
    then ok now
    else if not (length s == 33) || not (get_or s 16 0 == b'_')
    then err
        (invalid_offset (text "Expected format 'read_seq_byte_offset', got '" ++ s ++ text "'"))
    else from_checked s (check_bytes s 0 s)

-- The lexicographic order of two pairs.
pub cmp_pair : ℕ × ℕ → ℕ × ℕ → Ordering
cmp_pair (a, b) (c, d) = elim (compare a c) [
  | Ordering.lt ↦ Ordering.lt
  | Ordering.eq ↦ compare b d
  | Ordering.gt ↦ Ordering.gt
]

cmp_parsed : Option (ℕ × ℕ) → Option (ℕ × ℕ) → Ordering → Ordering
cmp_parsed (some a) (some b) texts = cmp_pair a b
cmp_parsed (some a) none texts = texts
cmp_parsed none _ texts = texts

-- `Ord::cmp`
unfoldable pub cmp : Offset → Offset → Ordering
unfolding cmp_parsed cmp_pair parse_components as_str
cmp a b = cmp_parsed (parse_components a) (parse_components b) (str_cmp (as_str a) (as_str b))

eq_parsed : Option (ℕ × ℕ) → Option (ℕ × ℕ) → Bool → Bool
eq_parsed (some (a, b)) (some (c, d)) texts = (a == c) && (b == d)
eq_parsed (some a) none texts = texts
eq_parsed none _ texts = texts

-- `PartialEq::eq`
unfoldable pub eq : Offset → Offset → Bool
unfolding eq_parsed parse_components as_str
eq a b = eq_parsed (parse_components a) (parse_components b) (str_eq (as_str a) (as_str b))

-- The comparisons that the callers write, `a < b`, `a > b`, and `a.min(b)`.
unfoldable pub offset_lt : Offset → Offset → Bool
offset_lt a b = elim (cmp a b) [ Ordering.lt ↦ true | _ ↦ false ]

unfoldable pub offset_min : Offset → Offset → Offset
offset_min a b = elim (cmp a b) [ Ordering.gt ↦ b | _ ↦ a ]
