-- ===== src/Protocol/Offset/RoundTrip.antt =====
-- `from_str` and `as_str` are inverse on canonical offsets.
use durable_streams_rust.Prelude.{
  ℕ, ◌+◌, ◌*◌, ◌/◌, ◌^◌, ◌≤◌, ◌<◌, ◌≡◌, ◌≢◌, ◌↔◌, ◌⊎◌, inl, inr, refl, ap, sym, ◌∙◌, subst, true,
  false, not, ◌||◌, Bool-cases, Option, none, some, List, [], ◌∷◌, ◌++◌, Str, text, length, get_or,
  take, drop, take-get_or-drop, ◌==◌, u64_mod, arith, str_eq, str_eq→eq, str_cmp-eq, compare,
}
use durable_streams_rust.Protocol.Error.{ok}
use durable_streams_rust.Protocol.Offset
use durable_streams_rust.Protocol.Offset.{
  Offset, start, now, concrete, start_text, now_text, encode_hex, encode_offset, hex_digit,
  decode_loop, decode_hex_16, check_bytes, is_ascii_uppercase, is_lower_hex, both_halves,
  from_checked, from_str, as_str,
}
use durable_streams_rust.Protocol.Offset.Hex.{
  horner, digits_of, digits_text, Digits, encode_hex-digits, digits_of-Digits, length-digits_of,
  length-digits_text, compare_refl, horner-digits_of, decode_loop-digits_text, decode_loop-inverts,
  str_cmp-digits_text, hex_digit-digit_char,
}

-- What the source keeps consistent: the components are `u64`, and `raw` is their encoding.
abbrev pub IsCanonical : Offset → Type 0
IsCanonical start = Unit
IsCanonical now = Unit
IsCanonical (concrete a b raw) = (a < u64_mod) × (b < u64_mod) × (raw ≡ encode_offset a b)

str_eq_lengths : (a b : Str) → length a ≢ length b → str_eq a b ≡ false
str_eq_lengths a b h = elim (Bool-cases (str_eq a b)) [
  | inl same ↦ absurd (h (ap length (str_eq→eq a b same)))
  | inr other ↦ other
]

top_zero : (n : ℕ) → n < u64_mod → n / 2 ^ (16 * 4) ≡ 0
top_zero n h = omega arith

pub value_16 : (n : ℕ) → n < u64_mod → horner 0 (digits_of 16 n) ≡ n
value_16 n h =
    subst (λ (a : ℕ). horner a (digits_of 16 n) ≡ n) (top_zero n h) (horner-digits_of 16 n)

-- The half of `from_str` that decodes, on the half of `new` that encodes.
decode-encode : (n : ℕ) → n < u64_mod → decode_hex_16 (encode_hex 16 n) ≡ some n
unfolding decode_hex_16
decode-encode n h = rw (encode_hex-digits 16 n) (
    decode_loop-digits_text (digits_of 16 n) 0 (digits_of-Digits 16 n) (omega (arith, value_16 n h))
    ∙ ap some (value_16 n h))

digit_byte_ok :
    (b d : ℕ) → hex_digit b ≡ some d → (is_ascii_uppercase b ≡ false) × (is_lower_hex b ≡ true)
unfolding hex_digit is_ascii_uppercase is_lower_hex
digit_byte_ok b d h = ground arith

check_bytes_pass :
    (s : Str) (idx b : ℕ) (bs : Str)
    → is_ascii_uppercase b ≡ false
    → is_lower_hex b ≡ true
    → check_bytes s (idx + 1) bs ≡ none
    → check_bytes s idx (b ∷ bs) ≡ none
unfolding check_bytes
check_bytes_pass s idx b bs upper lower h = rw (upper, lower) (rw h (ground arith))

-- The check passes over digits.
check_bytes-Digits :
    (s : Str) (ds : List ℕ) (idx : ℕ) (rest : Str)
    → Digits ds
    → check_bytes s (idx + length ds) rest ≡ none
    → check_bytes s idx (digits_text ds ++ rest) ≡ none
check_bytes-Digits s [] idx rest hd h =
    subst (λ (i : ℕ). check_bytes s i rest ≡ none) (omega arith) h
check_bytes-Digits s (d ∷ ds) idx rest hd h =
    let (upper, lower) = digit_byte_ok _ d (hex_digit-digit_char d hd.0) in
    check_bytes_pass s idx _ (digits_text ds ++ rest) upper lower (
      check_bytes-Digits s ds (idx + 1) rest hd.1
        (subst (λ (i : ℕ). check_bytes s i rest ≡ none) (omega arith) h))

check_bytes_mark : (s bs : Str) → check_bytes s 17 bs ≡ none → check_bytes s 16 (b'_' ∷ bs) ≡ none
unfolding check_bytes
check_bytes_mark s bs h = h

check_bytes-encode : (s : Str) (a b : ℕ) → check_bytes s 0 (encode_offset a b) ≡ none
unfolding encode_offset
check_bytes-encode s a b =
    let second : check_bytes s 17 (digits_text (digits_of 16 b) ++ []) ≡ none =
      check_bytes-Digits s (digits_of 16 b) 17 [] (digits_of-Digits 16 b)
        (unfold check_bytes in refl) in
    rw (encode_hex-digits 16 a, encode_hex-digits 16 b)
      (check_bytes-Digits s (digits_of 16 a) 0 _ (digits_of-Digits 16 a)
        (check_bytes_mark s _ second))

-- `from_str` reads back the text of every canonical concrete offset.
from_str-encode :
    (a b : ℕ) → a < u64_mod → b < u64_mod → from_str (encode_offset a b) ≡ ok (Offset.new a b)
unfolding from_str from_checked
from_str-encode a b ha hb =
    let not_start : str_eq (encode_offset a b) start_text ≡ false =
      unfold encode_offset encode_hex in str_eq_lengths _ _ (omega arith) in
    let not_now : str_eq (encode_offset a b) now_text ≡ false =
      unfold encode_offset encode_hex in str_eq_lengths _ _ (omega arith) in
    let shape : (not (length (encode_offset a b) == 33)
          || not (get_or (encode_offset a b) 16 0 == b'_'))
        ≡ false =
      unfold encode_offset encode_hex in refl in
    let first : decode_hex_16 (take 16 (encode_offset a b)) ≡ some a =
      unfold encode_offset encode_hex in (decode-encode a ha) in
    let second : decode_hex_16 (drop 17 (encode_offset a b)) ≡ some b =
      unfold encode_offset encode_hex in (decode-encode b hb) in
    rw (not_start, not_now, shape, check_bytes-encode (encode_offset a b) a b, first, second)
      (unfold both_halves in refl)

decode_hex_16-inverts :
    (bs : Str) (v : ℕ) → decode_hex_16 bs ≡ some v → (length bs ≡ 16) × (decode_loop 0 bs ≡ some v)
unfolding decode_hex_16
decode_hex_16-inverts bs v h = ground arith

-- A half that decodes is the encoding of its value.
encode-decode :
    (bs : Str) (v : ℕ) → decode_hex_16 bs ≡ some v → (v < u64_mod) × (encode_hex 16 v ≡ bs)
encode-decode bs v h =
    let (len, h') = decode_hex_16-inverts bs v h in
    let fits : (0 + 1) * 16 ^ length bs ≤ u64_mod = rw len (omega arith) in
    let (ds, same, all, value, small) = decode_loop-inverts bs 0 v fits h' in
    let size : length ds ≡ 16 = sym (length-digits_text ds) ∙ ap length same ∙ len in
    let values : horner 0 (digits_of 16 v) ≡ horner 0 ds = value_16 v small ∙ sym value in
    let digits_same : digits_text (digits_of 16 v) ≡ digits_text ds = str_cmp-eq _ _ (
      str_cmp-digits_text (digits_of 16 v) ds 0 (digits_of-Digits 16 v) all
        (length-digits_of 16 v ∙ sym size)
      ∙ ap (λ (t : ℕ). compare t (horner 0 ds)) values
      ∙ compare_refl (horner 0 ds)) in
    (small, encode_hex-digits 16 v ∙ digits_same ∙ same)

-- What a successful `from_str` has tested.
from_str-inverts :
    (s : Str) (o : Offset)
    → from_str s ≡ ok o
    → ((s ≡ start_text) × (o ≡ start))
      ⊎ ((s ≡ now_text) × (o ≡ now))
      ⊎ ((length s ≡ 33) × (get_or s 16 0 ≡ b'_') × (from_checked s (check_bytes s 0 s) ≡ ok o))
unfolding from_str
from_str-inverts s o h = ground (arith, str_eq→eq s start_text, str_eq→eq s now_text)

from_checked-inverts :
    (s : Str) (c : Option Str) (o : Offset)
    → from_checked s c ≡ ok o
    → (a : ℕ) × (b : ℕ) × (decode_hex_16 (take 16 s) ≡ some a)
      × (decode_hex_16 (drop 17 s) ≡ some b)
      × (Offset.new a b ≡ o)
unfolding from_checked both_halves
from_checked-inverts s c o h = ground arith

from_str-IsCanonical : (s : Str) (o : Offset) → from_str s ≡ ok o → IsCanonical o × (as_str o ≡ s)
unfolding as_str
from_str-IsCanonical s o h = elim (from_str-inverts s o h) [
  | inl (text, same) ↦ subst (λ t. IsCanonical t × (as_str t ≡ s)) (sym same) (tt, sym text)
  | inr (inl (text, same)) ↦ subst (λ t. IsCanonical t × (as_str t ≡ s)) (sym same) (tt, sym text)
  | inr (inr (len, mark, h')) ↦
      let (a, b, first, second, same) = from_checked-inverts s _ o h' in
      let (small_a, first') = encode-decode (take 16 s) a first in
      let (small_b, second') = encode-decode (drop 17 s) b second in
      let whole : encode_offset a b ≡ s =
        unfold encode_offset in
        (rw (first', second', ← mark) (take-get_or-drop 16 s 0 (omega arith))) in
      subst (λ t. IsCanonical t × (as_str t ≡ s)) same
        (unfold Offset.new in ((small_a, small_b, refl), whole))
]

canonical-from_str : (o : Offset) → IsCanonical o → from_str (as_str o) ≡ ok o
unfolding as_str
canonical-from_str start h = unfold from_str str_eq in refl
canonical-from_str now h = unfold from_str str_eq in refl
canonical-from_str (concrete a b raw) h =
    rw h.2 (from_str-encode a b h.0 h.1 ∙ (unfold Offset.new in refl))

-- A text parses to an offset exactly when the offset is canonical (its components are 64-bit and
-- its cached bytes are their encoding) and prints as that text: parsing and printing are inverse.
pub from_str_iff : (s : Str) (o : Offset) → (from_str s ≡ ok o) ↔ (IsCanonical o × (as_str o ≡ s))
from_str_iff s o = (from_str-IsCanonical s o, λ h. rw (← h.1) (canonical-from_str o h.0))
