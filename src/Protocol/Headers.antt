-- ===== src/Protocol/Headers.antt =====
-- protocol/headers.rs: values of the protocol's headers.
use durable_streams_rust.Prelude.{
  ℕ, ◌+◌, ◌*◌, ◌-◌, Bool, true, false, ◌&&◌, Option, none, some, [], ◌∷◌, ◌++◌, Str, text, leb, ltb,
  ◌==◌, if◌then◌else◌, length, trim, to_lowercase, eq_ignore_ascii_case, u64_mod, get_or,
}
use durable_streams_rust.Protocol.Error.{Result, ok, err, invalid_ttl}

-- `split(';').next()`: the text before the first mark.
pub before : ℕ → Str → Str
before mark [] = []
before mark (c ∷ s) = let rest = before mark s in if c == mark then [] else c ∷ rest

unfoldable pub normalize_content_type : Str → Str
unfolding before
normalize_content_type content_type = to_lowercase (trim (before b';' content_type))

unfoldable pub parse_bool : Str → Bool
parse_bool value = eq_ignore_ascii_case (trim value) (text "true")

-- The standard library's `parse::<u64>`: an optional plus sign, then one or more digits, with a
-- value that fits 64 bits.
parse_digits : ℕ → Str → Option ℕ
parse_digits n [] = some n
parse_digits n (c ∷ s) = elim (leb b'0' c && leb c b'9' && ltb (n * 10 + (c - b'0')) u64_mod) [
  | true ↦ parse_digits (n * 10 + (c - b'0')) s
  | false ↦ none
]

parse_nonempty : Str → Option ℕ
unfolding parse_digits
parse_nonempty [] = none
parse_nonempty (c ∷ s) = parse_digits 0 (c ∷ s)

unfoldable pub parse_u64 : Str → Option ℕ
unfolding parse_nonempty
parse_u64 [] = none
parse_u64 (c ∷ s) = if c == b'+' then parse_nonempty s else parse_nonempty (c ∷ s)

is_empty : Str → Bool
is_empty [] = true
is_empty (c ∷ s) = false

parsed_ttl : Str → Option ℕ → Result ℕ
parsed_ttl trimmed none = err (invalid_ttl (text "invalid integer '" ++ trimmed ++ text "'"))
parsed_ttl trimmed (some n) = ok n

-- The text of the standard library's error is left out of the last message.
unfoldable parse_ttl : Str → Result ℕ
unfolding is_empty parsed_ttl parse_u64
parse_ttl value =
    let trimmed = trim value in
    if is_empty trimmed
    then err (invalid_ttl (text "empty value"))
    else if get_or trimmed 0 0 == b'+'
    then err (invalid_ttl (text "leading plus sign not allowed: '" ++ trimmed ++ text "'"))
    else if ltb 1 (length trimmed) && get_or trimmed 0 0 == b'0'
    then err (invalid_ttl (text "leading zeros not allowed: '" ++ trimmed ++ text "'"))
    else parsed_ttl trimmed (parse_u64 trimmed)
