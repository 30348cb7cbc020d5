-- ===== src/Protocol/Json.antt =====
-- protocol/json_mode.rs and protocol/mod.rs: bodies and messages.
use durable_streams_rust.Prelude.{
  Bool, true, false, Option, none, some, List, [], ◌∷◌, ◌++◌, Str, text, str_eq, map, ◌⊎◌, inl, inr,
  if◌then◌else◌,
}
use durable_streams_rust.Protocol.Error.{Result, ok, err, invalid_json}
use durable_streams_rust.Storage.Platform.{Platform}

-- The loop of `wrap_read_iter`.
unfoldable pub wrap_loop : Bool → List Str → Str
wrap_loop wrote_any [] = b']' ∷ []
wrap_loop wrote_any (msg ∷ msgs) =
    let rest = msg ++ wrap_loop true msgs in if wrote_any then b',' ∷ rest else rest

unfoldable pub wrap_read_iter : List Str → Str
unfolding wrap_loop
wrap_read_iter messages = b'[' ∷ wrap_loop false messages

unfoldable pub is_json_content_type : Str → Bool
is_json_content_type content_type = str_eq content_type (text "application/json")

module _ {V : Type 0} (platform : Platform V) where
  split_value : V → Option (List V) → List Str
  split_value value none = platform.to_vec value ∷ []
  split_value value (some elements) = map platform.to_vec elements

  split_parsed : Str ⊎ V → Result (List Str)
  split_parsed (inl message) = err (invalid_json message)
  split_parsed (inr value) = ok (split_value value (platform.as_array value))

  unfoldable process_append : Str → Result (List Str)
  unfolding split_value split_parsed
  process_append body = split_parsed (platform.from_slice body)

  -- `extract_messages` of protocol/mod.rs.
  unfoldable pub extract_messages : Str → Str → Result (List Str)
  unfolding process_append
  extract_messages [] content_type = ok []
  extract_messages (c ∷ body) content_type =
      if is_json_content_type content_type then process_append (c ∷ body) else ok ((c ∷ body) ∷ [])
