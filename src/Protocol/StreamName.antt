-- ===== src/Protocol/StreamName.antt =====
-- protocol/stream_name.rs: what a stream may be called.
pub mod Valid
use durable_streams_rust.Prelude.{
  ℕ, Bool, true, false, not, ◌&&◌, ◌||◌, Option, none, some, List, [], ◌∷◌, ◌++◌, Str, text, str_eq,
  length, ltb, if◌then◌else◌, ◌==◌, ◌⊎◌, inl, inr,
}
use durable_streams_rust.Prelude.Split.{split, decimal}

pub record StreamNameLimits : Type 0 where
  pub max_bytes : ℕ
  pub max_segments : ℕ

unfoldable pub first_is_reserved : List Str → Bool
first_is_reserved [] = false
first_is_reserved (segment ∷ segments) = str_eq segment (text "__ds")

unfoldable pub is_reserved : Str → Bool
is_reserved name = first_is_reserved (split b'/' name)

unfoldable pub is_invalid : Str → Bool
is_invalid segment = str_eq segment [] || str_eq segment (text ".") || str_eq segment (text "..")

-- `find`
unfoldable pub find_invalid : List Str → Option Str
find_invalid [] = none
find_invalid (segment ∷ segments) =
    let rest = find_invalid segments in if is_invalid segment then some segment else rest

unfoldable pub invalid_segment : Str → Option Str
invalid_segment name = find_invalid (split b'/' name)

unfoldable pub ends_with : ℕ → Str → Bool
ends_with mark [] = false
ends_with mark (c ∷ []) = c == mark
ends_with mark (c ∷ d ∷ s) = ends_with mark (d ∷ s)

unfoldable pub name_is_empty : Str → Bool
name_is_empty [] = true
name_is_empty (c ∷ s) = false

-- The two checks of the segment that was found.
unfoldable pub refuse_segment : Option Str → (Str ⊎ Unit {0}) → (Str ⊎ Unit {0})
refuse_segment none otherwise = otherwise
refuse_segment (some segment) otherwise =
    if name_is_empty segment
    then inl (text "stream name contains empty segments (consecutive '/' characters)")
    else if str_eq segment (text ".") || str_eq segment (text "..")
    then inl (text "stream name contains invalid segment '" ++ segment ++ text "'")
    else otherwise

-- The reason of a refusal, or `Ok(())`.
unfoldable pub validate : Str → StreamNameLimits → (Str ⊎ Unit {0})
validate name limits =
    if is_reserved name
    then inl (text "__ds is reserved for control APIs")
    else if name_is_empty name
    then inl (text "stream name cannot be empty")
    else if ends_with b'/' name
    then inl (text "stream name must not end with '/'")
    else refuse_segment (invalid_segment name) (
        if ltb limits.max_bytes (length name)
        then inl (
            text "stream name is "
            ++ decimal (length name)
            ++ text " bytes, which exceeds the maximum of "
            ++ decimal limits.max_bytes
            ++ text " bytes")
        else if ltb limits.max_segments (length (split b'/' name))
        then inl (
            text "stream name has "
            ++ decimal (length (split b'/' name))
            ++ text " path segments, which exceeds the maximum of "
            ++ decimal limits.max_segments)
        else inr tt)
