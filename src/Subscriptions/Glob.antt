-- ===== src/Subscriptions/Glob.antt =====
-- subscriptions/model.rs: which paths a subscription's pattern matches.
pub mod Table
pub mod Meaning
use durable_streams_rust.Prelude.{
  Bool, true, false, ◌&&◌, ◌||◌, List, [], ◌∷◌, Str, text, str_eq, if◌then◌else◌,
}
use durable_streams_rust.Prelude.Split.{split}

-- `matches[i] |= matches[i - 1]`, from left to right.
unfoldable pub spread : Bool → List Bool → List Bool
spread before [] = []
spread before (b ∷ row) = (b || before) ∷ spread (b || before) row

-- The test of a segment that is no `**`.
unfoldable pub segment_matches : Str → Str → Bool
segment_matches segment part = str_eq segment (text "*") || str_eq segment part

-- `matches[i] = matches[i - 1] && …`, from right to left: the old row is read.
unfoldable pub shift : Str → List Bool → List Str → List Bool
shift segment [] path = []
shift segment (b ∷ row) [] = []
shift segment (b ∷ row) (part ∷ path) = (b && segment_matches segment part) ∷ shift segment row path

-- One round of the loop over the pattern.
unfoldable pub next_row : Str → List Bool → List Str → List Bool
next_row segment row path =
    if str_eq segment (text "**") then spread false row else false ∷ shift segment row path

unfoldable pub last_row : List Str → List Bool → List Str → List Bool
last_row [] row path = row
last_row (segment ∷ pattern) row path = last_row pattern (next_row segment row path) path

-- `vec![false; n]`, for a list of that length.
unfoldable pub falses : List Str → List Bool
falses [] = []
falses (part ∷ path) = false ∷ falses path

-- `matches[path.len()]`
unfoldable pub at_end : List Bool → Bool
at_end [] = false
at_end (b ∷ []) = b
at_end (b ∷ c ∷ row) = at_end (c ∷ row)

unfoldable pub segments_match : List Str → List Str → Bool
segments_match pattern path = at_end (last_row pattern (true ∷ falses path) path)

unfoldable pub glob_matches : Str → Str → Bool
glob_matches pattern path = segments_match (split b'/' pattern) (split b'/' path)
