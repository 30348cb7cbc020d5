-- ===== src/Subscriptions/Glob/Table.antt =====
-- What the table of `glob_matches` computes: a pattern's meaning by recursion on its segments.
use durable_streams_rust.Prelude.{
  ◌≡◌, refl, sym, ap, ◌∙◌, suc, length, Bool, true, false, ◌&&◌, ◌||◌, List, [], ◌∷◌, Str, text,
  str_eq, if◌then◌else◌, arith,
}
use durable_streams_rust.Subscriptions.Glob.{
  spread, segment_matches, shift, next_row, last_row, falses, at_end, segments_match,
}

-- The meaning of a pattern by recursion on it.
unfoldable pub any_suffix : (List Str → Bool) → List Str → Bool
any_suffix f [] = f []
any_suffix f (s ∷ path) = f (s ∷ path) || any_suffix f path

unfoldable pub one_segment : (List Str → Bool) → Str → List Str → Bool
one_segment f p [] = false
one_segment f p (s ∷ path) = segment_matches p s && f path

unfoldable pub matches : List Str → List Str → Bool
matches [] [] = true
matches [] (s ∷ path) = false
matches (p ∷ ps) path =
    if str_eq p (text "**") then any_suffix (matches ps) path else one_segment (matches ps) p path

-- Some entry of the row is set whose rest of the path matches.
live : (List Str → Bool) → List Bool → List Str → Bool
live f [] path = false
live f (b ∷ row) [] = b && f []
live f (b ∷ row) (s ∷ path) = (b && f (s ∷ path)) || live f row path

live-spread :
    (f : List Str → Bool) (c : Bool) (row : List Bool) (path : List Str)
    → length row ≡ suc (length path)
    → live f (spread c row) path ≡ (c && any_suffix f path) || live (any_suffix f) row path
unfolding live spread any_suffix
live-spread f c [] path e = absurd (omega arith)
live-spread f c (b ∷ row) [] e = ground arith
live-spread f c (b ∷ row) (s ∷ path) e =
    let rest = live-spread f (b || c) row path (omega arith) in ground arith

live-shift :
    (f : List Str → Bool) (p : Str) (c : Bool) (row : List Bool) (path : List Str)
    → length row ≡ suc (length path)
    → live f (c ∷ shift p row path) path ≡ (c && f path) || live (one_segment f p) row path
unfolding live shift one_segment
live-shift f p c [] path e = absurd (omega arith)
live-shift f p c (b ∷ row) [] e = ground arith
live-shift f p c (b ∷ row) (s ∷ path) e =
    let rest = live-shift f p (b && segment_matches p s) row path (omega arith) in ground arith

length-spread : (c : Bool) (row : List Bool) → length (spread c row) ≡ length row
unfolding spread
length-spread c [] = refl
length-spread c (b ∷ row) = ap suc (length-spread (b || c) row)

length-shift :
    (p : Str) (row : List Bool) (path : List Str)
    → length row ≡ suc (length path)
    → length (shift p row path) ≡ length path
unfolding shift
length-shift p [] path e = absurd (omega arith)
length-shift p (b ∷ row) [] e = refl
length-shift p (b ∷ row) (s ∷ path) e = ap suc (length-shift p row path (omega arith))

module _ (p : Str) (ps : List Str) (row : List Bool) (path : List Str)
    (e : length row ≡ suc (length path)) where
  next_row_length :
      (b : Bool)
      → length (if b then spread false row else false ∷ shift p row path) ≡ suc (length path)
  next_row_length true = length-spread false row ∙ e
  next_row_length false = ap suc (length-shift p row path e)

  length-next_row : length (next_row p row path) ≡ suc (length path)
  unfolding next_row
  length-next_row = next_row_length (str_eq p (text "**"))

  next_row_live :
      (b : Bool)
      → live (λ q. if b then any_suffix (matches ps) q else one_segment (matches ps) p q) row path
        ≡ live (matches ps) (if b then spread false row else false ∷ shift p row path) path
  next_row_live true = sym (live-spread (matches ps) false row path e)
  next_row_live false = sym (live-shift (matches ps) p false row path e)

  live-next_row : live (matches (p ∷ ps)) row path ≡ live (matches ps) (next_row p row path) path
  unfolding next_row matches
  live-next_row = next_row_live (str_eq p (text "**"))

live-at_end :
    (row : List Bool) (path : List Str)
    → length row ≡ suc (length path)
    → live (matches []) row path ≡ at_end row
unfolding live matches at_end
live-at_end [] path e = absurd (omega arith)
live-at_end (b ∷ []) [] e = ground arith
live-at_end (b ∷ c ∷ row) [] e = absurd (omega arith)
live-at_end (b ∷ []) (s ∷ path) e = absurd (omega arith)
live-at_end (b ∷ c ∷ row) (s ∷ path) e =
    let rest = live-at_end (c ∷ row) path (omega arith) in ground arith

live-last_row :
    (ps : List Str) (row : List Bool) (path : List Str)
    → length row ≡ suc (length path)
    → live (matches ps) row path ≡ at_end (last_row ps row path)
unfolding last_row
live-last_row [] row path e = live-at_end row path e
live-last_row (p ∷ ps) row path e =
    live-next_row p ps row path e
    ∙ live-last_row ps (next_row p row path) path (length-next_row p ps row path e)

live-falses : (f : List Str → Bool) (path : List Str) → live f (false ∷ falses path) path ≡ false
unfolding live falses
live-falses f [] = refl
live-falses f (s ∷ path) = live-falses f path

live-start : (f : List Str → Bool) (path : List Str) → live f (true ∷ falses path) path ≡ f path
unfolding live falses
live-start f [] = refl
live-start f (s ∷ path) = let rest = live-falses f path in ground arith

length-falses : (path : List Str) → length (falses path) ≡ length path
unfolding falses
length-falses [] = refl
length-falses (s ∷ path) = ap suc (length-falses path)

pub segments_match-matches : (ps path : List Str) → segments_match ps path ≡ matches ps path
unfolding segments_match
segments_match-matches ps path =
    sym (live-last_row ps (true ∷ falses path) path (ap suc (length-falses path)))
    ∙ live-start (matches ps) path
