-- ===== src/Subscriptions/Glob/Meaning.antt =====
-- The relation of patterns and paths that `glob_matches` decides.
use durable_streams_rust.Prelude.{
  ◌≡◌, ◌≢◌, ◌↔◌, refl, sym, ◌∙◌, ◌⊎◌, inl, inr, Bool, Bool-cases, true, false, ◌||◌, List, [], ◌∷◌,
  Str, text, str_eq, str_eq_iff, arith,
}
use durable_streams_rust.Prelude.Split.{split}
use durable_streams_rust.Subscriptions.Glob.{segment_matches, glob_matches}
use durable_streams_rust.Subscriptions.Glob.Table.{
  any_suffix, one_segment, matches, segments_match-matches,
}

-- `**` stands for any number of segments, `*` for one, and any other segment for itself.
pub data Matches : List Str → List Str → Type 0 where
  done : Matches [] []
  star :
      (p s : Str) {ps path : List Str}
      → p ≡ text "*"
      → Matches ps path
      → Matches (p ∷ ps) (s ∷ path)
  same :
      (p s : Str) {ps path : List Str}
      → p ≢ text "**"
      → p ≡ s
      → Matches ps path
      → Matches (p ∷ ps) (s ∷ path)
  none_left :
      (p : Str) {ps path : List Str} → p ≡ text "**" → Matches ps path → Matches (p ∷ ps) path
  one_more :
      (p s : Str) {ps path : List Str}
      → p ≡ text "**"
      → Matches (p ∷ ps) path
      → Matches (p ∷ ps) (s ∷ path)

-- The function and the relation agree.
module _ {p : Str} (ps path : List Str) where
  matches-any : p ≡ text "**" → matches (p ∷ ps) path ≡ any_suffix (matches ps) path
  unfolding matches
  matches-any h = rw ((str_eq_iff p (text "**")).1 h) refl

  matches-one : p ≢ text "**" → matches (p ∷ ps) path ≡ one_segment (matches ps) p path
  unfolding matches
  matches-one h = elim (Bool-cases (str_eq p (text "**"))) [
    | inl e ↦ absurd (h ((str_eq_iff p (text "**")).0 e))
    | inr e ↦ rw e refl
  ]

true-false : true ≢ false
true-false h = cc

orb_cases : (a b : Bool) → (a || b) ≡ true → (a ≡ true) ⊎ (b ≡ true)
orb_cases true b h = inl refl
orb_cases false b h = inr h

module _ (p : Str) (ps : List Str)
    (sound : (q : List Str) → matches ps q ≡ true → Matches ps q) where
  any_suffix-Matches :
      p ≡ text "**"
      → (path : List Str) → any_suffix (matches ps) path ≡ true
      → Matches (p ∷ ps) path
  unfolding any_suffix
  any_suffix-Matches e [] h = none_left p e (sound [] h)
  any_suffix-Matches e (s ∷ path) h =
      elim (orb_cases (matches ps (s ∷ path)) (any_suffix (matches ps) path) h) [
        | inl now ↦ none_left p e (sound (s ∷ path) now)
        | inr later ↦ one_more p s e (any_suffix-Matches e path later)
      ]

  one_segment-Matches :
      p ≢ text "**"
      → (path : List Str) → one_segment (matches ps) p path ≡ true
      → Matches (p ∷ ps) path
  unfolding one_segment segment_matches
  one_segment-Matches n [] h = cc
  one_segment-Matches n (s ∷ path) h =
      elim (orb_cases (str_eq p (text "*")) (str_eq p s) (ground arith)) [
        | inl any ↦ star p s ((str_eq_iff p (text "*")).0 any) (sound path (ground arith))
        | inr equal ↦ same p s n ((str_eq_iff p s).0 equal) (sound path (ground arith))
      ]

matches-Matches : (ps path : List Str) → matches ps path ≡ true → Matches ps path
unfolding matches
matches-Matches [] [] h = done
matches-Matches [] (s ∷ path) h = cc
matches-Matches (p ∷ ps) path h = elim (Bool-cases (str_eq p (text "**"))) [
  | inl e ↦
      let q = (str_eq_iff p (text "**")).0 e in
      any_suffix-Matches p ps (matches-Matches ps) q path (sym (matches-any ps path q) ∙ h)
  | inr e ↦
      let n : p ≢ text "**" = λ q. true-false (sym ((str_eq_iff p (text "**")).1 q) ∙ e) in
      one_segment-Matches p ps (matches-Matches ps) n path (sym (matches-one ps path n) ∙ h)
]

star_differs : text "*" ≢ text "**"
unfolding str_eq
star_differs h = true-false (sym ((str_eq_iff (text "*") (text "**")).1 h))

any_suffix_now : (f : List Str → Bool) (path : List Str) → f path ≡ true → any_suffix f path ≡ true
unfolding any_suffix
any_suffix_now f [] h = h
any_suffix_now f (s ∷ path) h = ground arith

Matches-matches : {ps path : List Str} → Matches ps path → matches ps path ≡ true
unfolding matches any_suffix one_segment segment_matches
Matches-matches done = refl
Matches-matches (star p s {ps} {path} e rest) =
    let ih = Matches-matches rest in
    let any = (str_eq_iff p (text "*")).1 e in
    matches-one ps (s ∷ path) (λ q. star_differs (sym e ∙ q)) ∙ ground arith
Matches-matches (same p s {ps} {path} n e rest) =
    let ih = Matches-matches rest in
    let equal = (str_eq_iff p s).1 e in matches-one ps (s ∷ path) n ∙ ground arith
Matches-matches (none_left p {ps} {path} e rest) =
    matches-any ps path e ∙ any_suffix_now (matches ps) path (Matches-matches rest)
Matches-matches (one_more p s {ps} {path} e rest) =
    let ih = sym (matches-any ps path e) ∙ Matches-matches rest in
    matches-any ps (s ∷ path) e ∙ ground arith

-- A pattern matches a path exactly when the segments that `/` separates do: `**` stands for any
-- number of segments, none included, `*` for exactly one, and any other segment for itself.
pub glob_matches-Matches :
    (pattern path : Str)
    → (glob_matches pattern path ≡ true) ↔ Matches (split b'/' pattern) (split b'/' path)
unfolding glob_matches
glob_matches-Matches pattern path =
    let ps = split b'/' pattern in
    let segments = split b'/' path in
    let same_result = segments_match-matches ps segments in
    (λ h. matches-Matches ps segments (sym same_result ∙ h), λ m. same_result ∙ Matches-matches m)
