-- ===== src/Protocol/StreamName/Valid.antt =====
-- The names that `validate` accepts.
use durable_streams_rust.Prelude.{
  ◌≡◌, ◌≢◌, ◌↔◌, ◌≤◌, ℕ, refl, sym, ap, ◌∙◌, ◌⊎◌, inl, inr, Bool, Bool-cases, true, false, Option,
  none, some, List, [], ◌∷◌, Str, text, str_eq, str_eq_iff, length, All, ltb, ◌==◌, if◌then◌else◌,
  arith,
}
use durable_streams_rust.Prelude.Split.{split, onto_first}
use durable_streams_rust.Protocol.StreamName.{
  StreamNameLimits, first_is_reserved, is_reserved, is_invalid, find_invalid, invalid_segment,
  ends_with, name_is_empty, refuse_segment, validate,
}

-- A segment that is neither empty nor a step in a directory tree.
pub IsPlain : Str → Type 0
IsPlain segment = (segment ≢ []) × (segment ≢ text ".") × (segment ≢ text "..")

-- Below the limits, made of plain segments, and outside the reserved tree.
unfoldable pub IsAllowed : Str → StreamNameLimits → Type 0
IsAllowed name limits =
    All IsPlain (split b'/' name)
    × ((rest : List Str) → split b'/' name ≢ text "__ds" ∷ rest)
    × (length name ≤ limits.max_bytes)
    × (length (split b'/' name) ≤ limits.max_segments)

true-false : true ≢ false
true-false h = cc

differs : {a b : Str} → str_eq a b ≡ false → a ≢ b
differs {a} {b} h e = true-false (sym ((str_eq_iff a b).1 e) ∙ h)

is_different : {a b : Str} → a ≢ b → str_eq a b ≡ false
is_different {a} {b} n = elim (Bool-cases (str_eq a b)) [
  | inl h ↦ absurd (n ((str_eq_iff a b).0 h))
  | inr h ↦ h
]

is_invalid-IsPlain : (segment : Str) → (is_invalid segment ≡ false) ↔ IsPlain segment
unfolding is_invalid IsPlain
is_invalid-IsPlain segment = (
  λ h. (differs (ground arith), differs (ground arith), differs (ground arith)),
  λ p.
      let a = is_different (p.0) in
      let b = is_different (p.1) in let c = is_different (p.2) in ground arith,
)

-- The search finds nothing exactly when every segment is plain.
find_invalid-none : (segments : List Str) → find_invalid segments ≡ none → All IsPlain segments
unfolding find_invalid
find_invalid-none [] h = tt
find_invalid-none (segment ∷ segments) h =
    ((is_invalid-IsPlain segment).0 (ground arith), find_invalid-none segments (ground arith))

plain_find_invalid : (segments : List Str) → All IsPlain segments → find_invalid segments ≡ none
unfolding find_invalid
plain_find_invalid [] h = refl
plain_find_invalid (segment ∷ segments) h =
    let now = (is_invalid-IsPlain segment).1 (h.0) in
    let rest = plain_find_invalid segments (h.1) in ground arith

find_invalid-some :
    (segments : List Str) (found : Str)
    → find_invalid segments ≡ some found
    → is_invalid found ≡ true
unfolding find_invalid
find_invalid-some [] found h = cc
find_invalid-some (segment ∷ segments) found h = elim (Bool-cases (is_invalid segment)) [
  | inl e ↦ cc
  | inr e ↦ find_invalid-some segments found (ground arith)
]

refuse_segment-some :
    (found : Str) (otherwise : Str ⊎ Unit {0})
    → is_invalid found ≡ true
    → refuse_segment (some found) otherwise ≢ inr tt
unfolding refuse_segment is_invalid name_is_empty str_eq
refuse_segment-some [] otherwise h e = ground arith
refuse_segment-some (c ∷ found) otherwise h e = ground arith

lt_false : {a b : ℕ} → a ≤ b → ltb b a ≡ false
lt_false h = ground arith

false_le : {a b : ℕ} → ltb b a ≡ false → a ≤ b
false_le h = ground arith

-- The segments behind the first one.
rest_of : List Str → List Str
rest_of [] = []
rest_of (segment ∷ segments) = segments

rest_of-onto_first :
    (c : ℕ) (segments : List Str)
    → find_invalid (rest_of segments) ≢ none
    → find_invalid (rest_of (onto_first c segments)) ≢ none
unfolding rest_of onto_first
rest_of-onto_first c [] n = n
rest_of-onto_first c (segment ∷ segments) n = n

find_invalid_rest :
    (segments : List Str) → find_invalid (rest_of segments) ≢ none → find_invalid segments ≢ none
unfolding find_invalid rest_of
find_invalid_rest [] n h = n h
find_invalid_rest (segment ∷ segments) n h = n (ground arith)

-- One more byte in front of a name adds segments and leaves those behind the first.
split_rest :
    (b : Bool) (c : ℕ) (segments : List Str)
    → find_invalid (rest_of segments) ≢ none
    → find_invalid (rest_of (if b then [] ∷ segments else onto_first c segments)) ≢ none
unfolding rest_of
split_rest true c segments n = find_invalid_rest segments n
split_rest false c segments n = rest_of-onto_first c segments n

-- A name that ends in `/` has an empty segment behind its first.
ends_with_rest :
    (name : Str) → ends_with b'/' name ≡ true → find_invalid (rest_of (split b'/' name)) ≢ none
unfolding ends_with split onto_first find_invalid rest_of is_invalid str_eq
ends_with_rest [] h e = cc
ends_with_rest (c ∷ []) h e = ground arith
ends_with_rest (c ∷ d ∷ name) h e =
    split_rest (c == b'/') c (split b'/' (d ∷ name)) (ends_with_rest (d ∷ name) h) e

head_of : List Str → Str
head_of [] = []
head_of (segment ∷ segments) = segment

first_is_reserved_iff :
    (segments : List Str)
    → (first_is_reserved segments ≡ false) ↔ ((rest : List Str) → segments ≢ text "__ds" ∷ rest)
unfolding first_is_reserved head_of
first_is_reserved_iff [] = (λ h rest e. cc, λ n. refl)
first_is_reserved_iff (segment ∷ segments) = (
  λ h rest e. differs h (ap head_of e),
  λ n. is_different (λ e. n segments (ap (λ s. s ∷ segments) e)),
)

plain_name_is_empty :
    (name : Str) → find_invalid (split b'/' name) ≡ none → name_is_empty name ≡ false
unfolding name_is_empty split find_invalid is_invalid str_eq
plain_name_is_empty [] h = cc
plain_name_is_empty (c ∷ name) h = refl

plain_ends_with : (name : Str) → find_invalid (split b'/' name) ≡ none → ends_with b'/' name ≡ false
plain_ends_with name h = elim (Bool-cases (ends_with b'/' name)) [
  | inl e ↦ absurd (find_invalid_rest (split b'/' name) (ends_with_rest name e) h)
  | inr e ↦ e
]

-- A guard that lets a value through did not hold.
passes :
    (b : Bool) (reason : Str) (otherwise : Str ⊎ Unit {0})
    → (if b then inl reason else otherwise) ≡ inr tt
    → (b ≡ false) × (otherwise ≡ inr tt)
passes true reason otherwise h = absurd (ground arith)
passes false reason otherwise h = (refl, h)

segment_passes :
    (found : Option Str) (otherwise : Str ⊎ Unit {0})
    → ((s : Str) → found ≡ some s → is_invalid s ≡ true)
    → refuse_segment found otherwise ≡ inr tt
    → (found ≡ none) × (otherwise ≡ inr tt)
unfolding refuse_segment
segment_passes none otherwise invalid h = (refl, h)
segment_passes (some s) otherwise invalid h =
    absurd (refuse_segment-some s otherwise (invalid s refl) h)

validate_accepts :
    (name : Str) (limits : StreamNameLimits) → IsAllowed name limits → validate name limits ≡ inr tt
unfolding validate IsAllowed is_reserved invalid_segment refuse_segment
validate_accepts name limits h =
    let clean = plain_find_invalid (split b'/' name) (h.0) in
    let free = (first_is_reserved_iff (split b'/' name)).1 (h.1) in
    let e = plain_name_is_empty name clean in
    let t = plain_ends_with name clean in
    let m = lt_false (h.2) in
    let k = lt_false (h.3) in rw free (rw e (rw t (rw clean (rw m (rw k refl)))))

validate_refuses :
    (name : Str) (limits : StreamNameLimits) → validate name limits ≡ inr tt → IsAllowed name limits
unfolding validate IsAllowed is_reserved invalid_segment
validate_refuses name limits h =
    let segments = split b'/' name in
    let a = passes (first_is_reserved segments) _ _ h in
    let b = passes (name_is_empty name) _ _ (a.1) in
    let c = passes (ends_with b'/' name) _ _ (b.1) in
    let d = segment_passes (find_invalid segments) _ (find_invalid-some segments) (c.1) in
    let e = passes (ltb limits.max_bytes (length name)) _ _ (d.1) in
    let f = passes (ltb limits.max_segments (length segments)) _ _ (e.1) in
    (
      find_invalid-none segments (d.0),
      (first_is_reserved_iff segments).0 (a.0),
      false_le (e.0),
      false_le (f.0),
    )

-- A name is accepted exactly when all its segments are plain, the first is not `__ds`, and its
-- bytes and its segments are within the limits.
pub validate-IsAllowed :
    (name : Str) (limits : StreamNameLimits)
    → (validate name limits ≡ inr tt) ↔ IsAllowed name limits
validate-IsAllowed name limits = (validate_refuses name limits, validate_accepts name limits)
