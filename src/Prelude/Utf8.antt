-- ===== src/Prelude/Utf8.antt =====
-- UTF-8: `str::from_utf8` and `String::from_utf8_lossy`.
use durable_streams_rust.Prelude.Tests.{leb, ltb, ◌==◌, if◌then◌else◌, Bool-cases, Option-cases}
use durable_streams_rust.Prelude.Text.{Str}
use Prim.Native.Nat.{ℕ, ◌<◌}
use mathlib.Core.Path.{◌≡◌, refl, ap, sym, ◌∙◌}
use mathlib.Core.Logic.{inl, inr}
use mathlib.Core.Bool.{Bool, true, false, ◌&&◌}
use mathlib.Core.Option.{Option, none, some}
use mathlib.Core.List.{append-nil, append_assoc, List, [], ◌∷◌, ◌++◌}
use native.Mathlib.Omega.{arith}

-- The bytes that may follow, the least and the greatest of each.
abbrev pub Ranges : Type 0
Ranges = List (ℕ × ℕ)

abbrev pub within : ℕ → ℕ → ℕ → Bool
within lo hi c = leb lo c && leb c hi

abbrev pub tail_byte : ℕ × ℕ
tail_byte = (128, 191)

-- What follows a first byte; `none` for a byte that starts no character.
unfoldable pub after_first : ℕ → Option Ranges
after_first c =
    if ltb c 128
    then some []
    else if within 194 223 c
    then some (tail_byte ∷ [])
    else if c == 224
    then some ((160, 191) ∷ tail_byte ∷ [])
    else if c == 237
    then some ((128, 159) ∷ tail_byte ∷ [])
    else if within 225 239 c
    then some (tail_byte ∷ tail_byte ∷ [])
    else if c == 240
    then some ((144, 191) ∷ tail_byte ∷ tail_byte ∷ [])
    else if within 241 243 c
    then some (tail_byte ∷ tail_byte ∷ tail_byte ∷ [])
    else if c == 244
    then some ((128, 143) ∷ tail_byte ∷ tail_byte ∷ [])
    else none

-- The text is valid after a character of which `ranges` are still to come.
unfoldable pub valid_after : Ranges → Str → Bool
valid_after [] [] = true
valid_after (r ∷ rs) [] = false
valid_after [] (c ∷ s) = elim (after_first c) [ none ↦ false | some rs ↦ valid_after rs s ]
valid_after ((lo, hi) ∷ rs) (c ∷ s) =
    let rest = valid_after rs s in if within lo hi c then rest else false

-- `str::from_utf8` is Ok.
unfoldable pub is_utf8 : Str → Bool
is_utf8 s = valid_after [] s

-- U+FFFD.
replacement : Str
replacement = 239 ∷ 191 ∷ 189 ∷ []

-- `taken` are the bytes of the character that `ranges` go on; what cannot go on is replaced.
lossy_after : Str → Ranges → Str → Str
unfolding replacement
lossy_after taken [] [] = taken
lossy_after taken (r ∷ rs) [] = replacement
lossy_after taken [] (c ∷ s) = taken ++ (elim (after_first c) [
  | none ↦ replacement ++ lossy_after [] [] s
  | some rs ↦ lossy_after (c ∷ []) rs s
])
lossy_after taken ((lo, hi) ∷ rs) (c ∷ s) = elim (within lo hi c) [
  | true ↦ lossy_after (taken ++ (c ∷ [])) rs s
  | false ↦ replacement ++ (elim (after_first c) [
    | none ↦ replacement ++ lossy_after [] [] s
    | some rs' ↦ lossy_after (c ∷ []) rs' s
  ])
]

-- String::from_utf8_lossy
unfoldable pub from_utf8_lossy : Str → Str
unfolding lossy_after
from_utf8_lossy s = lossy_after [] [] s

absurd_eq {ℓ} : {A : Type ℓ} → false ≡ true → A
absurd_eq h = cc

abbrev pub IsHigh : Ranges → Type 0
IsHigh [] = Unit {0}
IsHigh ((lo, hi) ∷ rs) = (127 < lo) × IsHigh rs

after_first-IsHigh : (c : ℕ) {rs : Ranges} → after_first c ≡ some rs → IsHigh rs
unfolding after_first
after_first-IsHigh c h = ground arith

after_first_ascii : (c : ℕ) → c < 128 → after_first c ≡ some []
unfolding after_first
after_first_ascii c h = ground arith

-- A valid text may be cut before and behind an ASCII byte.
pub valid_after-cut :
    (c : ℕ) (rs : Ranges) (a b : Str)
    → c < 128
    → IsHigh rs
    → valid_after rs (a ++ (c ∷ b)) ≡ true
    → (valid_after rs a ≡ true) × (valid_after [] b ≡ true)
unfolding valid_after
valid_after-cut c [] [] b low high h = (refl, (rw (after_first_ascii c low, valid_after) at h))
valid_after-cut c ((lo, hi) ∷ rs) [] b low high h = ground (arith, high.0, low)
valid_after-cut c [] (x ∷ a) b low high h = elim (Option-cases (after_first x)) [
  | inl e ↦ absurd_eq (rw (e, valid_after) at h)
  | inr (rs, e) ↦
      rw (e, valid_after)
        (valid_after-cut c rs a b low (after_first-IsHigh x e) (rw (e, valid_after) at h))
]
valid_after-cut c ((lo, hi) ∷ rs) (x ∷ a) b low high h =
    ground (arith, valid_after-cut c rs a b low high.1)

valid_after-append :
    (rs : Ranges) (a b : Str)
    → valid_after rs a ≡ true
    → valid_after [] b ≡ true
    → valid_after rs (a ++ b) ≡ true
unfolding valid_after
valid_after-append [] [] b h k = k
valid_after-append (r ∷ rs) [] b h k = cc
valid_after-append [] (x ∷ a) b h k = elim (Option-cases (after_first x)) [
  | inl e ↦ absurd_eq (rw (e, valid_after) at h)
  | inr (rs, e) ↦ rw (e, valid_after) (valid_after-append rs a b (rw (e, valid_after) at h) k)
]
valid_after-append ((lo, hi) ∷ rs) (x ∷ a) b h k = ground (arith, valid_after-append rs a b)

lossy_after-valid :
    (taken : Str) (rs : Ranges) (s : Str)
    → valid_after rs s ≡ true
    → lossy_after taken rs s ≡ taken ++ s
unfolding valid_after lossy_after
lossy_after-valid taken [] [] h = sym (append-nil taken)
lossy_after-valid taken (r ∷ rs) [] h = cc
lossy_after-valid taken [] (c ∷ s) h = elim (Option-cases (after_first c)) [
  | inl e ↦ absurd_eq (rw (e, valid_after) at h)
  | inr (rs, e) ↦
      rw (e, lossy_after)
        (ap (λ (t : Str). taken ++ t) (lossy_after-valid (c ∷ []) rs s (rw (e, valid_after) at h)))
]
lossy_after-valid taken ((lo, hi) ∷ rs) (c ∷ s) h = elim (Bool-cases (within lo hi c)) [
  | inl e ↦
      rw (e, lossy_after)
        (lossy_after-valid (taken ++ (c ∷ [])) rs s (rw (e, valid_after) at h)
          ∙ append_assoc taken (c ∷ []) s)
  | inr e ↦ absurd_eq (rw (e, valid_after) at h)
]

-- After its first byte, a valid text stays valid whatever valid text follows.
pub valid_after_step :
    (rs : Ranges) (c : ℕ) (s : Str)
    → IsHigh rs
    → valid_after rs (c ∷ s) ≡ true
    → (rs' : Ranges) × IsHigh rs'
      × (valid_after rs' s ≡ true)
      × ((t : Str) → valid_after rs' t ≡ true → valid_after rs (c ∷ t) ≡ true)
unfolding valid_after
valid_after_step [] c s high h = elim (Option-cases (after_first c)) [
  | inl e ↦ absurd_eq (rw (e, valid_after) at h)
  | inr (rs, e) ↦
      (rs, after_first-IsHigh c e, rw (e, valid_after) at h, λ t k. rw (e, valid_after) k)
]
valid_after_step ((lo, hi) ∷ rs) c s high h = elim (Bool-cases (within lo hi c)) [
  | inl e ↦ (rs, high.1, rw e at h, λ t k. rw e k)
  | inr e ↦ absurd_eq (rw e at h)
]

-- What the clients of this module use: valid texts are kept, cut at ASCII and joined.
pub from_utf8_lossy_valid : (s : Str) → is_utf8 s ≡ true → from_utf8_lossy s ≡ s
unfolding from_utf8_lossy is_utf8
from_utf8_lossy_valid s h = lossy_after-valid [] [] s h

pub is_utf8-cut :
    (c : ℕ) (a b : Str)
    → c < 128
    → is_utf8 (a ++ (c ∷ b)) ≡ true
    → (is_utf8 a ≡ true) × (is_utf8 b ≡ true)
unfolding is_utf8
is_utf8-cut c a b low h = valid_after-cut c [] a b low tt h

pub is_utf8-append : (a b : Str) → is_utf8 a ≡ true → is_utf8 b ≡ true → is_utf8 (a ++ b) ≡ true
unfolding is_utf8
is_utf8-append a b h k = valid_after-append [] a b h k

pub is_utf8_cons : (c : ℕ) (s : Str) → c < 128 → is_utf8 (c ∷ s) ≡ is_utf8 s
unfolding is_utf8 valid_after
is_utf8_cons c s low = rw (after_first_ascii c low, valid_after) refl
