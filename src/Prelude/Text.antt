-- ===== src/Prelude/Text.antt =====
-- Rust's `&str` and `String` as lists of bytes, with `==`, `<` and the methods that the code calls.
-- The program's texts are ASCII where case matters (header values), so a byte stands for a character
-- there.
use Prim.Native.Nat.{ℕ, zero, suc, ◌+◌, ◌-◌, ◌<◌, compare, Ordering}
use Prim.Native.Char.{code}
use Prim.Native.String.{String}
use mathlib.Core.Path.{◌≡◌, refl}
use mathlib.Core.Logic.{◌↔◌}
use mathlib.Core.Bool.{Bool, true, false, ◌&&◌, ◌||◌}
use mathlib.Core.Option.{Option, none, some}
use mathlib.Core.List.{List, [], ◌∷◌, reverse}
use native.Mathlib.Omega.{arith}
use durable_streams_rust.Prelude.Tests.{leb, ◌==◌, if◌then◌else◌}

abbrev pub Str : Type 0
Str = List ℕ

-- The bytes of an ASCII literal.
abbrev pub text : String → Str
text String.[] = []
text (String.◌∷◌ c s) = code c ∷ text s

-- `a == b`.
unfoldable pub str_eq : Str → Str → Bool
str_eq [] [] = true
str_eq [] (y ∷ ys) = false
str_eq (x ∷ xs) [] = false
str_eq (x ∷ xs) (y ∷ ys) = (x == y) && str_eq xs ys

pub str_eq→eq : (a b : Str) → str_eq a b ≡ true → a ≡ b
unfolding str_eq
str_eq→eq [] [] h = refl
str_eq→eq [] (y ∷ ys) h = cc
str_eq→eq (x ∷ xs) [] h = cc
str_eq→eq (x ∷ xs) (y ∷ ys) h = ground (arith, str_eq→eq xs ys)

pub str_eq_refl : (a : Str) → str_eq a a ≡ true
unfolding str_eq
str_eq_refl [] = refl
str_eq_refl (x ∷ xs) = ground (arith, str_eq_refl xs)

pub str_eq_iff : (a b : Str) → (str_eq a b ≡ true) ↔ (a ≡ b)
str_eq_iff a b = (str_eq→eq a b, λ e. rw e (str_eq_refl b))

-- The order of Rust's `str`: byte by byte, a proper prefix first.
unfoldable pub str_cmp : Str → Str → Ordering
str_cmp [] [] = Ordering.eq
str_cmp [] (y ∷ ys) = Ordering.lt
str_cmp (x ∷ xs) [] = Ordering.gt
str_cmp (x ∷ xs) (y ∷ ys) =
    let rest = str_cmp xs ys in
    elim (compare x y) [
      | Ordering.lt ↦ Ordering.lt
      | Ordering.eq ↦ rest
      | Ordering.gt ↦ Ordering.gt
    ]

pub str_cmp-eq : (a b : Str) → str_cmp a b ≡ Ordering.eq → a ≡ b
unfolding str_cmp
str_cmp-eq [] [] h = refl
str_cmp-eq [] (y ∷ ys) h = cc
str_cmp-eq (x ∷ xs) [] h = cc
str_cmp-eq (x ∷ xs) (y ∷ ys) h = ground (arith, str_cmp-eq xs ys)

pub str_cmp_refl : (a : Str) → str_cmp a a ≡ Ordering.eq
unfolding str_cmp
str_cmp_refl [] = refl
str_cmp_refl (x ∷ xs) = ground (arith, str_cmp_refl xs)

module _ {x y : ℕ} (s t : Str) where
  pub str_cmp_lt : x < y → str_cmp (x ∷ s) (y ∷ t) ≡ Ordering.lt
  unfolding str_cmp
  str_cmp_lt h = ground arith

  pub str_cmp_gt : y < x → str_cmp (x ∷ s) (y ∷ t) ≡ Ordering.gt
  unfolding str_cmp
  str_cmp_gt h = ground arith

  pub str_cmp_same : x ≡ y → str_cmp (x ∷ s) (y ∷ t) ≡ str_cmp s t
  unfolding str_cmp
  str_cmp_same h = ground arith

-- `u8::to_ascii_lowercase`, and `eq_ignore_ascii_case`.
unfoldable to_lower : ℕ → ℕ
to_lower c = if leb b'A' c && leb c b'Z' then c + 32 else c

unfoldable pub to_lowercase : Str → Str
unfolding to_lower
to_lowercase [] = []
to_lowercase (c ∷ s) = to_lower c ∷ to_lowercase s

unfoldable pub eq_ignore_ascii_case : Str → Str → Bool
unfolding to_lowercase to_lower str_eq
eq_ignore_ascii_case a b = str_eq (to_lowercase a) (to_lowercase b)

eq_ignore_ascii_case_refl : (a : Str) → eq_ignore_ascii_case a a ≡ true
unfolding eq_ignore_ascii_case
eq_ignore_ascii_case_refl a = str_eq_refl (to_lowercase a)

-- `str::strip_prefix` and `str::starts_with`.
unfoldable pub strip_prefix : Str → Str → Option Str
strip_prefix [] s = some s
strip_prefix (c ∷ prefix) [] = none
strip_prefix (c ∷ prefix) (d ∷ s) = if c == d then strip_prefix prefix s else none

unfoldable pub starts_with : Str → Str → Bool
unfolding strip_prefix
starts_with prefix s = elim (strip_prefix prefix s) [ none ↦ false | some rest ↦ true ]

-- The characters with the property White_Space, by their bytes in UTF-8.
is_space : ℕ → Bool
is_space c = (c == 32) || (leb 9 c && leb c 13)

is_space_of_two : ℕ → ℕ → Bool
is_space_of_two a b = a == 194 && (b == 133 || b == 160)

is_space_of_three : ℕ → ℕ → ℕ → Bool
is_space_of_three a b c =
    (a == 225 && b == 154 && c == 128)
    || (a == 226 && b == 128 && ((leb 128 c && leb c 138) || c == 168 || c == 169 || c == 175))
    || (a == 226 && b == 129 && c == 159)
    || (a == 227 && b == 128 && c == 128)

-- The bytes of a white space character that the text starts with; 0 if there is none.
space_in_front : Str → ℕ
unfolding is_space is_space_of_two is_space_of_three
space_in_front [] = 0
space_in_front (a ∷ []) = if is_space a then 1 else 0
space_in_front (a ∷ b ∷ []) = if is_space a then 1 else if is_space_of_two a b then 2 else 0
space_in_front (a ∷ b ∷ c ∷ s) =
    if is_space a
    then 1
    else if is_space_of_two a b
    then 2
    else if is_space_of_three a b c
    then 3
    else 0

-- The same for the end of a text, whose bytes come in reverse.
space_at_end : Str → ℕ
unfolding is_space is_space_of_two is_space_of_three
space_at_end [] = 0
space_at_end (c ∷ []) = if is_space c then 1 else 0
space_at_end (c ∷ b ∷ []) = if is_space c then 1 else if is_space_of_two b c then 2 else 0
space_at_end (c ∷ b ∷ a ∷ s) =
    if is_space c
    then 1
    else if is_space_of_two b c
    then 2
    else if is_space_of_three a b c
    then 3
    else 0

-- Drops bytes while there is white space; the number counts those left of the current character.
drop_spaces : (Str → ℕ) → ℕ → Str → Str
drop_spaces measure left [] = []
drop_spaces measure (suc left) (c ∷ s) = drop_spaces measure left s
drop_spaces measure zero (c ∷ s) =
    let n = measure (c ∷ s) in
    let rest = drop_spaces measure (n - 1) s in if n == 0 then c ∷ s else rest

-- `str::trim`, on a text in UTF-8: the first byte of a character is not a later byte of another.
unfoldable pub trim : Str → Str
unfolding drop_spaces space_in_front space_at_end
trim s = reverse (drop_spaces space_at_end 0 (reverse (drop_spaces space_in_front 0 s)))
