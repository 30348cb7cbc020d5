-- ===== src/Protocol/Offset/Hex.antt =====
-- The hexadecimal halves of an offset: digits as numbers, their value and their order.
use native.Mathlib.Nat.{div-div-eq-div-mul, pow-suc, one-le-pow}
use durable_streams_rust.Prelude.{
  ℕ, zero, suc, ◌+◌, ◌*◌, ◌/◌, ◌%◌, ◌^◌, ◌≤◌, ◌<◌, ◌≡◌, refl, ap, sym, ◌∙◌, subst, subst₂, ◌⊎◌,
  ◌&&◌, Bool, true, none, some, Option-cases, inl, inr, List, [], ◌∷◌, Str, length, get_or, ltb,
  ◌==◌, if◌then◌else◌, str_cmp, bit_or, u64_mod, compare, Ordering, All, arith, str_cmp_refl,
  str_cmp_lt, str_cmp_gt, str_cmp_same,
}
use durable_streams_rust.Prelude.Bits.{bit_or_nibble, bit_and_nibble}
use durable_streams_rust.Protocol.Offset.{hex, encode_hex, hex_digit, decode_loop}

-- The value of a list of hexadecimal digits that follow the value `acc`.
abbrev pub horner : ℕ → List ℕ → ℕ
horner acc [] = acc
horner acc (d ∷ ds) = horner (acc * 16 + d) ds

-- The digits of `n`, and their text.
abbrev pub digits_of : ℕ → ℕ → List ℕ
digits_of zero n = []
digits_of (suc k) n = (n / 2 ^ (k * 4) % 16) ∷ digits_of k n

abbrev digit_char : ℕ → ℕ
digit_char d = get_or hex d 0

abbrev pub digits_text : List ℕ → Str
digits_text [] = []
digits_text (d ∷ ds) = digit_char d ∷ digits_text ds

abbrev pub Digits : List ℕ → Type 0
Digits = All (λ d. d < 16)

-- The table of digits against the two runs of letters, checked digit by digit.
abbrev run_char : ℕ → ℕ
run_char d = if ltb d 10 then 48 + d else 87 + d

table_agrees : ℕ → Bool
table_agrees zero = true
table_agrees (suc d) = (digit_char d == run_char d) && table_agrees d

table_agrees_sound : (n d : ℕ) → table_agrees n ≡ true → d < n → digit_char d ≡ run_char d
unfolding table_agrees
table_agrees_sound zero d t h = absurd (omega arith)
table_agrees_sound (suc n) d t h = ground (arith, table_agrees_sound n d)

table_16 : table_agrees 16 ≡ true
unfolding table_agrees
table_16 = refl

digit_char_lem : (d : ℕ) → d < 16 → digit_char d ≡ run_char d
digit_char_lem d h = table_agrees_sound 16 d table_16 h

pub encode_hex-digits : (k n : ℕ) → encode_hex k n ≡ digits_text (digits_of k n)
unfolding encode_hex
encode_hex-digits zero n = refl
encode_hex-digits (suc k) n = rw (bit_and_nibble, encode_hex-digits k n)

pub digits_of-Digits : (k n : ℕ) → Digits (digits_of k n)
digits_of-Digits zero n = tt
digits_of-Digits (suc k) n = (omega arith, digits_of-Digits k n)

pub length-digits_of : (k n : ℕ) → length (digits_of k n) ≡ k
length-digits_of zero n = refl
length-digits_of (suc k) n = ap suc (length-digits_of k n)

pub length-digits_text : (ds : List ℕ) → length (digits_text ds) ≡ length ds
length-digits_text [] = refl
length-digits_text (d ∷ ds) = ap suc (length-digits_text ds)

pow_16 : (k : ℕ) → 2 ^ (suc k * 4) ≡ 2 ^ (k * 4) * 16
pow_16 k =
    let four : suc k * 4 ≡ suc (suc (suc (suc (k * 4)))) = omega arith in
    rw (four, pow-suc, pow-suc, pow-suc, pow-suc) (omega arith)

-- Reading the digits of `n` after what stands above them gives `n`.
pub horner-digits_of : (k n : ℕ) → horner (n / 2 ^ (k * 4)) (digits_of k n) ≡ n
horner-digits_of zero n = omega arith
horner-digits_of (suc k) n =
    let above : n / 2 ^ (suc k * 4) ≡ n / 2 ^ (k * 4) / 16 =
      ap (λ (p : ℕ). n / p) (pow_16 k) ∙ sym (div-div-eq-div-mul n (2 ^ (k * 4)) 16) in
    let value : n / 2 ^ (suc k * 4) * 16 + n / 2 ^ (k * 4) % 16 ≡ n / 2 ^ (k * 4) = omega arith in
    subst (λ (a : ℕ). horner a (digits_of k n) ≡ n) (sym value) (horner-digits_of k n)

pub hex_digit-digit_char : (d : ℕ) → d < 16 → hex_digit (digit_char d) ≡ some d
unfolding hex_digit
hex_digit-digit_char d h = rw (digit_char_lem d h) (ground arith)

hex_digit-lt : (b d : ℕ) → hex_digit b ≡ some d → (d < 16) × (run_char d ≡ b)
unfolding hex_digit
hex_digit-lt b d h = ground arith

digit_char-hex_digit : (b d : ℕ) → hex_digit b ≡ some d → (d < 16) × (digit_char d ≡ b)
digit_char-hex_digit b d h =
    let (small, same) = hex_digit-lt b d h in (small, digit_char_lem d small ∙ same)

-- More digits make a value no smaller.
horner-ge : (ds : List ℕ) (acc : ℕ) → acc ≤ horner acc ds
horner-ge [] acc = omega arith
horner-ge (d ∷ ds) acc = omega (arith, horner-ge ds (acc * 16 + d))

decode_loop_step :
    (b d acc : ℕ) (bs : Str)
    → hex_digit b ≡ some d
    → decode_loop acc (b ∷ bs) ≡ decode_loop (bit_or (acc * 16 % u64_mod) d) bs
unfolding decode_loop
decode_loop_step b d acc bs e = rw (e, decode_loop)

decode_loop_bad : (b acc : ℕ) (bs : Str) → hex_digit b ≡ none → decode_loop acc (b ∷ bs) ≡ none
unfolding decode_loop
decode_loop_bad b acc bs e = rw (e, decode_loop)

-- `decode_hex_16`'s loop reads digits to their value, as long as that fits 64 bits.
pub decode_loop-digits_text :
    (ds : List ℕ) (acc : ℕ)
    → Digits ds
    → horner acc ds < u64_mod
    → decode_loop acc (digits_text ds) ≡ some (horner acc ds)
unfolding decode_loop
decode_loop-digits_text [] acc h fits = refl
decode_loop-digits_text (d ∷ ds) acc h fits =
    let no_loss : acc * 16 % u64_mod ≡ acc * 16 = omega (arith, horner-ge ds (acc * 16 + d)) in
    decode_loop_step (digit_char d) d acc (digits_text ds) (hex_digit-digit_char d h.0)
    ∙ rw (no_loss, bit_or_nibble acc d h.0) (decode_loop-digits_text ds (acc * 16 + d) h.1 fits)

-- One more digit keeps a value below its bound, and loses nothing in the shift.
room :
    (acc d w : ℕ)
    → d < 16
    → 0 < w
    → (acc + 1) * (w * 16) ≤ u64_mod
    → ((acc * 16 + d + 1) * w ≤ u64_mod) × (acc * 16 < u64_mod)
room acc d w small pos fits = (grind arith, grind arith)

-- What the loop accepts is the text of digits, and the result is their value.
pub decode_loop-inverts :
    (bs : Str) (acc v : ℕ)
    → (acc + 1) * 16 ^ length bs ≤ u64_mod
    → decode_loop acc bs ≡ some v
    → (ds : List ℕ) × (digits_text ds ≡ bs) × Digits ds × (horner acc ds ≡ v) × (v < u64_mod)
unfolding decode_loop
decode_loop-inverts [] acc v fits h = ([], refl, tt, ground arith, ground arith)
decode_loop-inverts (b ∷ bs) acc v fits h = elim (Option-cases (hex_digit b)) [
  | inl bad ↦ cc (decode_loop_bad b acc bs bad)
  | inr (d, good) ↦
      let (small, char) = digit_char-hex_digit b d good in
      let power : 16 ^ length (b ∷ bs) ≡ 16 ^ length bs * 16 = pow-suc 16 (length bs) in
      let (fits', no_loss) =
        room acc d (16 ^ length bs) small (one-le-pow (length bs) 16 (omega arith))
          (subst (λ (w : ℕ). (acc + 1) * w ≤ u64_mod) power fits) in
      let no_loss' : acc * 16 % u64_mod ≡ acc * 16 = omega arith in
      let h' : decode_loop (acc * 16 + d) bs ≡ some v =
        cc (h, decode_loop_step b d acc bs good, no_loss', bit_or_nibble acc d small) in
      let (ds, same, all, value, below) = decode_loop-inverts bs (acc * 16 + d) v fits' h' in
      (d ∷ ds, cc, (small, all), value, below)
]

-- The lower accumulator stays lower, whatever the digits.
horner_lt :
    (xs ys : List ℕ) (a b : ℕ)
    → Digits xs
    → length xs ≡ length ys
    → a < b
    → horner a xs < horner b ys
horner_lt [] [] a b hx e h = h
horner_lt [] (y ∷ ys) a b hx e h = absurd (omega arith)
horner_lt (x ∷ xs) [] a b hx e h = absurd (omega arith)
horner_lt (x ∷ xs) (y ∷ ys) a b hx e h =
    horner_lt xs ys (a * 16 + x) (b * 16 + y) hx.1 (omega arith) (omega (arith, hx.0))

digit_char_lt : (x y : ℕ) → x < y → y < 16 → digit_char x < digit_char y
digit_char_lt x y h hy = omega (arith, run x y h hy)
  where
    ordered : (x y : ℕ) → x < y → run_char x < run_char y
    ordered x y h = ground arith

    run : (x y : ℕ) → x < y → y < 16 → digit_char x < digit_char y
    run x y h hy =
        subst₂ (λ (a b : ℕ). a < b) (sym (digit_char_lem x (omega arith)))
          (sym (digit_char_lem y hy)) (ordered x y h)

trichotomy : (x y : ℕ) → (x < y) ⊎ (x ≡ y) ⊎ (y < x)
trichotomy x y = omega arith

compare_lt : (a b : ℕ) → a < b → compare a b ≡ Ordering.lt
compare_lt a b h = ground arith

compare_gt : (a b : ℕ) → b < a → compare a b ≡ Ordering.gt
compare_gt a b h = ground arith

pub compare_refl : (a : ℕ) → compare a a ≡ Ordering.eq
compare_refl a = ground arith

-- Two lists of digits of one length compare as their values do.
pub str_cmp-digits_text :
    (xs ys : List ℕ) (acc : ℕ)
    → Digits xs
    → Digits ys
    → length xs ≡ length ys
    → str_cmp (digits_text xs) (digits_text ys) ≡ compare (horner acc xs) (horner acc ys)
str_cmp-digits_text [] [] acc hx hy e = str_cmp_refl [] ∙ sym (compare_refl acc)
str_cmp-digits_text [] (y ∷ ys) acc hx hy e = absurd (omega arith)
str_cmp-digits_text (x ∷ xs) [] acc hx hy e = absurd (omega arith)
str_cmp-digits_text (x ∷ xs) (y ∷ ys) acc hx hy e =
    let e' : length xs ≡ length ys = omega arith in
    elim (trichotomy x y) [
      | inl lower ↦
          str_cmp_lt (digits_text xs) (digits_text ys) (digit_char_lt x y lower hy.0)
          ∙ sym
              (compare_lt _ _ (horner_lt xs ys (acc * 16 + x) (acc * 16 + y) hx.1 e' (omega arith)))
      | inr (inl same) ↦
          str_cmp_same (digits_text xs) (digits_text ys) (ap digit_char same)
          ∙ str_cmp-digits_text xs ys (acc * 16 + x) hx.1 hy.1 e'
          ∙ ap (λ (d : ℕ). compare (horner (acc * 16 + x) xs) (horner (acc * 16 + d) ys)) same
      | inr (inr higher) ↦
          str_cmp_gt (digits_text xs) (digits_text ys) (digit_char_lt y x higher hx.0)
          ∙ sym (
              compare_gt _ _
                (horner_lt ys xs (acc * 16 + y) (acc * 16 + x) hy.1 (sym e') (omega arith)))
    ]
