-- ===== src/Protocol/Offset/Order.antt =====
-- The order of offsets is the order of their texts.
use durable_streams_rust.Prelude.{
  ℕ, ◌<◌, ◌≤◌, ◌≡◌, refl, ap, sym, ◌∙◌, ◌⊎◌, true, false, [], ◌∷◌, ◌++◌, Str, length, u64_mod,
  arith, str_cmp, str_cmp_same, compare, Ordering,
}
use durable_streams_rust.Protocol.Offset
use durable_streams_rust.Protocol.Offset.{
  Offset, start, now, concrete, encode_hex, encode_offset, as_str, cmp, cmp_pair, offset_lt,
}
use durable_streams_rust.Protocol.Offset.Hex.{
  horner, digits_of, encode_hex-digits, digits_of-Digits, length-digits_of, str_cmp-digits_text,
}
use durable_streams_rust.Protocol.Offset.RoundTrip.{IsCanonical, value_16}

-- The first difference decides; equal heads leave the tails.
abbrev then_cmp : Ordering → Ordering → Ordering
then_cmp Ordering.lt rest = Ordering.lt
then_cmp Ordering.eq rest = rest
then_cmp Ordering.gt rest = Ordering.gt

str_cmp-append :
    (x y s t : Str)
    → length x ≡ length y
    → str_cmp (x ++ s) (y ++ t) ≡ then_cmp (str_cmp x y) (str_cmp s t)
unfolding str_cmp
str_cmp-append [] [] s t e = refl
str_cmp-append [] (b ∷ y) s t e = absurd (omega arith)
str_cmp-append (a ∷ x) [] s t e = absurd (omega arith)
str_cmp-append (a ∷ x) (b ∷ y) s t e = ground (arith, str_cmp-append x y s t)

-- Halves of an offset compare as their numbers do.
encode_hex_order :
    (a b : ℕ)
    → a < u64_mod
    → b < u64_mod
    → str_cmp (encode_hex 16 a) (encode_hex 16 b) ≡ compare a b
encode_hex_order a b ha hb =
    rw (encode_hex-digits 16 a, encode_hex-digits 16 b)
      (str_cmp-digits_text (digits_of 16 a) (digits_of 16 b) 0 (digits_of-Digits 16 a)
          (digits_of-Digits 16 b) (length-digits_of 16 a ∙ sym (length-digits_of 16 b))
        ∙ ap (λ (t : ℕ). compare t (horner 0 (digits_of 16 b))) (value_16 a ha)
        ∙ ap (compare a) (value_16 b hb))

encode_offset_order :
    (a b c d : ℕ)
    → a < u64_mod
    → b < u64_mod
    → c < u64_mod
    → d < u64_mod
    → str_cmp (encode_offset a b) (encode_offset c d) ≡ cmp_pair (a, b) (c, d)
unfolding encode_offset
encode_offset_order a b c d ha hb hc hd =
    str_cmp-append (encode_hex 16 a) (encode_hex 16 c) _ _ (unfold encode_hex in refl)
    ∙ rw
        (
          str_cmp_same (encode_hex 16 b) (encode_hex 16 d) refl,
          encode_hex_order a c ha hc,
          encode_hex_order b d hb hd,
        )
        (unfold cmp_pair in ground arith)

-- Between canonical offsets, sentinels included, `Ord::cmp` is the lexicographic order of the
-- texts: an offset that is later in time has a greater text.
pub cmp-as_str :
    (p q : Offset) → IsCanonical p → IsCanonical q → cmp p q ≡ str_cmp (as_str p) (as_str q)
unfolding cmp as_str
cmp-as_str start q hp hq = refl
cmp-as_str now q hp hq = refl
cmp-as_str (concrete a b raw) start hp hq = refl
cmp-as_str (concrete a b raw) now hp hq = refl
cmp-as_str (concrete a b raw) (concrete c d raw') hp hq =
    rw (hp.2, hq.2) (sym (encode_offset_order a b c d hp.0 hp.1 hq.0 hq.1))

-- Concrete offsets compare by their components.
cmp-new : (a b c d : ℕ) → cmp (Offset.new a b) (Offset.new c d) ≡ cmp_pair (a, b) (c, d)
unfolding cmp Offset.new
cmp-new a b c d = refl

-- `read_seq` first, then `byte_offset`.
offset_lt-new :
    (a b c d : ℕ)
    → (offset_lt (Offset.new a b) (Offset.new c d) ≡ true)
    → (a < c) ⊎ ((a ≡ c) × (b < d))
unfolding offset_lt cmp Offset.new
offset_lt-new a b c d h = ground arith

pub lt-offset_lt : (a b c d : ℕ) → a < c → offset_lt (Offset.new a b) (Offset.new c d) ≡ true
unfolding offset_lt cmp Offset.new
lt-offset_lt a b c d h = ground arith

pub not-offset_lt :
    (a b c d : ℕ) → c ≤ a → d ≤ b → offset_lt (Offset.new a b) (Offset.new c d) ≡ false
unfolding offset_lt cmp Offset.new
not-offset_lt a b c d h k = ground arith
