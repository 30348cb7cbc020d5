-- ===== src/Protocol/Offset/Width.antt =====
-- Every encoded offset has the same length.
use durable_streams_rust.Prelude.{ℕ, zero, suc, ◌∷◌, ◌≡◌, refl, ap, length, length-append, arith}
use durable_streams_rust.Protocol.Offset.{encode_hex, encode_offset}

length-encode_hex : (k n : ℕ) → length (encode_hex k n) ≡ k
unfolding encode_hex
length-encode_hex zero n = refl
length-encode_hex (suc k) n = ap suc (length-encode_hex k n)

pub length-encode_offset : (a b : ℕ) → length (encode_offset a b) ≡ 33
unfolding encode_offset
length-encode_offset a b = omega (
  arith,
  length-append (encode_hex 16 a) (b'_' ∷ encode_hex 16 b),
  length-encode_hex 16 a,
  length-encode_hex 16 b,
)
