-- ===== src/Prelude/Bits.antt =====
-- `x << 4 | d` and `x & 0xF` as arithmetic.
use Prim.Native.Nat.{
  ℕ, zero, suc, ◌+◌, ◌*◌, ◌/◌, ◌%◌, ◌^◌, ◌≤◌, ◌<◌, max, min, bit_or, bit_and, digits,
}
use Prim.Native.Nat.{bit_or-bitwise, bit_and-bitwise}
use mathlib.Core.Path.{◌≡◌, refl, sym}
use native.Mathlib.Nat.{pow-suc, mul_assoc}
use native.Mathlib.Omega.{arith}

-- The definition that `bit_or` stands for, with the number of digits free.
abbrev or_digits : ℕ → ℕ → ℕ → ℕ
or_digits n a b = digits (λ b. b) max n a b

-- More digits than the first number has change nothing.
or_digits_enough : (n m a b : ℕ) → a ≤ n → a ≤ m → or_digits n a b ≡ or_digits m a b
or_digits_enough zero zero zero b p q = refl
or_digits_enough zero zero (suc a) b p q = absurd (omega arith)
or_digits_enough zero (suc m) zero b p q = refl
or_digits_enough zero (suc m) (suc a) b p q = absurd (omega arith)
or_digits_enough (suc n) zero zero b p q = refl
or_digits_enough (suc n) zero (suc a) b p q = absurd (omega arith)
or_digits_enough (suc n) (suc m) zero b p q = refl
or_digits_enough (suc n) (suc m) (suc a) b p q =
    omega (arith, or_digits_enough n m (suc a / 2) (b / 2) (omega arith) (omega arith))

zero-bit_or : (b : ℕ) → bit_or 0 b ≡ b
zero-bit_or b = bit_or-bitwise 0 b

bit_or_halve : (a b : ℕ) → bit_or a b ≡ bit_or (a / 2) (b / 2) * 2 + max (a % 2) (b % 2)
bit_or_halve zero b = omega (arith, zero-bit_or b, zero-bit_or (b / 2))
bit_or_halve (suc a) b = omega (
  arith,
  bit_or-bitwise (suc a) b,
  bit_or-bitwise (suc a / 2) (b / 2),
  or_digits_enough a (suc a / 2) (suc a / 2) (b / 2) (omega arith) (omega arith),
)

bit_or-zero_below : (n a : ℕ) → a ≤ n → bit_or a 0 ≡ a
bit_or-zero_below n zero h = zero-bit_or 0
bit_or-zero_below zero (suc a) h = absurd (omega arith)
bit_or-zero_below (suc n) (suc a) h =
    omega (arith, bit_or_halve (suc a) 0, bit_or-zero_below n (suc a / 2) (omega arith))

bit_or-zero : (a : ℕ) → bit_or a 0 ≡ a
bit_or-zero a = bit_or-zero_below a a (omega arith)

-- One zero bit below a number takes the last bit of the other.
bit_or_double : (x d : ℕ) → bit_or (x * 2) d ≡ bit_or x (d / 2) * 2 + d % 2
bit_or_double x d =
    let half : x * 2 / 2 ≡ x = omega arith in
    let even : max (x * 2 % 2) (d % 2) ≡ d % 2 = omega arith in rw bit_or_halve (rw half (rw even))

-- A digit put below four zero bits is added.
pub bit_or_nibble : (x d : ℕ) → d < 16 → bit_or (x * 16) d ≡ x * 16 + d
bit_or_nibble x d h =
    let spread : x * 16 ≡ x * 2 * 2 * 2 * 2 = omega arith in
    let none_left : d / 2 / 2 / 2 / 2 ≡ 0 = omega arith in
    let last : bit_or x (d / 2 / 2 / 2 / 2) ≡ x = rw none_left (bit_or-zero x) in
    rw spread (
      omega (
        arith,
        bit_or_double (x * 2 * 2 * 2) d,
        bit_or_double (x * 2 * 2) (d / 2),
        bit_or_double (x * 2) (d / 2 / 2),
        bit_or_double x (d / 2 / 2 / 2),
        last,
      ))

abbrev and_digits : ℕ → ℕ → ℕ → ℕ
and_digits n a b = digits (λ b. zero) min n a b

and_digits_enough : (n m a b : ℕ) → a ≤ n → a ≤ m → and_digits n a b ≡ and_digits m a b
and_digits_enough zero zero zero b p q = refl
and_digits_enough zero zero (suc a) b p q = absurd (omega arith)
and_digits_enough zero (suc m) zero b p q = refl
and_digits_enough zero (suc m) (suc a) b p q = absurd (omega arith)
and_digits_enough (suc n) zero zero b p q = refl
and_digits_enough (suc n) zero (suc a) b p q = absurd (omega arith)
and_digits_enough (suc n) (suc m) zero b p q = refl
and_digits_enough (suc n) (suc m) (suc a) b p q =
    omega (arith, and_digits_enough n m (suc a / 2) (b / 2) (omega arith) (omega arith))

zero-bit_and : (b : ℕ) → bit_and 0 b ≡ 0
zero-bit_and b = bit_and-bitwise 0 b

bit_and_halve : (a b : ℕ) → bit_and a b ≡ bit_and (a / 2) (b / 2) * 2 + min (a % 2) (b % 2)
bit_and_halve zero b = omega (arith, zero-bit_and b, zero-bit_and (b / 2))
bit_and_halve (suc a) b = omega (
  arith,
  bit_and-bitwise (suc a) b,
  bit_and-bitwise (suc a / 2) (b / 2),
  and_digits_enough a (suc a / 2) (suc a / 2) (b / 2) (omega arith) (omega arith),
)

bit_and-zero_below : (n a : ℕ) → a ≤ n → bit_and a 0 ≡ 0
bit_and-zero_below n zero h = zero-bit_and 0
bit_and-zero_below zero (suc a) h = absurd (omega arith)
bit_and-zero_below (suc n) (suc a) h =
    omega (arith, bit_and_halve (suc a) 0, bit_and-zero_below n (suc a / 2) (omega arith))

-- The mask of four ones is the remainder by 16.
pub bit_and_nibble : (x : ℕ) → bit_and x 15 ≡ x % 16
bit_and_nibble x = omega (
  arith,
  bit_and_halve x 15,
  bit_and_halve (x / 2) 7,
  bit_and_halve (x / 2 / 2) 3,
  bit_and_halve (x / 2 / 2 / 2) 1,
  bit_and-zero_below (x / 2 / 2 / 2 / 2) (x / 2 / 2 / 2 / 2) (omega arith),
)

-- A number put below as many zero bits is added.
pub bit_or_shift : (n x d : ℕ) → d < 2 ^ n → bit_or (x * 2 ^ n) d ≡ x * 2 ^ n + d
bit_or_shift zero x d h =
    let none_left : d ≡ 0 = omega arith in
    let same : x * 2 ^ 0 ≡ x = omega arith in rw (none_left, same, bit_or-zero x) (omega arith)
bit_or_shift (suc n) x d h =
    let power : 2 ^ suc n ≡ 2 ^ n * 2 = pow-suc 2 n in
    let twice : x * 2 ^ suc n ≡ x * 2 ^ n * 2 = rw power (sym (mul_assoc x (2 ^ n) 2)) in
    let half : d / 2 < 2 ^ n = omega arith in
    rw twice (omega (arith, bit_or_double (x * 2 ^ n) d, bit_or_shift n x (d / 2) half))
