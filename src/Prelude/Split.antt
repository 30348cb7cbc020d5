-- ===== src/Prelude/Split.antt =====
-- `str::split` on a byte, and the decimal text of a number.
use Prim.Native.Nat.{ℕ, zero, suc, ◌+◌, ◌/◌, ◌%◌}
use mathlib.Core.List.{List, [], ◌∷◌}
use durable_streams_rust.Prelude.Tests.{◌==◌, ltb, if◌then◌else◌}
use durable_streams_rust.Prelude.Text.{Str}

-- One more byte on the first segment.
unfoldable pub onto_first : ℕ → List Str → List Str
onto_first c [] = (c ∷ []) ∷ []
onto_first c (segment ∷ segments) = (c ∷ segment) ∷ segments

-- The segments between the marks: one more than there are marks.
unfoldable pub split : ℕ → Str → List Str
unfolding onto_first
split mark [] = [] ∷ []
split mark (c ∷ s) =
    let segments = split mark s in if c == mark then [] ∷ segments else onto_first c segments

decimal_from : ℕ → ℕ → Str → Str
decimal_from zero n digits = digits
decimal_from (suc fuel) n digits =
    let rest = decimal_from fuel (n / 10) ((n % 10 + 48) ∷ digits) in
    if ltb n 10 then (n + 48) ∷ digits else rest

-- `to_string` of a 64-bit number, which has at most twenty digits.
pub decimal : ℕ → Str
unfolding decimal_from
decimal n = decimal_from 20 n []
