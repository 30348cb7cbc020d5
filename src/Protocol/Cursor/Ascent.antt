-- ===== src/Protocol/Cursor/Ascent.antt =====
-- protocol/cursor.rs: the cursors that one generator hands out, call after call.
use durable_streams_rust.Prelude.{
  ℕ, ◌+◌, ◌*◌, ◌^◌, ◌%◌, ◌<◌, ◌≤◌, ◌≡◌, ◌⊎◌, refl, sym, subst, List, [], ◌∷◌, length, max, add64,
  u64_mod, arith,
}
use durable_streams_rust.Prelude.Bits.{bit_or_shift}
use durable_streams_rust.Protocol.Offset
use durable_streams_rust.Protocol.Offset.{parse_components}
use durable_streams_rust.Protocol.Cursor.{offset_value, cursor_at, generate}

-- The number of a position: its byte offset stands in the low 27 bits.
abbrev pub position : ℕ → ℕ → ℕ
position a b = a * 2 ^ 27 + b

-- The cursors of calls for the positions, one after the other.
unfoldable pub generated : ℕ → List (ℕ × ℕ) → List ℕ
generated last [] = []
generated last ((a, b) ∷ positions) =
    let (cursor, last') = generate last (Offset.new a b) in cursor ∷ generated last' positions

-- A cursor is its position, if that is above the last cursor, and else the number after the last.
abbrev pub IsNext : ℕ → ℕ → ℕ → Type 0
IsNext last p cursor = ((last < p) × (cursor ≡ p)) ⊎ ((p ≤ last) × (cursor ≡ last + 1))

-- Each cursor is above the one before it, at least its position, and no higher than it needs to be.
abbrev pub Ascend : ℕ → List (ℕ × ℕ) → List ℕ → Type 0
Ascend last [] [] = Unit
Ascend last ((a, b) ∷ positions) (cursor ∷ cursors) =
    (last < cursor)
    × (position a b ≤ cursor)
    × IsNext last (position a b) cursor
    × Ascend cursor positions cursors
Ascend last [] (cursor ∷ cursors) = ⊥
Ascend last (p ∷ positions) [] = ⊥

-- Positions whose packed number has at most 63 bits.
abbrev pub AreSmall : List (ℕ × ℕ) → Type 0
AreSmall [] = Unit
AreSmall ((a, b) ∷ positions) = (a < 2 ^ 36) × (b < 2 ^ 27) × AreSmall positions

offset_value-position : (a b : ℕ) → a < 2 ^ 36 → b < 2 ^ 27 → offset_value a b ≡ position a b
unfolding offset_value
offset_value-position a b h h' =
    let kept : a * 2 ^ 27 % u64_mod ≡ a * 2 ^ 27 = omega arith in rw kept (bit_or_shift 27 a b h')

generate-position :
    (last a b : ℕ)
    → a < 2 ^ 36
    → b < 2 ^ 27
    → last + 1 < u64_mod
    → generate last (Offset.new a b)
      ≡ (max (position a b) (last + 1), max (position a b) (last + 1))
unfolding generate cursor_at parse_components Offset.new
generate-position last a b h h' fits =
    let next : add64 last 1 ≡ last + 1 = omega arith in
    rw (offset_value-position a b h h', next) refl

-- The cursors of one generator's calls ascend: each is above the one before it, and is its position's
-- packed number where that is above the last cursor, and else the number after the last cursor. Read
-- sequences have at most 36 bits and byte offsets at most 27, there are at most 2^63 calls, and the
-- counter has room for them.
pub generated-Ascend :
    (last : ℕ) (positions : List (ℕ × ℕ))
    → AreSmall positions
    → length positions ≤ 2 ^ 63
    → last + length positions < u64_mod
    → Ascend last positions (generated last positions)
unfolding generated
generated-Ascend last [] small few fits = tt
generated-Ascend last ((a, b) ∷ positions) (h, h', small) few fits =
    let c = max (position a b) (last + 1) in
    subst
      (λ (o : ℕ × ℕ).
        Ascend last ((a, b) ∷ positions) (let (c, l) = o in c ∷ generated l positions))
      (sym (generate-position last a b h h' (omega arith)))
      (
        omega arith,
        omega arith,
        is_next (position a b),
        generated-Ascend c positions small (omega arith) (omega arith),
      )
  where
    is_next : (p : ℕ) → IsNext last p (max p (last + 1))
    is_next p = ground arith
