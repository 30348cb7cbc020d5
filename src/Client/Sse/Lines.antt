-- ===== src/Client/Sse/Lines.antt =====
-- The lines that the server cuts a message into: none holds the end of a line, and all are UTF-8.
use durable_streams_rust.Prelude.{
  ℕ, ◌<◌, List, [], ◌∷◌, ◌≡◌, refl, Str, arith, ◌==◌, ◌||◌, Bool-cases, inl, inr, true, false, All,
}
use durable_streams_rust.Prelude.Split.{onto_first}
use durable_streams_rust.Prelude.Utf8.{
  is_utf8, Ranges, IsHigh, valid_after, valid_after-cut, valid_after_step,
}
use durable_streams_rust.Protocol.Sse.{split_lines, newline, carriage_return}

abbrev pub IsByteOfLine : ℕ → Type 0
IsByteOfLine c = ((c == newline) ≡ false) × ((c == carriage_return) ≡ false)

abbrev pub IsLine : Str → Type 0
IsLine line = All IsByteOfLine line

abbrev pub IsText : Str → Type 0
IsText line = IsLine line × (is_utf8 line ≡ true)

-- The first line goes on a character of which `rs` are to come.
abbrev AreValid : Ranges → List Str → Type 0
AreValid rs [] = ⊥
AreValid rs (line ∷ lines) = (valid_after rs line ≡ true) × All (λ l. is_utf8 l ≡ true) lines

All-valid : (lines : List Str) → AreValid [] lines → All (λ l. is_utf8 l ≡ true) lines
unfolding is_utf8
All-valid [] h = tt
All-valid (line ∷ lines) h = h

break_low : (c : ℕ) → ((c == carriage_return) || (c == newline)) ≡ true → c < 128
break_low c h = ground arith

same_low : (c k : ℕ) → (c == k) ≡ true → k < 128 → c < 128
same_low c k h low = ground arith

-- A break before valid lines.
break-AreValid :
    (rs : Ranges) (c : ℕ) (s : Str) (lines : List Str)
    → IsHigh rs
    → c < 128
    → valid_after rs (c ∷ s) ≡ true
    → (valid_after [] s ≡ true → AreValid [] lines)
    → AreValid rs ([] ∷ lines)
break-AreValid rs c s lines high low h rest =
    let cut = valid_after-cut c rs [] s low high h in (cut.0, All-valid lines (rest cut.1))

onto_first-AreValid :
    (rs rs' : Ranges) (c : ℕ) (lines : List Str)
    → ((t : Str) → valid_after rs' t ≡ true → valid_after rs (c ∷ t) ≡ true)
    → AreValid rs' lines
    → AreValid rs (onto_first c lines)
unfolding onto_first
onto_first-AreValid rs rs' c [] go h = absurd h
onto_first-AreValid rs rs' c (line ∷ lines) go h = (go line h.0, h.1)

split_lines-AreValid :
    (rs : Ranges) (s : Str) → IsHigh rs → valid_after rs s ≡ true → AreValid rs (split_lines s)
unfolding split_lines
split_lines-AreValid rs [] high h = (h, tt)
split_lines-AreValid rs (c ∷ []) high h =
    elim (Bool-cases ((c == carriage_return) || (c == newline))) [
      | inl e ↦ rw e (break-AreValid rs c [] ([] ∷ []) high (break_low c e) h (λ k. (k, tt)))
      | inr e ↦ rw e (h, tt)
    ]
split_lines-AreValid rs (c ∷ d ∷ s) high h =
    let before_rest : c < 128 → AreValid rs ([] ∷ split_lines (d ∷ s)) = λ low.
      break-AreValid rs c (d ∷ s) (split_lines (d ∷ s)) high low h
        (λ k. split_lines-AreValid [] (d ∷ s) tt k) in
    elim (Bool-cases (c == carriage_return)) [
      | inl e ↦ elim (Bool-cases (d == newline)) [
        | inl e' ↦
            rw (e, e')
              (break-AreValid rs c (d ∷ s) (split_lines s) high (same_low c 13 e (omega arith)) h
                (λ k.
                  split_lines-AreValid [] s tt
                    (valid_after-cut d [] [] s (same_low d 10 e' (omega arith)) tt k).1))
        | inr e' ↦ rw (e, e') (before_rest (same_low c 13 e (omega arith)))
      ]
      | inr e ↦ elim (Bool-cases (c == newline)) [
        | inl e' ↦ rw (e, e') (before_rest (same_low c 10 e' (omega arith)))
        | inr e' ↦
            let step = valid_after_step rs c (d ∷ s) high h in
            rw (e, e')
              (onto_first-AreValid rs step.0 c (split_lines (d ∷ s)) step.3
                (split_lines-AreValid step.0 (d ∷ s) step.1 step.2))
      ]
    ]

onto_first-IsLine :
    (c : ℕ) (lines : List Str) → IsByteOfLine c → All IsLine lines → All IsLine (onto_first c lines)
unfolding onto_first
onto_first-IsLine c [] b h = ((b, tt), tt)
onto_first-IsLine c (line ∷ lines) b h = ((b, h.0), h.1)

split_lines-IsLine : (s : Str) → All IsLine (split_lines s)
unfolding split_lines
split_lines-IsLine [] = (tt, tt)
split_lines-IsLine (c ∷ []) = ground arith
split_lines-IsLine (c ∷ d ∷ s) = elim (Bool-cases (c == carriage_return)) [
  | inl e ↦ elim (Bool-cases (d == newline)) [
    | inl e' ↦ rw (e, e') (tt, split_lines-IsLine s)
    | inr e' ↦ rw (e, e') (tt, split_lines-IsLine (d ∷ s))
  ]
  | inr e ↦ elim (Bool-cases (c == newline)) [
    | inl e' ↦ rw (e, e') (tt, split_lines-IsLine (d ∷ s))
    | inr e' ↦
        rw (e, e') (onto_first-IsLine c (split_lines (d ∷ s)) (e', e) (split_lines-IsLine (d ∷ s)))
  ]
]

All-IsText :
    (lines : List Str) → All IsLine lines → All (λ l. is_utf8 l ≡ true) lines → All IsText lines
All-IsText [] h k = tt
All-IsText (line ∷ lines) h k = ((h.0, k.0), All-IsText lines h.1 k.1)

pub split_lines-IsText : (s : Str) → is_utf8 s ≡ true → All IsText (split_lines s)
unfolding is_utf8
split_lines-IsText s h =
    All-IsText (split_lines s) (split_lines-IsLine s)
      (All-valid (split_lines s) (split_lines-AreValid [] s tt h))

AreValid-cons :
    (lines : List Str)
    → AreValid [] lines
    → (line : Str) × (more : List Str) × (lines ≡ line ∷ more)
AreValid-cons [] h = absurd h
AreValid-cons (line ∷ more) h = (line, more, refl)

pub split_lines_cons :
    (s : Str) → is_utf8 s ≡ true → (line : Str) × (more : List Str) × (split_lines s ≡ line ∷ more)
unfolding is_utf8
split_lines_cons s h = AreValid-cons (split_lines s) (split_lines-AreValid [] s tt h)
