-- ===== src/Client/Sse/Texts.antt =====
-- Which texts arrive as they were sent, and what is lost of the others.
use durable_streams_rust.Prelude.{
  ℕ, List, [], ◌∷◌, ◌++◌, map, ◌≡◌, refl, sym, ap, ◌∙◌, Str, arith, ◌==◌, ◌&&◌, ◌||◌, Bool,
  Bool-cases, inl, inr, true, false, subst, ==_iff, text,
}
use durable_streams_rust.Prelude.Split.{onto_first}
use durable_streams_rust.Prelude.Utf8.{is_utf8, is_utf8_cons, from_utf8_lossy_valid}
use durable_streams_rust.Protocol.Sse.{
  split_lines, newline, carriage_return, SseCodec, format_data_frame, format_raw_data_frame,
}
use durable_streams_rust.Client.Sse.{without_space, push, default_parser, behind}
use durable_streams_rust.Client.Sse.Frames.{
  with_newlines, behind_lines, received, event, push-format_raw_data_frame,
}

abbrev space : ℕ
space = 32

-- No carriage return, and no line with a space in front; `start` says that a line begins.
abbrev KeepsLines : Bool → Str → Type 0
KeepsLines start [] = Unit
KeepsLines start (c ∷ s) =
    ((c == carriage_return) ≡ false)
    × ((start && (c == space)) ≡ false)
    × KeepsLines (c == newline) s

abbrev pub IsKept : Str → Type 0
IsKept s = KeepsLines true s

inside_line : (s : Str) → KeepsLines true s → KeepsLines false s
inside_line [] h = tt
inside_line (c ∷ s) h = (h.0, refl, h.2)

-- The lines, the first as it is.
first_kept : List Str → Str
first_kept [] = []
first_kept (line ∷ lines) = line ++ behind_lines (map without_space lines)

abbrev BeginsKept : List Str → Type 0
BeginsKept [] = ⊥
BeginsKept ([] ∷ lines) = Unit
BeginsKept ((c ∷ line) ∷ lines) = (c == space) ≡ false

with_newlines-first_kept :
    (lines : List Str)
    → BeginsKept lines
    → with_newlines (map without_space lines) ≡ first_kept lines
unfolding with_newlines first_kept without_space
with_newlines-first_kept [] h = absurd h
with_newlines-first_kept ([] ∷ lines) h = refl
with_newlines-first_kept ((c ∷ line) ∷ lines) h = rw h refl

abbrev pub BytesKept : Str → Type 0
BytesKept [] = Unit
BytesKept (c ∷ s) = (c == space) ≡ false

onto_first-BeginsKept :
    (c : ℕ) (lines : List Str) → (c == space) ≡ false → BeginsKept (onto_first c lines)
unfolding onto_first
onto_first-BeginsKept c [] h = h
onto_first-BeginsKept c (line ∷ lines) h = h

split_lines-BeginsKept : (s : Str) → BytesKept s → BeginsKept (split_lines s)
unfolding split_lines
split_lines-BeginsKept [] h = tt
split_lines-BeginsKept (c ∷ []) h = elim (Bool-cases ((c == carriage_return) || (c == newline))) [
  | inl e ↦ rw e tt
  | inr e ↦ rw e h
]
split_lines-BeginsKept (c ∷ d ∷ s) h = elim (Bool-cases (c == carriage_return)) [
  | inl e ↦ elim (Bool-cases (d == newline)) [ inl e' ↦ rw (e, e') tt | inr e' ↦ rw (e, e') tt ]
  | inr e ↦ elim (Bool-cases (c == newline)) [
    | inl e' ↦ rw (e, e') tt
    | inr e' ↦ rw (e, e') (onto_first-BeginsKept c (split_lines (d ∷ s)) h)
  ]
]

first_kept-onto_first :
    (c : ℕ) (lines : List Str) → first_kept (onto_first c lines) ≡ c ∷ first_kept lines
unfolding first_kept onto_first behind_lines
first_kept-onto_first c [] = refl
first_kept-onto_first c (line ∷ lines) = refl

behind_lines_cons :
    (lines : List Str)
    → BeginsKept lines
    → behind_lines (map without_space lines) ≡ newline ∷ first_kept lines
unfolding behind_lines first_kept without_space
behind_lines_cons [] h = absurd h
behind_lines_cons ([] ∷ lines) h = refl
behind_lines_cons ((c ∷ line) ∷ lines) h = rw h refl

first_kept_lines : (s : Str) → KeepsLines false s → first_kept (split_lines s) ≡ s
unfolding split_lines first_kept behind_lines without_space
first_kept_lines [] h = refl
first_kept_lines (c ∷ []) h = elim (Bool-cases (c == newline)) [
  | inl e ↦ rw (h.0, e) (ap (λ (x : ℕ). x ∷ []) (sym ((==_iff c newline).0 e)))
  | inr e ↦ rw (h.0, e) refl
]
first_kept_lines (c ∷ d ∷ s) h = elim (Bool-cases (c == newline)) [
  | inl e ↦
      let kept : KeepsLines true (d ∷ s) = subst (λ (b : Bool). KeepsLines b (d ∷ s)) e h.2 in
      rw (h.0, e)
        (behind_lines_cons (split_lines (d ∷ s)) (split_lines-BeginsKept (d ∷ s) kept.1)
          ∙ ap (λ (t : Str). newline ∷ t) (first_kept_lines (d ∷ s) (inside_line (d ∷ s) kept))
          ∙ ap (λ (x : ℕ). x ∷ d ∷ s) (sym ((==_iff c newline).0 e)))
  | inr e ↦
      rw (h.0, e)
        (first_kept-onto_first c (split_lines (d ∷ s))
          ∙ ap (λ (t : Str). c ∷ t)
              (first_kept_lines (d ∷ s) (subst (λ (b : Bool). KeepsLines b (d ∷ s)) e h.2)))
]

bytes_kept : (s : Str) → KeepsLines true s → BytesKept s
bytes_kept [] h = tt
bytes_kept (c ∷ s) h = h.1

-- A text arrives as it was sent if it has no carriage return and no line of it begins with a space.
pub received-IsKept : (s : Str) → IsKept s → received s ≡ s
unfolding received
received-IsKept s h =
    with_newlines-first_kept (split_lines s) (split_lines-BeginsKept s (bytes_kept s h))
    ∙ first_kept_lines s (inside_line s h)

drop_space :
    (lines : List Str)
    → BeginsKept lines
    → with_newlines (map without_space (onto_first space lines))
      ≡ with_newlines (map without_space lines)
unfolding onto_first with_newlines without_space
drop_space [] h = absurd h
drop_space ([] ∷ lines) h = refl
drop_space ((c ∷ line) ∷ lines) h = rw h refl

received-space : (s : Str) → BytesKept s → received (space ∷ s) ≡ received s
unfolding received
received-space [] h = unfold split_lines with_newlines behind_lines without_space in refl
received-space (c ∷ s) h =
    first_line ∙ drop_space (split_lines (c ∷ s)) (split_lines-BeginsKept (c ∷ s) h)
  where
    first_line :
        with_newlines (map without_space (split_lines (space ∷ c ∷ s)))
        ≡ with_newlines (map without_space (onto_first space (split_lines (c ∷ s))))
    first_line = unfold split_lines in refl

pub push_data_frame :
    (codec : SseCodec) (s rest : Str)
    → is_utf8 s ≡ true
    → push default_parser (format_data_frame codec s false false ++ rest)
      ≡ behind (event (text "data") (received s) ∷ []) (push default_parser rest)
unfolding format_data_frame
push_data_frame codec s rest h =
    ap (λ (t : Str). push default_parser (format_raw_data_frame t ++ rest))
      (from_utf8_lossy_valid s h)
    ∙ push-format_raw_data_frame s rest h

-- The space in front of a text message is lost: the client reads the frame of the message, and what
-- follows it, as it would without the space. The message is UTF-8 and has one space in front.
pub space_lost :
    (codec : SseCodec) (s rest : Str)
    → is_utf8 s ≡ true
    → BytesKept s
    → push default_parser (format_data_frame codec (space ∷ s) false false ++ rest)
      ≡ push default_parser (format_data_frame codec s false false ++ rest)
space_lost codec s rest h kept =
    push_data_frame codec (space ∷ s) rest (is_utf8_cons space s (omega arith) ∙ h)
    ∙ ap (λ (t : Str). behind (event (text "data") t ∷ []) (push default_parser rest))
        (received-space s kept)
    ∙ sym (push_data_frame codec s rest h)
