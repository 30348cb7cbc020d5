-- ===== src/Client/Sse/Chunks.antt =====
-- What the parser makes of bytes does not depend on how they are cut into chunks.
use mathlib.Core.List.{append_assoc}
use mathlib.Core.Path.{fun_ext}
use durable_streams_rust.Prelude.{
  ℕ, List, [], ◌∷◌, ◌++◌, ◌≡◌, refl, sym, ap, ◌∙◌, Str, ◌==◌, Bool-cases, inl, inr, true, false,
}
use durable_streams_rust.Client.Sse.{
  SseParser, PendingEvent, ParsedEvent, ClientResult, ok, err, onto_line, take_lines, parse_line,
  parse_lines, parse_buffer, behind, followed_by, with_buffer, without_return, push,
}

-- The lines of a chunk, and of a second one behind what the first leaves.
abbrev rejoin : List Str × Str → Str → List Str × Str
rejoin (lines, rest) b = (lines ++ (take_lines (rest ++ b)).0, (take_lines (rest ++ b)).1)

pub take_newline :
    (c : ℕ) (s : Str)
    → (c == 10) ≡ true
    → take_lines (c ∷ s) ≡ ([] ∷ (take_lines s).0, (take_lines s).1)
unfolding take_lines
take_newline c s h = rw h refl

pub take_byte :
    (c : ℕ) (s : Str) → (c == 10) ≡ false → take_lines (c ∷ s) ≡ onto_line c (take_lines s)
unfolding take_lines
take_byte c s h = rw h refl

onto_line-rejoin :
    (c : ℕ) (cut : List Str × Str) (b : Str)
    → (c == 10) ≡ false
    → onto_line c (rejoin cut b) ≡ rejoin (onto_line c cut) b
unfolding onto_line
onto_line-rejoin c ([], rest) b h = sym (take_byte c (rest ++ b) h)
onto_line-rejoin c (line ∷ lines, rest) b h = refl

take_lines-append : (a b : Str) → take_lines (a ++ b) ≡ rejoin (take_lines a) b
take_lines-append [] b = unfold take_lines in refl
take_lines-append (c ∷ a) b = elim (Bool-cases (c == 10)) [
  | inl e ↦ rw (take_newline c (a ++ b) e, take_newline c a e, take_lines-append a b) refl
  | inr e ↦
      take_byte c (a ++ b) e
      ∙ ap (onto_line c) (take_lines-append a b)
      ∙ onto_line-rejoin c (take_lines a) b e
      ∙ ap (λ (cut : List Str × Str). rejoin cut b) (sym (take_byte c a e))
]

module _ {S : Type 0} where
  pub behind_nil : (r : ClientResult (S × List ParsedEvent)) → behind [] r ≡ r
  behind_nil (err e) = refl
  behind_nil (ok (p, events)) = refl

  pub behind-behind :
      (before events : List ParsedEvent) (r : ClientResult (S × List ParsedEvent))
      → behind before (behind events r) ≡ behind (before ++ events) r
  behind-behind before events (err e) = refl
  behind-behind before events (ok (p, more)) = rw append_assoc refl

module _ {S T : Type 0} where
  followed_by-behind :
      (events : List ParsedEvent) (r : ClientResult (S × List ParsedEvent))
      (f : S → ClientResult (T × List ParsedEvent))
      → followed_by (behind events r) f ≡ behind events (followed_by r f)
  followed_by-behind events (err e) f = refl
  followed_by-behind events (ok (p, more)) f = sym (behind-behind events more (f p))

module _ {S T U : Type 0} where
  followed_by_assoc :
      (r : ClientResult (S × List ParsedEvent)) (f : S → ClientResult (T × List ParsedEvent))
      (g : T → ClientResult (U × List ParsedEvent))
      → followed_by (followed_by r f) g ≡ followed_by r (λ p. followed_by (f p) g)
  followed_by_assoc (err e) f g = refl
  followed_by_assoc (ok (p, events)) f g = followed_by-behind events (f p) g

parse_lines-append :
    (p : PendingEvent) (a b : List Str)
    → parse_lines p (a ++ b) ≡ followed_by (parse_lines p a) (λ p'. parse_lines p' b)
unfolding parse_lines
parse_lines-append p [] b = sym (behind_nil (parse_lines p b))
parse_lines-append p (line ∷ a) b =
    ap (followed_by (parse_line p (without_return line)))
      (fun_ext (λ p'. parse_lines-append p' a b))
    ∙ sym (
        followed_by_assoc (parse_line p (without_return line)) (λ p'. parse_lines p' a)
          (λ p'. parse_lines p' b))

pub with_buffer-followed_by :
    (rest : Str) (r : ClientResult (PendingEvent × List ParsedEvent))
    (f : PendingEvent → ClientResult (PendingEvent × List ParsedEvent))
    → with_buffer rest (followed_by r f) ≡ followed_by r (λ p. with_buffer rest (f p))
unfolding with_buffer
with_buffer-followed_by rest (err e) f = refl
with_buffer-followed_by rest (ok (p, events)) f = with_buffer-behind (f p)
  where
    with_buffer-behind :
        (r : ClientResult (PendingEvent × List ParsedEvent))
        → with_buffer rest (behind events r) ≡ behind events (with_buffer rest r)
    with_buffer-behind (err e) = refl
    with_buffer-behind (ok (q, more)) = refl

followed_by-with_buffer :
    (rest : Str) (r : ClientResult (PendingEvent × List ParsedEvent))
    (f : SseParser → ClientResult (SseParser × List ParsedEvent))
    → followed_by (with_buffer rest r) f
      ≡ followed_by r (λ p. f (record { buffer = rest; pending = p }))
unfolding with_buffer
followed_by-with_buffer rest (err e) f = refl
followed_by-with_buffer rest (ok (p, events)) f = refl

-- Two chunks give the events, the state and the error that their bytes give in one.
pub push-append :
    (parser : SseParser) (a b : Str)
    → push parser (a ++ b) ≡ followed_by (push parser a) (λ parser'. push parser' b)
unfolding push parse_buffer
push-append parser a b =
    let cut = take_lines (parser.buffer ++ a) in
    let next = take_lines (cut.1 ++ b) in
    ap (parse_buffer parser.pending) (
      ap take_lines (sym (append_assoc parser.buffer a b))
      ∙ take_lines-append (parser.buffer ++ a) b)
    ∙ ap (with_buffer next.1) (parse_lines-append parser.pending cut.0 next.0)
    ∙ with_buffer-followed_by next.1 (parse_lines parser.pending cut.0) (λ p. parse_lines p next.0)
    ∙ sym (followed_by-with_buffer cut.1 (parse_lines parser.pending cut.0) (λ q. push q b))
