-- ===== src/Client/Sse.antt =====
-- protocol.rs of the client: SseParser, which takes the events off the bytes as they arrive.
pub mod Chunks
pub mod Lines
pub mod Frames
pub mod Collect
pub mod Pairs
pub mod Messages
pub mod Delivery
pub mod Texts
pub mod Exact
pub mod Limit
use durable_streams_rust.Prelude.{
  ℕ, Bool, true, false, ◌||◌, Option, none, some, List, [], ◌∷◌, ◌++◌, Str, text, trim,
  strip_prefix, if◌then◌else◌, ◌==◌,
}
use durable_streams_rust.Prelude.Utf8.{is_utf8}

-- The errors of error.rs that reading an event stream has; a text stands for a library's error.
pub data ClientError : Type 0 where
  parse base64 transport : Str → ClientError

pub data ClientResult {ℓ} (A : Type ℓ) : Type ℓ where
  ok : A → ClientResult A
  err : ClientError → ClientResult A

-- `?`
infixl 5 ◌>>=◌
abbrev pub ◌>>=◌ {ℓ κ} :
    {A : Type ℓ} {B : Type κ} → ClientResult A → (A → ClientResult B) → ClientResult B
ok a >>= f = f a
err e >>= f = err e

pub record ParsedEvent : Type 0 where
  pub kind : Option Str
  pub content : Str

-- The fields current_event, data and saw_data_line: what is read of an event.
pub record PendingEvent : Type 0 where
  pub current_event : Option Str
  pub content : Str
  pub saw_data_line : Bool

pub record SseParser : Type 0 where
  pub buffer : Str
  pub pending : PendingEvent

abbrev pub no_event : PendingEvent
no_event = record { current_event = none; content = []; saw_data_line = false }

-- SseParser::default
abbrev pub default_parser : SseParser
default_parser = record { buffer = []; pending = no_event }

-- One more byte of the first line, or of what stays if there is no line.
pub onto_line : ℕ → List Str × Str → List Str × Str
onto_line c ([], rest) = ([], c ∷ rest)
onto_line c (line ∷ lines, rest) = ((c ∷ line) ∷ lines, rest)

-- The lines that the loop takes off the buffer, each without its newline, and what stays.
unfoldable pub take_lines : Str → List Str × Str
unfolding onto_line
take_lines [] = ([], [])
take_lines (c ∷ s) =
    let (lines, rest) = take_lines s in
    if c == 10 then ([] ∷ lines, rest) else onto_line c (lines, rest)

-- `if line.ends_with(b"\r")`
unfoldable pub without_return : Str → Str
without_return [] = []
without_return (c ∷ []) = if c == 13 then [] else c ∷ []
without_return (c ∷ d ∷ s) = c ∷ without_return (d ∷ s)

abbrev pub has_event : PendingEvent → Bool
has_event p = elim p.current_event [ none ↦ p.saw_data_line | some kind ↦ true ]

abbrev pub invalid_utf8 : ClientError
invalid_utf8 = parse (text "SSE stream contained invalid UTF-8")

-- An empty line ends the event, if there is one.
unfoldable pub end_event : PendingEvent → ClientResult (PendingEvent × List ParsedEvent)
end_event p =
    if has_event p
    then if is_utf8 p.content
      then ok (no_event, record { kind = p.current_event; content = p.content } ∷ [])
      else err invalid_utf8
    else ok (p, [])

-- `rest.strip_prefix(' ').unwrap_or(rest)`
unfoldable pub without_space : Str → Str
without_space [] = []
without_space (c ∷ s) = if c == 32 then s else c ∷ s

unfoldable pub push_data : PendingEvent → Str → PendingEvent
unfolding without_space
push_data p rest = record p {
  content = (if p.saw_data_line then p.content ++ (10 ∷ []) else p.content) ++ without_space rest;
  saw_data_line = true;
}

unfoldable pub data_line : PendingEvent → Option Str → PendingEvent
unfolding push_data
data_line p none = p
data_line p (some rest) = push_data p rest

unfoldable pub field_line : PendingEvent → Str → Option Str → PendingEvent
unfolding data_line
field_line p line none = data_line p (strip_prefix (text "data:") line)
field_line p line (some rest) = record p { current_event = some (trim rest) }

-- The body of the loop, on a line without its carriage return.
unfoldable pub parse_line : PendingEvent → Str → ClientResult (PendingEvent × List ParsedEvent)
unfolding end_event field_line
parse_line p [] = end_event p
parse_line p (c ∷ line) =
    if is_utf8 (c ∷ line)
    then ok (field_line p (c ∷ line) (strip_prefix (text "event:") (c ∷ line)), [])
    else err invalid_utf8

-- `events` before those of a run.
abbrev pub behind :
    {S : Type 0}
    → List ParsedEvent
    → ClientResult (S × List ParsedEvent)
    → ClientResult (S × List ParsedEvent)
behind events (err e) = err e
behind events (ok (p, more)) = ok (p, events ++ more)

-- One run, and another from the state that it leaves: the events of both, or the first error.
abbrev pub followed_by :
    {S T : Type 0}
    → ClientResult (S × List ParsedEvent)
    → (S → ClientResult (T × List ParsedEvent))
    → ClientResult (T × List ParsedEvent)
followed_by (err e) f = err e
followed_by (ok (p, events)) f = behind events (f p)

unfoldable pub parse_lines :
    PendingEvent → List Str → ClientResult (PendingEvent × List ParsedEvent)
unfolding parse_line without_return
parse_lines p [] = ok (p, [])
parse_lines p (line ∷ lines) =
    followed_by (parse_line p (without_return line)) (λ p'. parse_lines p' lines)

unfoldable pub with_buffer :
    Str
    → ClientResult (PendingEvent × List ParsedEvent)
    → ClientResult (SseParser × List ParsedEvent)
with_buffer rest (err e) = err e
with_buffer rest (ok (p, events)) = ok (record { buffer = rest; pending = p }, events)

unfoldable pub parse_buffer :
    PendingEvent → List Str × Str → ClientResult (SseParser × List ParsedEvent)
unfolding parse_lines with_buffer
parse_buffer p (lines, rest) = with_buffer rest (parse_lines p lines)

-- SseParser::push
unfoldable pub push : SseParser → Str → ClientResult (SseParser × List ParsedEvent)
unfolding parse_buffer take_lines
push parser bytes = parse_buffer parser.pending (take_lines (parser.buffer ++ bytes))
