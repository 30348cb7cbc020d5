-- ===== src/Client/Sse/Frames.antt =====
-- What the client's parser reads of the frames that the server writes.
use mathlib.Core.List.{append_assoc, append-nil}
use durable_streams_rust.Prelude.{
  List, [], ◌∷◌, ◌++◌, map, ◌≡◌, refl, sym, ap, ◌∙◌, Str, text, trim, strip_prefix, arith, ◌==◌,
  Bool-cases, inl, inr, true, some, ==_iff, subst, All,
}
use durable_streams_rust.Prelude.Utf8.{
  is_utf8, is_utf8-append, is_utf8_cons, valid_after, after_first,
}
use durable_streams_rust.Protocol.Sse.{
  split_lines, data_field, data_lines, format_raw_data_frame, newline, SseCodec, ControlPayload,
  format_control_frame,
}
use durable_streams_rust.Client.Sse.{
  SseParser, PendingEvent, ParsedEvent, ClientResult, ok, onto_line, take_lines, parse_line,
  parse_lines, parse_buffer, behind, followed_by, without_return, push, no_event, without_space,
  push_data, end_event, field_line, data_line, default_parser,
}
use durable_streams_rust.Client.Sse.Lines.{IsLine, IsText, split_lines-IsText, split_lines_cons}
use durable_streams_rust.Client.Sse.Chunks.{
  take_newline, take_byte, behind_nil, with_buffer-followed_by,
}

-- The lines of a message with a newline between them.
unfoldable pub behind_lines : List Str → Str
behind_lines [] = []
behind_lines (line ∷ lines) = newline ∷ line ++ behind_lines lines

unfoldable pub with_newlines : List Str → Str
unfolding behind_lines
with_newlines [] = []
with_newlines (line ∷ lines) = line ++ behind_lines lines

-- What arrives of a text: each line without a space in front, and a newline for each line's end.
unfoldable pub received : Str → Str
received s = with_newlines (map without_space (split_lines s))

take_lines_line :
    (line rest : Str)
    → IsLine line
    → take_lines (line ++ (newline ∷ rest)) ≡ (line ∷ (take_lines rest).0, (take_lines rest).1)
take_lines_line [] rest h = take_newline newline rest refl
take_lines_line (c ∷ line) rest h =
    take_byte c _ h.0.0
    ∙ ap (onto_line c) (take_lines_line line rest h.1)
    ∙ unfold onto_line in refl

without_return_line : (line : Str) → IsLine line → without_return line ≡ line
unfolding without_return
without_return_line [] h = refl
without_return_line (c ∷ []) h = rw h.0.1 refl
without_return_line (c ∷ d ∷ line) h = ap (λ (s : Str). c ∷ s) (without_return_line (d ∷ line) h.1)

abbrev pub at : PendingEvent → SseParser
at p = record { buffer = []; pending = p }

push_line :
    (p : PendingEvent) (line rest : Str)
    → IsLine line
    → push (at p) (line ++ (newline ∷ rest))
      ≡ followed_by (parse_line p line) (λ q. push (at q) rest)
unfolding push parse_buffer parse_lines
push_line p line rest h =
    ap (parse_buffer p) (take_lines_line line rest h)
    ∙ with_buffer-followed_by (take_lines rest).1 (parse_line p (without_return line))
        (λ q. parse_lines q (take_lines rest).0)
    ∙ ap (λ (s : Str). followed_by (parse_line p s) (λ q. push (at q) rest))
        (without_return_line line h)

parse_data_field :
    (p : PendingEvent) (line : Str)
    → is_utf8 line ≡ true
    → parse_line p (data_field line) ≡ ok (push_data p line, [])
unfolding parse_line is_utf8 valid_after after_first strip_prefix field_line data_line
parse_data_field p line h = rw h refl

data_field-IsLine : (line : Str) → IsLine line → IsLine (data_field line)
data_field-IsLine line h =
    ((refl, refl), ((refl, refl), ((refl, refl), ((refl, refl), ((refl, refl), h)))))

push_data_field :
    (p : PendingEvent) (line rest : Str)
    → IsText line
    → push (at p) (data_field line ++ (newline ∷ rest)) ≡ push (at (push_data p line)) rest
push_data_field p line rest h =
    push_line p (data_field line) rest (data_field-IsLine line h.0)
    ∙ ap
        (λ (r : ClientResult (PendingEvent × List ParsedEvent)).
          followed_by r (λ q. push (at q) rest))
        (parse_data_field p line h.1)
    ∙ behind_nil (push (at (push_data p line)) rest)

-- What the parser has read of an event of this kind, after a data line.
abbrev reading : Str → Str → PendingEvent
reading kind content = record { current_event = some kind; content = content; saw_data_line = true }

push-data_lines :
    (kind : Str) (lines : List Str) (content rest : Str)
    → All IsText lines
    → push (at (reading kind content)) (data_lines lines ++ rest)
      ≡ push (at (reading kind (content ++ behind_lines (map without_space lines)))) rest
unfolding data_lines behind_lines push_data
push-data_lines kind [] content rest h =
    ap (λ (s : Str). push (at (reading kind s)) rest) (sym (append-nil content))
push-data_lines kind (line ∷ lines) content rest h =
    ap (push (at (reading kind content)))
      (append_assoc (data_field line) (newline ∷ data_lines lines) rest)
    ∙ push_data_field (reading kind content) line (data_lines lines ++ rest) h.0
    ∙ push-data_lines kind lines ((content ++ (newline ∷ [])) ++ without_space line) rest h.1
    ∙ ap (λ (s : Str). push (at (reading kind s)) rest)
        (append_assoc (content ++ (newline ∷ [])) (without_space line) _
          ∙ append_assoc content (newline ∷ []) _)

push_end :
    (kind content rest : Str)
    → is_utf8 content ≡ true
    → push (at (reading kind content)) (newline ∷ rest)
      ≡ behind (record { kind = some kind; content = content } ∷ []) (push default_parser rest)
unfolding parse_line end_event
push_end kind content rest h = push_line (reading kind content) [] rest tt ∙ rw h refl

without_space-is_utf8 : (line : Str) → is_utf8 line ≡ true → is_utf8 (without_space line) ≡ true
unfolding without_space
without_space-is_utf8 [] h = h
without_space-is_utf8 (c ∷ line) h = elim (Bool-cases (c == 32)) [
  | inl e ↦ rw e (sym (is_utf8_cons c line (omega (arith, (==_iff c 32).0 e))) ∙ h)
  | inr e ↦ rw e h
]

behind_lines-is_utf8 :
    (lines : List Str) → All IsText lines → is_utf8 (behind_lines (map without_space lines)) ≡ true
unfolding behind_lines
behind_lines-is_utf8 [] h = unfold is_utf8 valid_after in refl
behind_lines-is_utf8 (line ∷ lines) h =
    is_utf8_cons newline _ (omega arith)
    ∙ is_utf8-append (without_space line) _ (without_space-is_utf8 line h.0.1)
        (behind_lines-is_utf8 lines h.1)

abbrev pub event : Str → Str → ParsedEvent
event kind content = record { kind = some kind; content = content }

-- The data lines of an event and the empty line behind them.
push-event_data :
    (kind line : Str) (lines : List Str) (rest : Str)
    → All IsText (line ∷ lines)
    → push
        (at (record no_event { current_event = some kind }))
        (data_lines (line ∷ lines) ++ (newline ∷ rest))
      ≡ behind
          (event kind (with_newlines (map without_space (line ∷ lines))) ∷ [])
          (push default_parser rest)
unfolding data_lines push_data with_newlines
push-event_data kind line lines rest h =
    ap (push (at (record no_event { current_event = some kind })))
      (append_assoc (data_field line) (newline ∷ data_lines lines) (newline ∷ rest))
    ∙ push_data_field (record no_event { current_event = some kind }) line
        (data_lines lines ++ (newline ∷ rest)) h.0
    ∙ push-data_lines kind lines (without_space line) (newline ∷ rest) h.1
    ∙ push_end kind _ rest (
        is_utf8-append (without_space line) _ (without_space-is_utf8 line h.0.1)
          (behind_lines-is_utf8 lines h.1))

push_event_line :
    (kind : Str) (line rest : Str)
    → IsLine line
    → parse_line no_event line ≡ ok (record no_event { current_event = some kind }, [])
    → push default_parser (line ++ (newline ∷ rest))
      ≡ push (at (record no_event { current_event = some kind })) rest
push_event_line kind line rest h e =
    push_line no_event line rest h
    ∙ ap
        (λ (r : ClientResult (PendingEvent × List ParsedEvent)).
          followed_by r (λ q. push (at q) rest))
        e
    ∙ behind_nil (push (at (record no_event { current_event = some kind })) rest)

event_data_line :
    parse_line no_event (text "event: data")
    ≡ ok (record no_event { current_event = some (text "data") }, [])
unfolding parse_line is_utf8 valid_after after_first strip_prefix field_line trim
event_data_line = refl

data_name-IsLine : IsLine (text "event: data")
data_name-IsLine = (
  (refl, refl),
  (
    (refl, refl),
    (
      (refl, refl),
      (
        (refl, refl),
        (
          (refl, refl),
          (
            (refl, refl),
            ((refl, refl), ((refl, refl), ((refl, refl), ((refl, refl), ((refl, refl), tt))))),
          ),
        ),
      ),
    ),
  ),
)

control_name-IsLine : IsLine (text "event: control")
control_name-IsLine = (
  (refl, refl),
  (
    (refl, refl),
    (
      (refl, refl),
      (
        (refl, refl),
        (
          (refl, refl),
          (
            (refl, refl),
            (
              (refl, refl),
              (
                (refl, refl),
                (
                  (refl, refl),
                  (
                    (refl, refl),
                    ((refl, refl), ((refl, refl), ((refl, refl), ((refl, refl), tt)))),
                  ),
                ),
              ),
            ),
          ),
        ),
      ),
    ),
  ),
)

event_control_line :
    parse_line no_event (text "event: control")
    ≡ ok (record no_event { current_event = some (text "control") }, [])
unfolding parse_line is_utf8 valid_after after_first strip_prefix field_line trim
event_control_line = refl

-- A data frame is read as one event, whatever the bytes of the text and whatever follows.
pub push-format_raw_data_frame :
    (s rest : Str)
    → is_utf8 s ≡ true
    → push default_parser (format_raw_data_frame s ++ rest)
      ≡ behind (event (text "data") (received s) ∷ []) (push default_parser rest)
unfolding format_raw_data_frame received
push-format_raw_data_frame s rest h =
    let (line, lines, e) = split_lines_cons s h in
    push_event_line (text "data") (text "event: data") _ data_name-IsLine event_data_line
    ∙ ap (push (at (record no_event { current_event = some (text "data") })))
        (append_assoc (data_lines (split_lines s)) (newline ∷ []) rest)
    ∙ rw e (
        push-event_data (text "data") line lines rest
          (subst (All IsText) e (split_lines-IsText s h)))

-- A control frame is read as one event, if its JSON stands on one line and begins with no space.
pub push-format_control_frame :
    (codec : SseCodec) (payload : ControlPayload) (rest : Str)
    → IsText (codec.to_string payload)
    → without_space (codec.to_string payload) ≡ codec.to_string payload
    → push default_parser (format_control_frame codec payload ++ rest)
      ≡ behind (event (text "control") (codec.to_string payload) ∷ []) (push default_parser rest)
unfolding format_control_frame data_lines
push-format_control_frame codec payload rest h e =
    push_event_line (text "control") (text "event: control") _ control_name-IsLine
      event_control_line
    ∙ ap (push (at (record no_event { current_event = some (text "control") })))
        (append_assoc (data_field (codec.to_string payload)) (newline ∷ newline ∷ []) rest)
    ∙ ap (push (at (record no_event { current_event = some (text "control") })))
        (sym (append_assoc (data_field (codec.to_string payload)) (newline ∷ []) (newline ∷ rest)))
    ∙ push-event_data (text "control") (codec.to_string payload) [] rest (h, tt)
    ∙ ap (λ (s : Str). behind (event (text "control") s ∷ []) (push default_parser rest))
        (unfold with_newlines behind_lines in
          (append-nil (without_space (codec.to_string payload)) ∙ e))
