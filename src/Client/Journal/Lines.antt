-- ===== src/Client/Journal/Lines.antt =====
-- journal.rs: a file that holds records, a line each, and what follows the last line after a crash.
use durable_streams_rust.Prelude.{
  ◌≡◌, refl, sym, ap, ◌∙◌, subst, inr, true, false, ◌==◌, Option, some, List, [], ◌∷◌, ◌++◌, Str,
  All, str_eq_refl,
}
use mathlib.Core.List.{append_assoc, append-nil}
use durable_streams_rust.Prelude.Split.{split, onto_first}
use durable_streams_rust.Client.Journal.{
  JournalStreamIdentity, JournalRecord, journal_record_version, is_blank,
}
use durable_streams_rust.Client.Journal.Scan.{commit_valid_prefix}
use durable_streams_rust.Client.Journal.File.{
  keep_byte, complete_part, trim_ascii_whitespace, accept_record, stream_eq, parse_lines,
  replay_journal, write_records,
}

-- Bytes without a newline.
abbrev pub InOneLine : Str → Type 0
InOneLine = All (λ c. (c == 10) ≡ false)

split-line : (line s : Str) → InOneLine line → split 10 (line ++ (10 ∷ s)) ≡ line ∷ split 10 s
unfolding split onto_first
split-line [] s h = refl
split-line (c ∷ line) s (h, hs) = rw (h, split-line line s hs) refl

complete_part-torn : (torn : Str) → InOneLine torn → complete_part torn ≡ []
unfolding complete_part
complete_part-torn [] h = refl
complete_part-torn (c ∷ torn) (h, hs) = rw (complete_part-torn torn hs, h) refl

complete_part-newline : (s : Str) → complete_part (10 ∷ s) ≡ 10 ∷ complete_part s
unfolding complete_part
complete_part-newline s = newline (complete_part s)
  where
    newline : (t : Str) → keep_byte 10 t ≡ 10 ∷ t
    newline [] = refl
    newline (d ∷ t) = refl

complete_part-line :
    (line s : Str) → complete_part (line ++ (10 ∷ s)) ≡ line ++ (10 ∷ complete_part s)
unfolding complete_part
complete_part-line [] s = complete_part-newline s
complete_part-line (c ∷ []) s = ap (keep_byte c) (complete_part-newline s)
complete_part-line (c ∷ d ∷ line) s = ap (keep_byte c) (complete_part-line (d ∷ line) s)

module _ (encode : JournalRecord → Option Str) (parse : Str → Option JournalRecord)
    (stream : JournalStreamIdentity) where
  -- The encoder gives the record one line that is not blank, which parses to it again; the record is of
  -- this version and of this stream.
  pub record IsLine (r : JournalRecord) (line : Str) : Type 0 where
    pub encoded : encode r ≡ some line
    pub one : InOneLine line
    pub filled : is_blank (trim_ascii_whitespace line) ≡ false
    pub parsed : parse (trim_ascii_whitespace line) ≡ some r
    pub version : r.version ≡ journal_record_version
    pub of_stream : r.stream ≡ stream

  abbrev pub HasLine : JournalRecord → Type 0
  HasLine r = (line : Str) × IsLine r line

  -- The bytes are the lines of the records.
  pub data Lines : List JournalRecord → Str → Type 0 where
    no_lines : Lines [] []
    line_then :
        {r : JournalRecord} {rs : List JournalRecord} {line s : Str}
        → IsLine r line
        → Lines rs s
        → Lines (r ∷ rs) (line ++ (10 ∷ s))

  pub Lines-append :
      {rs qs : List JournalRecord} {s t : Str} → Lines rs s → Lines qs t → Lines (rs ++ qs) (s ++ t)
  Lines-append no_lines g = g
  Lines-append {qs} {t} (line_then {r} {rs} {line} {s} h f) g =
      subst (Lines (r ∷ rs ++ qs)) (sym (append_assoc line (10 ∷ s) t))
        (line_then h (Lines-append f g))

  -- Records that have lines are written as these.
  pub write_records-Lines :
      (file : Str) (rs : List JournalRecord)
      → All HasLine rs
      → (s : Str) × Lines rs s × (write_records encode file rs ≡ (file ++ s, true))
  unfolding write_records
  write_records-Lines file [] h = ([], no_lines, ap (λ t. (t, true)) (sym (append-nil file)))
  write_records-Lines file (r ∷ rs) ((line, is), hs) =
      let (s, lines, e) = write_records-Lines (file ++ line ++ 10 ∷ []) rs hs in
      let whole = append_assoc (file ++ line) (10 ∷ []) s ∙ append_assoc file line (10 ∷ s) in
      (
        line ++ (10 ∷ s),
        line_then is lines,
        rw (is.encoded, write_records) (e ∙ ap (λ (t : Str). (t, true)) whole),
      )

  pub complete_part-Lines :
      {rs : List JournalRecord} {s : Str} (torn : Str)
      → Lines rs s
      → InOneLine torn
      → complete_part (s ++ torn) ≡ s
  complete_part-Lines torn no_lines h = complete_part-torn torn h
  complete_part-Lines torn (line_then {line} {s} is f) h =
      ap complete_part (append_assoc line (10 ∷ s) torn)
      ∙ complete_part-line line (s ++ torn)
      ∙ ap (λ t. line ++ (10 ∷ t)) (complete_part-Lines torn f h)

  accept_record-IsLine :
      (r : JournalRecord) (rs : List JournalRecord)
      → r.version ≡ journal_record_version
      → r.stream ≡ stream
      → accept_record stream r (inr rs) ≡ inr (r ∷ rs)
  unfolding accept_record stream_eq
  accept_record-IsLine r rs v q =
      rw (v, q, str_eq_refl stream.path, str_eq_refl stream.content_type) refl

  -- The loop over the lines finds the records.
  parse_lines-Lines :
      {rs : List JournalRecord} {s : Str}
      → Lines rs s
      → parse_lines parse stream (split 10 s) ≡ inr rs
  unfolding parse_lines split trim_ascii_whitespace is_blank
  parse_lines-Lines no_lines = refl
  parse_lines-Lines (line_then {r} {rs} {line} {s} is f) =
      rw (split-line line s is.one, is.filled, is.parsed, parse_lines-Lines f)
        (accept_record-IsLine r rs is.version is.of_stream)

  pub replay_journal-Lines :
      {rs : List JournalRecord} {s : Str} (torn : Str)
      → Lines rs s
      → InOneLine torn
      → replay_journal parse (s ++ torn) stream ≡ inr (commit_valid_prefix rs)
  unfolding replay_journal
  replay_journal-Lines {rs} {s} torn f h =
      let read : parse_lines parse stream (split 10 (complete_part (s ++ torn))) ≡ inr rs =
        ap (λ (t : Str). parse_lines parse stream (split 10 t)) (complete_part-Lines torn f h)
        ∙ parse_lines-Lines f in
      rw (read, replay_journal) refl
