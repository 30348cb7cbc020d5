-- ===== src/Client/Journal/File.antt =====
-- journal.rs: the lines of the file, `open` and `append_values`.
use durable_streams_rust.Prelude.{
  ℕ, suc, ◌+◌, Bool, true, false, not, ◌&&◌, ◌||◌, Option, none, some, List, [], ◌∷◌, ◌++◌, Str,
  text, str_eq, length, leb, if◌then◌else◌, ◌==◌, u32_mod, ◌⊎◌, inl, inr,
}
use mathlib.Core.List.{reverse}
use durable_streams_rust.Prelude.Split.{split, decimal}
use durable_streams_rust.Client.Journal.{
  JournalDirection, JournalStreamIdentity, ProducerJournalProgress, JournalRecord,
  journal_record_version, JournalError, invalid_argument, parse_error, encoding_failed, is_blank,
  validate, ReplayState,
}
use durable_streams_rust.Client.Journal.Scan.{newer, commit_valid_prefix}

abbrev pub keep_byte : ℕ → Str → Str
keep_byte c (d ∷ rest) = c ∷ d ∷ rest
keep_byte c [] = if c == 10 then c ∷ [] else []

-- The bytes up to the last newline, with it. `open` cuts the file to them.
unfoldable pub complete_part : Str → Str
complete_part [] = []
complete_part (c ∷ s) = keep_byte c (complete_part s)

-- `u8::is_ascii_whitespace`
unfoldable pub is_ascii_whitespace : ℕ → Bool
is_ascii_whitespace c = c == 32 || c == 9 || c == 10 || c == 12 || c == 13

unfoldable pub trim_front : Str → Str
trim_front [] = []
trim_front (c ∷ s) = let rest = trim_front s in if is_ascii_whitespace c then rest else c ∷ s

unfoldable pub trim_ascii_whitespace : Str → Str
unfolding trim_front
trim_ascii_whitespace s = reverse (trim_front (reverse (trim_front s)))

unfoldable pub stream_eq : JournalStreamIdentity → JournalStreamIdentity → Bool
stream_eq a b = str_eq a.path b.path && str_eq a.content_type b.content_type

-- What the loop over the lines makes of one record and of the lines behind it.
unfoldable pub accept_record :
    JournalStreamIdentity
    → JournalRecord
    → JournalError ⊎ List JournalRecord
    → JournalError ⊎ List JournalRecord
unfolding stream_eq
accept_record stream r rest =
    if not (r.version == journal_record_version)
    then inl (parse_error (text "unsupported journal record version " ++ decimal r.version))
    else if not (stream_eq r.stream stream)
    then inl (
        parse_error (
          text "journal stream mismatch: expected '"
          ++ stream.path
          ++ text "' with content type '"
          ++ stream.content_type
          ++ text "', found '"
          ++ r.stream.path
          ++ text "' with '"
          ++ r.stream.content_type
          ++ text "'"))
    else elim rest [ inl e ↦ inl e | inr records ↦ inr (r ∷ records) ]

module _ (parse : Str → Option JournalRecord) where
  -- The loop over the lines, which stops at the first that does not parse.
  unfoldable pub parse_lines : JournalStreamIdentity → List Str → JournalError ⊎ List JournalRecord
  parse_lines stream [] = inr []
  parse_lines stream (line ∷ lines) =
      let rest = parse_lines stream lines in
      let trimmed = trim_ascii_whitespace line in
      if is_blank trimmed
      then rest
      else elim (parse trimmed) [ none ↦ inr [] | some r ↦ accept_record stream r rest ]

  -- replay_journal, over the bytes of the file. A missing file has none.
  unfoldable pub replay_journal : Str → JournalStreamIdentity → JournalError ⊎ ReplayState
  replay_journal bytes stream = elim (parse_lines stream (split 10 (complete_part bytes))) [
    | inl e ↦ inl e
    | inr records ↦ inr (commit_valid_prefix records)
  ]

-- An opened journal, with the bytes of its file.
pub record JsonJournal : Type 0 where
  pub stream : JournalStreamIdentity
  pub file : Str
  pub records : List JournalRecord
  pub resume_offset : Option Str
  pub next_local_seq : ℕ
  pub next_batch_seq : ℕ

unfoldable pub opened : JournalStreamIdentity → Str → ReplayState → JsonJournal
opened stream bytes state = record {
  stream = stream;
  file = complete_part bytes;
  records = state.records;
  resume_offset = state.resume_offset;
  next_local_seq = state.next_local_seq;
  next_batch_seq = state.next_batch_seq;
}

-- JsonJournal::open
unfoldable pub open_journal :
    (Str → Option JournalRecord) → Str → JournalStreamIdentity → JournalError ⊎ JsonJournal
unfolding opened
open_journal parse bytes stream = elim (validate stream) [
  | inl e ↦ inl e
  | inr u ↦ elim (replay_journal parse bytes stream) [
    | inl e ↦ inl e
    | inr state ↦ inr (opened stream bytes state)
  ]
]

-- A record that `append_values` makes of a value.
unfoldable pub batch_record :
    JsonJournal
    → JournalDirection
    → Option Str
    → Option ProducerJournalProgress
    → ℕ
    → ℕ
    → ℕ
    → Str
    → JournalRecord
batch_record j direction next_offset producer now batch_len index payload = record {
  version = journal_record_version;
  stream = j.stream;
  direction = direction;
  local_seq = j.next_local_seq + index;
  batch_seq = j.next_batch_seq;
  batch_index = index;
  batch_len = batch_len;
  payload = payload;
  next_offset = next_offset;
  observed_at = now;
  persisted_at = now;
  producer = producer;
}

-- Its records, from the index on.
unfoldable pub batch_records :
    JsonJournal
    → JournalDirection
    → Option Str
    → Option ProducerJournalProgress
    → ℕ
    → ℕ
    → ℕ
    → List Str
    → List JournalRecord
batch_records j direction next_offset producer now batch_len index [] = []
batch_records j direction next_offset producer now batch_len index (payload ∷ values) =
    batch_record j direction next_offset producer now batch_len index payload
    ∷ batch_records j direction next_offset producer now batch_len (suc index) values

unfoldable pub appended : JsonJournal → List JournalRecord → Option Str → Str → JsonJournal
appended j batch next_offset file = record j {
  file = file;
  records = j.records ++ batch;
  resume_offset = newer next_offset j.resume_offset;
  next_local_seq = j.next_local_seq + length batch;
  next_batch_seq = suc j.next_batch_seq;
}

unfoldable pub append_written :
    JsonJournal
    → List JournalRecord
    → Option Str
    → Str × Bool
    → (JournalError ⊎ List JournalRecord) × JsonJournal
append_written j batch next_offset (file, true) = (inr batch, appended j batch next_offset file)
append_written j batch next_offset (file, false) = (inl encoding_failed, record j { file = file })

module _ (encode : JournalRecord → Option Str) where
  -- The file after the records were written to it, and whether the encoder took all of them.
  unfoldable pub write_records : Str → List JournalRecord → Str × Bool
  write_records file [] = (file, true)
  write_records file (r ∷ rs) = elim (encode r) [
    | none ↦ (file, false)
    | some line ↦ write_records (file ++ line ++ 10 ∷ []) rs
  ]

  -- append_values, with a file system that takes every write. `now` is the clock's reading.
  unfoldable pub append_values :
      JsonJournal
      → JournalDirection
      → List Str
      → Option Str
      → Option ProducerJournalProgress
      → ℕ
      → (JournalError ⊎ List JournalRecord) × JsonJournal
  unfolding append_written
  append_values j direction [] next_offset producer now =
      (inr [], record j { resume_offset = newer next_offset j.resume_offset })
  append_values j direction (value ∷ values) next_offset producer now =
      let batch_len = suc (length values) in
      let batch = batch_records j direction next_offset producer now batch_len 0 (value ∷ values) in
      if leb u32_mod batch_len
      then (inl (invalid_argument (text "journal batch is too large")), j)
      else append_written j batch next_offset (write_records j.file batch)
