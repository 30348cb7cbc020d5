-- ===== src/Client/Journal/Crash.antt =====
-- journal.rs: a crash within an append, and the journal that is opened after it.
use durable_streams_rust.Prelude.{ℕ, ◌<◌, ◌≡◌, Option, List, Str, take, length, inr}
use durable_streams_rust.Client.Journal.{
  JournalDirection, JournalRecord, ProducerJournalProgress, validate,
}
use durable_streams_rust.Client.Journal.File.{JsonJournal, batch_records, write_records}
use durable_streams_rust.Client.Journal.Batches.{IsReplayed}
use durable_streams_rust.Client.Journal.Lines.{Lines}

-- The lines that a crash has left of the append of a batch: those of its first records.
abbrev pub crashed : (JournalRecord → Option Str) → JsonJournal → List JournalRecord → ℕ → Str
crashed encode j batch m = (write_records encode j.file (take m batch)).0

-- The same journal on another file.
abbrev pub on_file : JsonJournal → Str → JsonJournal
on_file j file = record j { file = file }

abbrev pub reopened :
    (JournalRecord → Option Str) → JsonJournal → List JournalRecord → ℕ → JsonJournal
reopened encode j batch m = on_file j (crashed encode j batch m)

-- The records that an append of the values makes.
abbrev pub batch_of :
    JsonJournal
    → JournalDirection
    → Option Str
    → Option ProducerJournalProgress
    → ℕ
    → List Str
    → List JournalRecord
batch_of j direction next_offset producer now values =
    batch_records j direction next_offset producer now (length values) 0 values

module _ (encode : JournalRecord → Option Str) (parse : Str → Option JournalRecord)
    (j : JsonJournal) (rs : List JournalRecord) (replayed : IsReplayed rs j)
    (lines : Lines encode parse j.stream rs j.file) (valid : validate j.stream ≡ inr tt)
    (direction : JournalDirection) (next_offset : Option Str)
    (producer : Option ProducerJournalProgress) (now m : ℕ) (values : List Str)
    (short : m < length values) where
  abbrev batch : List JournalRecord
  batch = batch_of j direction next_offset producer now values
