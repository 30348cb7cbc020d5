-- ===== src/Examples/Journals.antt =====
-- The theorems on the journal at a journal of one record.
use durable_streams_rust.Prelude.{
  str_eq, get_or, if◌then◌else◌, ◌≡◌, refl, none, some, List, [], ◌∷◌, ◌++◌, Str, text, take, arith,
  inr, Option,
}
use durable_streams_rust.Client.Journal.{
  JournalStreamIdentity, JournalRecord, ReplayState, outbound, inbound,
}
use durable_streams_rust.Client.Journal.Scan.{
  first_scan, commit_valid_prefix, scan_record, start_batch, push_record, finish_scan,
  commit_pending, commit_batch, newer,
}
use durable_streams_rust.Client.Journal.File.{
  JsonJournal, batch_record, batch_records, append_values, append_written, appended, write_records,
}
use durable_streams_rust.Client.Journal.Batches.{IsReplayed, IsWhole, state_of, read_all, read_one}
use durable_streams_rust.Client.Journal.Lines.{Lines}
use durable_streams_rust.Client.Journal.Crash.{reopened, batch_of}
use durable_streams_rust.Client.Journal.Recovery.{append_values-IsReplayed, interrupted_append}

abbrev orders_identity : JournalStreamIdentity
orders_identity = record { path = text "o"; content_type = text "application/json" }

-- The encoder writes the payload alone.
abbrev payload_of : JournalRecord → Option Str
payload_of r = some r.payload

abbrev empty_journal : JsonJournal
empty_journal = record {
  stream = orders_identity;
  file = [];
  records = [];
  resume_offset = none;
  next_local_seq = 0;
  next_batch_seq = 0;
}

abbrev first_record : JournalRecord
first_record = record {
  version = 1;
  stream = orders_identity;
  direction = inbound;
  local_seq = 0;
  batch_seq = 0;
  batch_index = 0;
  batch_len = 1;
  payload = text "1";
  next_offset = some (text "a");
  observed_at = 7;
  persisted_at = 7;
  producer = none;
}

-- A journal with one record.
abbrev orders_journal : JsonJournal
orders_journal = record {
  stream = orders_identity;
  file = text "1" ++ (10 ∷ []);
  records = first_record ∷ [];
  resume_offset = some (text "a");
  next_local_seq = 1;
  next_batch_seq = 1;
}

orders_journal-IsReplayed : IsReplayed (first_record ∷ []) orders_journal
unfolding IsReplayed IsWhole scan_record start_batch push_record finish_scan commit_pending
    commit_batch newer
orders_journal-IsReplayed = (
  record {
    state = empty_state;
    pending = first_record ∷ [];
    batch_seq = 0;
    batch_len = 1;
    next_offset = some (text "a");
  },
  read_one first_scan first_record refl (read_all _),
  refl,
  refl,
  refl,
)
  where
    empty_state : ReplayState
    empty_state = state_of empty_journal

abbrev two_values : List Str
two_values = text "2" ∷ text "3" ∷ []

abbrev two_records : List JournalRecord
two_records = batch_records orders_journal inbound (some (text "b")) none 8 2 0 two_values

appended_journal : JsonJournal
appended_journal =
    appended orders_journal two_records (some (text "b"))
      (text "1" ++ (10 ∷ text "2" ++ (10 ∷ text "3" ++ (10 ∷ []))))

appending :
    append_values payload_of orders_journal inbound two_values (some (text "b")) none 8
    ≡ (inr two_records, appended_journal)
unfolding append_values append_written write_records appended appended_journal batch_records
    batch_record
appending = refl

append_values_example :
    IsReplayed ((first_record ∷ []) ++ two_records) appended_journal
    × (commit_valid_prefix ((first_record ∷ []) ++ two_records) ≡ state_of appended_journal)
append_values_example =
    append_values-IsReplayed payload_of orders_journal appended_journal inbound (some (text "b"))
      none 8 (first_record ∷ []) two_records (text "2") (text "3" ∷ []) orders_journal-IsReplayed
      appending

interrupted_append_example :
    commit_valid_prefix ((first_record ∷ []) ++ take 1 two_records) ≡ state_of orders_journal
interrupted_append_example =
    interrupted_append orders_journal inbound (some (text "b")) none 8 1 (first_record ∷ [])
      two_values orders_journal-IsReplayed (omega arith)

abbrev later_records : List JournalRecord
later_records =
    batch_of (reopened payload_of orders_journal two_records 1) outbound none none 9 (text "4" ∷ [])

-- A parser that knows the records by their payloads.
abbrev record_of : Str → Option JournalRecord
record_of s =
    if str_eq s (text "1")
    then some first_record
    else if str_eq s (text "2")
    then some (get_or two_records 0 first_record)
    else if str_eq s (text "3")
    then some (get_or two_records 1 first_record)
    else if str_eq s (text "4")
    then some (get_or later_records 0 first_record)
    else none
