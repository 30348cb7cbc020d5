-- ===== src/Client/Journal.antt =====
-- crates/durable-streams-client/src/journal.rs: the journal's records, its file, and its replay.
pub mod Scan
pub mod File
pub mod Batches
pub mod Leftovers
pub mod Lines
pub mod Recovery
pub mod Crash
use durable_streams_rust.Prelude.{
  ℕ, suc, ◌+◌, Bool, true, false, not, ◌&&◌, ◌||◌, Option, none, some, List, [], ◌∷◌, ◌++◌, Str,
  text, str_eq, length, ltb, leb, if◌then◌else◌, ◌==◌, trim, u32_mod, ◌⊎◌, inl, inr,
}
use mathlib.Core.List.{reverse}
use durable_streams_rust.Prelude.Split.{split}

pub data JournalDirection : Type 0 where
  inbound outbound : JournalDirection

pub record JournalStreamIdentity : Type 0 where
  pub path : Str
  pub content_type : Str

pub record ProducerJournalProgress : Type 0 where
  pub producer_id : Str
  pub epoch : ℕ
  pub next_seq : ℕ
  pub acked_server_offset : Option Str
  pub acked_local_seq : Option ℕ

-- A payload is the text of its JSON value.
pub record JournalRecord : Type 0 where
  pub version : ℕ
  pub stream : JournalStreamIdentity
  pub direction : JournalDirection
  pub local_seq : ℕ
  pub batch_seq : ℕ
  pub batch_index : ℕ
  pub batch_len : ℕ
  pub payload : Str
  pub next_offset : Option Str
  pub observed_at : ℕ
  pub persisted_at : ℕ
  pub producer : Option ProducerJournalProgress

abbrev pub journal_record_version : ℕ
journal_record_version = 1

pub data JournalError : Type 0 where
  invalid_argument parse_error : Str → JournalError
  encoding_failed : JournalError

has_prefix : Str → Str → Bool
has_prefix [] s = true
has_prefix (c ∷ prefix) [] = false
has_prefix (c ∷ prefix) (d ∷ s) = let rest = has_prefix prefix s in c == d && rest

unfoldable pub is_blank : Str → Bool
is_blank [] = true
is_blank (c ∷ s) = false

-- JournalStreamIdentity::validate
unfoldable pub validate : JournalStreamIdentity → JournalError ⊎ Unit {0}
unfolding has_prefix is_blank
validate stream =
    if is_blank (trim stream.path)
    then inl (invalid_argument (text "journal stream path must not be empty"))
    else if not (has_prefix (text "application/json") stream.content_type)
    then inl (
        invalid_argument (
          text "journal only supports application/json content types, got '"
          ++ stream.content_type
          ++ text "'"))
    else inr tt

pub record ReplayState : Type 0 where
  pub records : List JournalRecord
  pub resume_offset : Option Str
  pub next_local_seq : ℕ
  pub next_batch_seq : ℕ

abbrev pub default_state : ReplayState
default_state = record {
  records = [];
  resume_offset = none;
  next_local_seq = 0;
  next_batch_seq = 0;
}
