-- ===== src/Client/Journal/Scan.antt =====
-- journal.rs: `commit_valid_prefix`, which finds the whole batches among the records.
use durable_streams_rust.Prelude.{
  ℕ, suc, ◌+◌, Bool, true, false, not, ◌&&◌, ◌||◌, Option, none, some, List, [], ◌∷◌, ◌++◌, Str,
  str_eq, length, if◌then◌else◌, ◌==◌,
}
use durable_streams_rust.Client.Journal.{JournalRecord, ReplayState, default_state}

-- `if let Some(offset) = next_offset { … }`
unfoldable pub newer : Option Str → Option Str → Option Str
newer none before = before
newer (some offset) before = some offset

unfoldable pub commit_batch : ReplayState → List JournalRecord → ℕ → Option Str → ReplayState
commit_batch state pending batch_seq next_offset = record {
  resume_offset = newer next_offset state.resume_offset;
  next_batch_seq = suc batch_seq;
  next_local_seq = state.next_local_seq + length pending;
  records = state.records ++ pending;
}

-- The variables of the loop in `commit_valid_prefix`.
pub record Scan : Type 0 where
  pub state : ReplayState
  pub pending : List JournalRecord
  pub batch_seq : ℕ
  pub batch_len : ℕ
  pub next_offset : Option Str

abbrev pub first_scan : Scan
first_scan = record {
  state = default_state;
  pending = [];
  batch_seq = 0;
  batch_len = 0;
  next_offset = none;
}

-- The loop goes on, or breaks.
pub data Next : Type 0 where
  go_on stop : Scan → Next

abbrev pub no_records : List JournalRecord → Bool
no_records [] = true
no_records (r ∷ rs) = false

unfoldable pub offset_eq : Option Str → Option Str → Bool
offset_eq none none = true
offset_eq none (some b) = false
offset_eq (some a) none = false
offset_eq (some a) (some b) = str_eq a b

-- `pending.push(record)`
unfoldable pub push_record : Scan → JournalRecord → Next
push_record s r = go_on (record s { pending = s.pending ++ (r ∷ []) })

-- The first record of a batch.
unfoldable pub start_batch : Scan → JournalRecord → Next
unfolding push_record
start_batch s r =
    if not (r.batch_index == 0)
    then stop s
    else push_record
        (record s { batch_seq = r.batch_seq; batch_len = r.batch_len; next_offset = r.next_offset })
        r

unfoldable pub commit_pending : Scan → Scan
commit_pending s = record s {
  state = commit_batch s.state s.pending s.batch_seq s.next_offset;
  pending = [];
  next_offset = none;
}

unfoldable pub next_batch : Scan → JournalRecord → Next
unfolding start_batch commit_pending
next_batch s r =
    if not (length s.pending == s.batch_len) then stop s else start_batch (commit_pending s) r

-- The body of the loop.
unfoldable pub scan_record : Scan → JournalRecord → Next
unfolding start_batch next_batch push_record
scan_record s r =
    if not (r.local_seq == length s.state.records + length s.pending)
    then stop s
    else if no_records s.pending
    then start_batch s r
    else if not (r.batch_seq == s.batch_seq)
    then next_batch s r
    else if not (r.batch_index == length s.pending)
        || not (r.batch_len == s.batch_len)
        || not (offset_eq s.next_offset r.next_offset)
    then stop s
    else push_record s r

unfoldable pub scan : Scan → List JournalRecord → Scan
scan s [] = s
scan s (r ∷ rs) = elim (scan_record s r) [ go_on s' ↦ scan s' rs | stop s' ↦ s' ]

-- What follows the loop: a whole batch is committed.
unfoldable pub finish_scan : Scan → ReplayState
unfolding commit_pending
finish_scan s =
    if not (no_records s.pending) && length s.pending == s.batch_len
    then (commit_pending s).state
    else s.state

unfoldable pub commit_valid_prefix : List JournalRecord → ReplayState
unfolding finish_scan scan
commit_valid_prefix records = finish_scan (scan first_scan records)
