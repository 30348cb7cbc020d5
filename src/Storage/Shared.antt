-- ===== src/Storage/Shared.antt =====
-- storage/shared.rs: validation before an append, producer sequencing, metadata and accounting.
-- A `&mut` argument is returned in the result. `now` is the instant that `Utc::now()` returns.
pub mod Sequencing
use durable_streams_rust.Prelude.{
  ℕ, ◌+◌, ◌-◌, ◌*◌, Bool, not, ◌&&◌, ◌||◌, ◌++◌, Option, none, some, List, [], ◌∷◌, Str, text,
  length, ltb, leb, ◌==◌, if◌then◌else◌, str_cmp, Ordering, u64_mod, add64,
}
use durable_streams_rust.Prelude.Dict.{Dict, lookup}
use durable_streams_rust.Protocol.Error.{
  Result, ok, err, epoch_fenced, sequence_gap, invalid_producer_state, stream_closed,
  seq_ordering_violation, invalid_header, memory_limit_exceeded, ◌>>=◌, ◌>>◌,
}
use durable_streams_rust.Protocol.Offset
use durable_streams_rust.Protocol.Offset.{Offset, is_start, offset_lt}
use durable_streams_rust.Protocol.Producer.{ProducerHeaders}
use durable_streams_rust.Storage.Platform.{Platform}
use durable_streams_rust.Storage.Types.{
  StreamConfig, StreamState, StreamMetadata, ForkInfo, ReadResult,
}
use durable_streams_rust.Storage.Access.{check_stream_access, validate_content_type, renew_ttl}

abbrev pub producer_state_ttl_secs : ℕ
producer_state_ttl_secs = 7 * 24 * 60 * 60

pub record ProducerState : Type 0 where
  pub epoch : ℕ
  pub last_seq : ℕ
  pub updated_at : ℕ

pub data ProducerCheck : Type 0 where
  accept : ProducerCheck
  -- epoch, seq
  duplicate : ℕ → ℕ → ProducerCheck

-- `&&` with a pattern: compared only if there is a last value. The value to commit is returned.
unfoldable pub validate_seq : Option Str → Option Str → Result (Option Str)
validate_seq last none = ok none
validate_seq none (some new) = ok (some new)
validate_seq (some last) (some new) = elim (str_cmp new last) [
  | Ordering.gt ↦ ok (some new)
  | _ ↦ err (seq_ordering_violation last new)
]

-- `producers.retain(…)` against a cutoff.
pub retain_after : ℕ → Dict ProducerState → Dict ProducerState
retain_after cutoff [] = []
retain_after cutoff ((id, s) ∷ m) =
    let rest = retain_after cutoff m in if ltb cutoff s.updated_at then (id, s) ∷ rest else rest

unfoldable pub check_producer : Option ProducerState → ProducerHeaders → Bool → Result ProducerCheck
check_producer (some s) p stream_closed_flag =
    if ltb p.epoch s.epoch
    then err (epoch_fenced s.epoch p.epoch)
    else if p.epoch == s.epoch && leb p.seq s.last_seq
    then ok (duplicate s.epoch s.last_seq)
    else if stream_closed_flag
    then err stream_closed
    else if ltb s.epoch p.epoch
    then (if not (p.seq == 0)
        then err (invalid_producer_state (text "new epoch must start at seq 0"))
        else ok accept)
    else if ltb (add64 s.last_seq 1) p.seq
    then err (sequence_gap (add64 s.last_seq 1) p.seq)
    else ok accept
check_producer none p stream_closed_flag =
    if stream_closed_flag
    then err stream_closed
    else if not (p.seq == 0)
    then err (sequence_gap 0 p.seq)
    else ok accept

unfoldable pub build_stream_metadata :
    StreamConfig → ℕ → ℕ → Bool → ℕ → ℕ → ℕ → Option ℕ → StreamMetadata
build_stream_metadata config next_read_seq next_byte_offset closed total_bytes message_count
      created_at updated_at =
    record {
      config = config;
      next_offset = Offset.new next_read_seq next_byte_offset;
      closed = closed;
      total_bytes = total_bytes;
      message_count = message_count;
      created_at = created_at;
      updated_at = updated_at;
    }

unfoldable pub precheck_append :
    StreamConfig → StreamState → Bool → Str → Str → ℕ → Result (Unit {0})
precheck_append config state closed name content_type now = do
  check_stream_access config state name now
  if closed then err stream_closed else validate_content_type config.content_type content_type

unfoldable pub precheck_batch_append :
    StreamConfig
    → StreamState
    → Bool
    → Option Str
    → Str
    → Option Str
    → Option Str
    → ℕ
    → Result (Option Str)
precheck_batch_append config state closed last_seq name (some content_type) new_seq now = do
  precheck_append config state closed name content_type now
  validate_seq last_seq new_seq
precheck_batch_append config state closed last_seq name none new_seq now = do
  check_stream_access config state name now
  validate_seq last_seq new_seq

pub data ProducerAppendPrecheck : Type 0 where
  accept_with : Option Str → ProducerAppendPrecheck
  -- epoch, seq
  duplicate_of : ℕ → ℕ → ProducerAppendPrecheck

unfoldable pub after_check : Option Str → Option Str → ProducerCheck → Result ProducerAppendPrecheck
after_check last_seq new_seq accept = do
  pending_seq ← validate_seq last_seq new_seq
  ok (accept_with pending_seq)
after_check last_seq new_seq (duplicate epoch seq) = ok (duplicate_of epoch seq)

pub check_messages_type : List Str → Str → Str → Result (Unit {0})
check_messages_type [] stream_ct request_ct = ok tt
check_messages_type (m ∷ ms) stream_ct request_ct = validate_content_type stream_ct request_ct

module _ {V : Type 0} (platform : Platform V) where
  unfoldable pub cleanup_stale_producers : Dict ProducerState → ℕ → Dict ProducerState
  unfolding retain_after
  cleanup_stale_producers producers now =
      retain_after (platform.minus_seconds now producer_state_ttl_secs) producers

  -- The checks that follow the access check, on the pruned producers.
  unfoldable pub producer_sequence :
      StreamConfig
      → Bool
      → Option Str
      → Dict ProducerState
      → Str
      → ProducerHeaders
      → List Str
      → Option Str
      → Result ProducerAppendPrecheck
  unfolding check_messages_type after_check
  producer_sequence config closed last_seq pruned content_type producer messages new_seq = do
    check_messages_type messages config.content_type content_type
    checked ← check_producer (lookup producer.id pruned) producer closed
    after_check last_seq new_seq checked

  -- `producers` is pruned once access is granted, whatever the later checks say.
  unfoldable pub precheck_accessed :
      StreamConfig
      → Bool
      → Option Str
      → Dict ProducerState
      → Str
      → ProducerHeaders
      → List Str
      → Option Str
      → ℕ
      → Result (Unit {0})
      → Result ProducerAppendPrecheck × Dict ProducerState
  unfolding producer_sequence
  precheck_accessed config closed last_seq producers content_type producer messages new_seq now
        (err e) =
      (err e, producers)
  precheck_accessed config closed last_seq producers content_type producer messages new_seq now
        (ok u) =
      let pruned = cleanup_stale_producers producers now in
      (
        producer_sequence config closed last_seq pruned content_type producer messages new_seq,
        pruned,
      )

  -- The two instants are those of the access check and of the cleanup.
  unfoldable pub precheck_producer_append :
      StreamConfig
      → StreamState
      → Bool
      → Option Str
      → Dict ProducerState
      → Str
      → Str
      → ProducerHeaders
      → List Str
      → Option Str
      → ℕ
      → ℕ
      → Result ProducerAppendPrecheck × Dict ProducerState
  unfolding precheck_accessed
  precheck_producer_append config state closed last_seq producers name content_type producer
        messages new_seq now₀ now₁ =
      precheck_accessed config closed last_seq producers content_type producer messages new_seq now₁
        (check_stream_access config state name now₀)

  commit_seq : Option Str → Option Str → Option Str
  commit_seq last_seq none = last_seq
  commit_seq last_seq (some new) = some new

  -- The three fields that it updates, and whether the deadline changed. `now₁` is the instant that
  -- `renew_ttl` reads.
  unfoldable pub apply_append_metadata :
      StreamConfig
      → Option Str
      → Option Str
      → ℕ
      → ℕ
      → Result (StreamConfig × Option Str × Option ℕ × Bool)
  unfolding commit_seq
  apply_append_metadata config last_seq pending_seq now now₁ = do
    renewed ← renew_ttl platform config now₁
    ok (renewed.0, commit_seq last_seq pending_seq, some now, renewed.1)

pub data PendingRead : Type 0 where
  complete : ReadResult → PendingRead
  fork_read : ForkInfo → ReadResult → PendingRead

prepend : ReadResult → Option (Result (List Str)) → Option (Result ReadResult)
prepend local none = none
prepend local (some (err e)) = some (err e)
prepend local (some (ok messages)) =
    some (ok (record local { messages = messages ++ local.messages }))

-- PendingRead::finish; `read_source` reads the ancestors, and is `none` where it does not return.
unfoldable pub finish :
    PendingRead
    → Offset
    → (Str → Offset → Offset → Option (Result (List Str)))
    → Option (Result ReadResult)
unfolding prepend
finish (complete result) from read_source = some (ok result)
finish (fork_read info local) from read_source =
    if is_start from || offset_lt from info.fork_offset
    then prepend local (read_source info.source_name from info.fork_offset)
    else some (ok local)

unfoldable pub validate_batch_shape : List Str → Bool → Result (Unit {0})
validate_batch_shape (m ∷ ms) close = ok tt
validate_batch_shape [] close =
    if not close
    then err (invalid_header (text "Content-Length") (text "batch cannot be empty"))
    else ok tt

-- The new total. `checked_add` fails from 2^64 on.
unfoldable pub reserve_bytes : ℕ → ℕ → ℕ → Result ℕ
reserve_bytes total limit bytes =
    if ltb (total + bytes) u64_mod && leb (total + bytes) limit
    then ok (total + bytes)
    else err memory_limit_exceeded

-- `saturating_sub` is the subtraction of the natural numbers.
unfoldable pub release_bytes : ℕ → ℕ → ℕ
release_bytes total bytes = total - bytes

unfoldable pub payload_bytes : List Str → ℕ
payload_bytes [] = 0
payload_bytes (m ∷ ms) = add64 (length m) (payload_bytes ms)
