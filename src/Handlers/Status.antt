-- ===== src/Handlers/Status.antt =====
-- The statuses of the answers to an append.
use durable_streams_rust.Prelude.{
  ℕ, ◌≤◌, ◌≡◌, refl, ◌∙◌, Bool, true, false, [], Str, arith, if◌then◌else◌, text,
}
use durable_streams_rust.Prelude.Split.{decimal}
use durable_streams_rust.Protocol.Error.{
  Error, Result, ok, err, stream_closed, epoch_fenced, sequence_gap, not_found, config_mismatch,
  invalid_offset, replacement_has_forks, content_type_mismatch, invalid_producer_state,
  memory_limit_exceeded, stream_size_limit_exceeded, invalid_ttl, conflicting_expiration,
  stream_expired, invalid_json, empty_body, empty_array, invalid_header, invalid_stream_name,
  seq_ordering_violation, unavailable, insufficient_storage, stream_gone, stream_path_blocked,
  fork_offset_beyond_tail, fork_from_tombstone, storage_error,
}
use durable_streams_rust.Protocol.Offset.{Offset}
use durable_streams_rust.Protocol.Producer.{ProducerHeaders}
use durable_streams_rust.Storage.Types.{AppendResult, accepted, duplicate, StreamMetadata}
use durable_streams_rust.Storage.Memory.Entry.{InMemoryStorage}
use durable_streams_rust.Storage.Memory.Append.{head}
use durable_streams_rust.Handlers.Problem.{
  Answer, problem, response, answer_status, of_error, with_header, with_next_offset, closed_if,
  status_code, problem_definition, bad_request, define, with_detail,
}
use durable_streams_rust.Handlers.Post.{
  stream_closed_response, closed_answer, batch_answer, producer_answer, producer_append_answer,
}

-- Headers do not change the status.
answer_status-with_header :
    (name value : Str) (a : Answer) → answer_status (with_header name value a) ≡ answer_status a
unfolding answer_status with_header
answer_status-with_header name value (problem d headers) = refl
answer_status-with_header name value (response status headers) = refl

answer_status-closed_if : (b : Bool) (a : Answer) → answer_status (closed_if b a) ≡ answer_status a
unfolding closed_if
answer_status-closed_if true a = answer_status-with_header (text "stream-closed") (text "true") a
answer_status-closed_if false a = refl

answer_status-with_next_offset :
    (offset : Offset) (a : Answer) → answer_status (with_next_offset offset a) ≡ answer_status a
unfolding with_next_offset
answer_status-with_next_offset offset a = answer_status-with_header (text "stream-next-offset") _ a

answer_status-producer_answer :
    (status epoch seq : ℕ) (closed : Bool) (a : Answer)
    → answer_status (producer_answer status epoch seq closed a) ≡ answer_status a
unfolding producer_answer
answer_status-producer_answer status epoch seq closed a =
    answer_status-closed_if closed _
    ∙ answer_status-with_header (text "producer-seq") (decimal seq) _
    ∙ answer_status-with_header (text "producer-epoch") (decimal epoch) a

-- Every error is a client's or a server's.
pub status_code_bounds : (e : Error) → 400 ≤ status_code e
unfolding status_code problem_definition define with_detail bad_request
status_code_bounds (not_found s) = omega arith
status_code_bounds config_mismatch = omega arith
status_code_bounds (invalid_offset s) = omega arith
status_code_bounds replacement_has_forks = omega arith
status_code_bounds (content_type_mismatch a b) = omega arith
status_code_bounds stream_closed = omega arith
status_code_bounds (sequence_gap a b) = omega arith
status_code_bounds (epoch_fenced a b) = omega arith
status_code_bounds (invalid_producer_state s) = omega arith
status_code_bounds memory_limit_exceeded = omega arith
status_code_bounds stream_size_limit_exceeded = omega arith
status_code_bounds (invalid_ttl s) = omega arith
status_code_bounds conflicting_expiration = omega arith
status_code_bounds stream_expired = omega arith
status_code_bounds (invalid_json s) = omega arith
status_code_bounds empty_body = omega arith
status_code_bounds empty_array = omega arith
status_code_bounds (invalid_header a b) = omega arith
status_code_bounds (invalid_stream_name s) = omega arith
status_code_bounds (seq_ordering_violation a b) = omega arith
status_code_bounds (unavailable f) = omega arith
status_code_bounds (insufficient_storage f) = omega arith
status_code_bounds (stream_gone s) = omega arith
status_code_bounds (stream_path_blocked s) = omega arith
status_code_bounds fork_offset_beyond_tail = omega arith
status_code_bounds (fork_from_tombstone s) = omega arith
status_code_bounds (storage_error s) = omega arith

closed_status :
    (st : InMemoryStorage) (name : Str) (now : ℕ)
    → answer_status (stream_closed_response st name now) ≡ 409
unfolding stream_closed_response closed_answer of_error answer_status problem_definition define
closed_status st name now = found (head st name now)
  where
    plain :
        answer_status (with_header (text "stream-closed") (text "true") (of_error stream_closed))
        ≡ 409
    plain = answer_status-with_header (text "stream-closed") (text "true") (of_error stream_closed)

    found : (r : Result StreamMetadata) → answer_status (closed_answer r) ≡ 409
    found (err e) = plain
    found (ok meta) = answer_status-with_next_offset meta.next_offset _ ∙ plain

module _ (name : Str) (p : ProducerHeaders) (close_only : Bool) (now : ℕ)
    (st : InMemoryStorage) where
  pub failed_status :
      (e : Error) → 400 ≤ answer_status (producer_append_answer name p close_only now (err e, st)).0
  unfolding producer_append_answer of_error answer_status status_code with_header problem_definition
      define
  failed_status stream_closed = omega (arith, closed_status st name now)
  failed_status (epoch_fenced current received) = omega arith
  failed_status (sequence_gap expected actual) = omega arith
  failed_status e = status_code_bounds e

  pub failed_store : (e : Error) → (producer_append_answer name p close_only now (err e, st)).1 ≡ st
  unfolding producer_append_answer
  failed_store stream_closed = refl
  failed_store (epoch_fenced current received) = refl
  failed_store (sequence_gap expected actual) = refl
  failed_store e = refl

  pub accepted_status :
      (epoch last : ℕ) (offset : Offset) (closed : Bool)
      → answer_status
          (producer_append_answer name p close_only now
            (ok (accepted epoch last offset closed), st)).0
        ≡ (if close_only then 204 else 200)
  unfolding producer_append_answer answer_status
  accepted_status epoch last offset closed =
      answer_status-producer_answer (if close_only then 204 else 200) epoch last closed _
      ∙ answer_status-with_next_offset offset (response (if close_only then 204 else 200) [])

  pub duplicate_status :
      (epoch last : ℕ) (offset : Offset) (closed : Bool)
      → answer_status
          (producer_append_answer name p close_only now
            (ok (duplicate epoch last offset closed), st)).0
        ≡ 204
  unfolding producer_append_answer answer_status
  duplicate_status epoch last offset closed =
      answer_status-producer_answer 204 epoch last closed _
      ∙ answer_status-with_next_offset offset (response 204 [])

-- An append without a producer answers 204, or a failure that leaves what the storage left.
module _ (name : Str) (now : ℕ) (st : InMemoryStorage) where
  pub batch_ok_status :
      (result : AppendResult) → answer_status (batch_answer name now (ok result, st)).0 ≡ 204
  unfolding batch_answer answer_status
  batch_ok_status result =
      answer_status-closed_if result.closed _
      ∙ answer_status-with_next_offset result.next_offset (response 204 [])

  pub batch_failed_status : (e : Error) → 400 ≤ answer_status (batch_answer name now (err e, st)).0
  unfolding batch_answer of_error answer_status status_code
  batch_failed_status stream_closed = omega (arith, closed_status st name now)
  batch_failed_status e = status_code_bounds e

  pub batch_failed_store : (e : Error) → (batch_answer name now (err e, st)).1 ≡ st
  unfolding batch_answer
  batch_failed_store stream_closed = refl
  batch_failed_store e = refl
