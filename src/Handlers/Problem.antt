-- ===== src/Handlers/Problem.antt =====
-- protocol/error.rs and handlers/common.rs: the response to an error, and the responses of handlers.
use durable_streams_rust.Prelude.{ℕ, Bool, Option, none, some, [], ◌∷◌, Str, text, if◌then◌else◌}
use durable_streams_rust.Prelude.Dict.{Dict, insert}
use durable_streams_rust.Prelude.Split.{decimal}
use durable_streams_rust.Protocol.Error.{
  Error, not_found, config_mismatch, invalid_offset, replacement_has_forks, content_type_mismatch,
  stream_closed, sequence_gap, epoch_fenced, invalid_producer_state, memory_limit_exceeded,
  stream_size_limit_exceeded, invalid_ttl, conflicting_expiration, stream_expired, invalid_json,
  empty_body, empty_array, invalid_header, invalid_stream_name, seq_ordering_violation, unavailable,
  insufficient_storage, stream_gone, stream_path_blocked, fork_offset_beyond_tail,
  fork_from_tombstone, storage_error,
}
use durable_streams_rust.Protocol.Offset.{Offset, as_str}

pub record ProblemDefinition : Type 0 where
  pub status : ℕ
  pub type_uri : Str
  pub title : Str
  pub code : Str
  pub detail : Option Str

-- ProblemDefinition::new
unfoldable pub define : ℕ → Str → Str → Str → ProblemDefinition
define status type_uri title code = record {
  status = status;
  type_uri = type_uri;
  title = title;
  code = code;
  detail = none;
}

unfoldable pub with_detail : Str → ProblemDefinition → ProblemDefinition
with_detail detail d = record d { detail = some detail }

unfoldable pub bad_request : ProblemDefinition
unfolding define
bad_request = define 400 (text "/errors/bad-request") (text "Bad Request") (text "BAD_REQUEST")

unfoldable pub problem_definition : Error → ProblemDefinition
unfolding define with_detail bad_request
problem_definition (not_found name) =
    define 404 (text "/errors/not-found") (text "Stream Not Found") (text "NOT_FOUND")
problem_definition stream_expired =
    define 404 (text "/errors/not-found") (text "Stream Not Found") (text "NOT_FOUND")
problem_definition config_mismatch =
    define 409 (text "/errors/already-exists") (text "Stream Already Exists")
      (text "ALREADY_EXISTS")
problem_definition replacement_has_forks =
    define 409 (text "/errors/replacement-has-forks") (text "Replacement Has Forks")
      (text "REPLACEMENT_HAS_FORKS")
problem_definition (content_type_mismatch expected actual) =
    define 409 (text "/errors/content-type-mismatch") (text "Content Type Mismatch")
      (text "CONTENT_TYPE_MISMATCH")
problem_definition stream_closed =
    define 409 (text "/errors/stream-closed") (text "Stream Closed") (text "STREAM_CLOSED")
problem_definition (sequence_gap expected actual) =
    define 409 (text "/errors/sequence-conflict") (text "Sequence Conflict")
      (text "SEQUENCE_CONFLICT")
problem_definition (seq_ordering_violation last received) =
    define 409 (text "/errors/sequence-conflict") (text "Sequence Conflict")
      (text "SEQUENCE_CONFLICT")
problem_definition (fork_from_tombstone name) =
    define 409 (text "/errors/fork-from-tombstone") (text "Fork From Deleted Stream")
      (text "FORK_FROM_TOMBSTONE")
problem_definition (stream_path_blocked name) =
    define 409 (text "/errors/path-blocked") (text "Stream Path Blocked") (text "PATH_BLOCKED")
problem_definition (invalid_offset s) =
    define 400 (text "/errors/invalid-offset") (text "Invalid Offset") (text "INVALID_OFFSET")
problem_definition (invalid_stream_name s) =
    define 400 (text "/errors/invalid-stream-name") (text "Invalid Stream Name")
      (text "INVALID_STREAM_NAME")
problem_definition (invalid_json s) =
    define 400 (text "/errors/invalid-json") (text "Invalid JSON") (text "INVALID_JSON")
problem_definition empty_body =
    define 400 (text "/errors/empty-body") (text "Empty Body") (text "EMPTY_BODY")
problem_definition empty_array =
    define 400 (text "/errors/empty-array") (text "Empty Array") (text "EMPTY_ARRAY")
problem_definition (epoch_fenced current received) =
    define 403 (text "/errors/producer-epoch-fenced") (text "Producer Epoch Fenced")
      (text "PRODUCER_EPOCH_FENCED")
problem_definition fork_offset_beyond_tail = bad_request
problem_definition (invalid_producer_state s) = bad_request
problem_definition (invalid_ttl s) = bad_request
problem_definition conflicting_expiration = bad_request
problem_definition (invalid_header header reason) = bad_request
problem_definition memory_limit_exceeded =
    define 413 (text "/errors/payload-too-large") (text "Payload Too Large")
      (text "PAYLOAD_TOO_LARGE")
problem_definition stream_size_limit_exceeded =
    define 413 (text "/errors/payload-too-large") (text "Payload Too Large")
      (text "PAYLOAD_TOO_LARGE")
problem_definition (unavailable failure) =
    with_detail (text "The server is temporarily unable to complete the request.")
      (define 503 (text "/errors/unavailable") (text "Service Unavailable") (text "UNAVAILABLE"))
problem_definition (insufficient_storage failure) =
    with_detail (text "The server does not have enough storage capacity to complete the request.") (
      define 507 (text "/errors/insufficient-storage") (text "Insufficient Storage")
        (text "INSUFFICIENT_STORAGE"))
problem_definition (storage_error s) =
    with_detail (text "The server encountered an internal error.")
      (define 500 (text "/errors/internal") (text "Internal Server Error") (text "INTERNAL_ERROR"))
problem_definition (stream_gone name) =
    define 410 (text "/errors/gone") (text "Stream Gone") (text "GONE")

unfoldable pub status_code : Error → ℕ
status_code e = (problem_definition e).status

-- A problem with its headers, and the response of a handler. Header names are in lower case.
pub data Answer : Type 0 where
  problem : ProblemDefinition → Dict Str → Answer
  response : ℕ → Dict Str → Answer

-- The status of an answer.
unfoldable pub answer_status : Answer → ℕ
answer_status (problem d headers) = d.status
answer_status (response status headers) = status

unfoldable pub retry_after : Option ℕ → Dict Str
retry_after none = []
retry_after (some seconds) = (text "retry-after", decimal seconds) ∷ []

unfoldable pub error_headers : Error → Dict Str
unfolding retry_after
error_headers (unavailable failure) = retry_after failure.retry_after_secs
error_headers _ = []

-- From<Error> for ProblemResponse
unfoldable pub of_error : Error → Answer
of_error e = problem (problem_definition e) (error_headers e)

-- `with_header`, on a problem and on a response.
unfoldable pub with_header : Str → Str → Answer → Answer
with_header name value (problem d headers) = problem d (insert name value headers)
with_header name value (response status headers) = response status (insert name value headers)

unfoldable pub with_next_offset : Offset → Answer → Answer
with_next_offset offset answer = with_header (text "stream-next-offset") (as_str offset) answer

unfoldable pub closed_if : Bool → Answer → Answer
closed_if closed answer =
    if closed then with_header (text "stream-closed") (text "true") answer else answer
