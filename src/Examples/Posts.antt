-- ===== src/Examples/Posts.antt =====
-- The theorems on appends over HTTP at concrete requests.
use durable_streams_rust.Prelude.{
  ℕ, ◌≡◌, ◌≤◌, ◌<◌, refl, sym, ap, ◌∙◌, subst, false, none, some, [], ◌∷◌, text, arith, str_eq,
  eq_ignore_ascii_case, to_lowercase, trim, u64_mod,
}
use durable_streams_rust.Prelude.Dict.{lookup, insert}
use durable_streams_rust.Protocol.Error.{ok, Result}
use durable_streams_rust.Protocol.Headers.{normalize_content_type, parse_u64}
use durable_streams_rust.Protocol.Json.{extract_messages, is_json_content_type}
use durable_streams_rust.Protocol.Offset
use durable_streams_rust.Protocol.Producer.{parse_producer_headers, parse_non_negative_int}
use durable_streams_rust.Storage.Types.{new_message, is_empty}
use durable_streams_rust.Storage.Access.{
  check_stream_access, is_stream_expired, validate_content_type, renew_ttl,
}
use durable_streams_rust.Storage.Shared.{
  check_producer, payload_bytes, reserve_bytes, validate_seq, precheck_producer_append,
  precheck_accessed, producer_sequence, cleanup_stale_producers, apply_append_metadata,
}
use durable_streams_rust.Storage.Memory.Entry.{
  StreamEntry, InMemoryStorage, get_stream, commit_messages, commit_reserved, push_messages,
  push_message,
}
use durable_streams_rust.Storage.Memory.Append.{
  append_with_producer, producer_found, producer_checked, producer_prepared, finish_producer,
}
use durable_streams_rust.Storage.Memory.Commit.{bytes_of}
use durable_streams_rust.Handlers.Problem.{
  Answer, answer_status, with_header, with_next_offset, closed_if, of_error, problem_definition,
  define,
}
use durable_streams_rust.Handlers.Post.{
  PostRequest, PostAppend, append_data, append_request, run_append, post_append,
  producer_append_answer, producer_answer, content_type_of, parse_stream_closed,
}
use durable_streams_rust.Handlers.Retried.{append_data-retry}
use durable_streams_rust.Handlers.Failed.{IsUnharmed, append_data-IsUnharmed}
use durable_streams_rust.Examples.Setting.{plain, ticking, orders, orders_entry, shop}
use durable_streams_rust.Examples.Appends.{shop-IsAccounted}

-- An append by a producer, its first, and one that skips numbers.
abbrev first_post : PostRequest
first_post = record {
  content_type = some (text "t");
  stream_closed = none;
  stream_seq = none;
  producer_id = some (text "w");
  producer_epoch = some (text "1");
  producer_seq = some (text "0");
  body = text "ab";
}

abbrev skipping_post : PostRequest
skipping_post = record first_post { producer_seq = some (text "5") }

abbrev posted_entry : StreamEntry
posted_entry = record orders_entry {
  messages = new_message (Offset.new 0 0) (text "ab") ∷ [];
  next_read_seq = 1;
  next_byte_offset = 2;
  total_bytes = 2;
  updated_at = some 1002;
  notify = 1;
  producers = (text "w", record { epoch = 1; last_seq = 0; updated_at = 1002 }) ∷ [];
}

abbrev asked : ℕ → PostAppend
asked seq = record {
  messages = text "ab" ∷ [];
  content_type = text "t";
  producer = some (record { id = text "w"; epoch = 1; seq = seq });
  should_close = false;
  is_close_only = false;
  seq = none;
}

first_asked : post_append plain first_post ≡ ok (asked 0)
unfolding post_append content_type_of normalize_content_type to_lowercase trim parse_stream_closed
    parse_producer_headers parse_non_negative_int parse_u64 extract_messages is_json_content_type
    str_eq is_empty
first_asked = refl

skipping_asked : post_append plain skipping_post ≡ ok (asked 5)
unfolding post_append content_type_of normalize_content_type to_lowercase trim parse_stream_closed
    parse_producer_headers parse_non_negative_int parse_u64 extract_messages is_json_content_type
    str_eq is_empty
skipping_asked = refl

first_status : answer_status (append_request plain shop orders ticking 0 (ok (asked 0))).0 ≡ 200
unfolding append_with_producer producer_found producer_checked producer_prepared finish_producer
    precheck_producer_append precheck_accessed producer_sequence cleanup_stale_producers
    check_stream_access is_stream_expired validate_content_type eq_ignore_ascii_case check_producer
    validate_seq apply_append_metadata renew_ttl commit_messages commit_reserved reserve_bytes
    payload_bytes push_messages push_message get_stream lookup insert str_eq append_request
    run_append producer_append_answer producer_answer answer_status with_header with_next_offset
    closed_if
first_status = refl

first_store :
    get_stream (append_request plain shop orders ticking 0 (ok (asked 0))).1 orders
    ≡ some posted_entry
unfolding append_with_producer producer_found producer_checked producer_prepared finish_producer
    precheck_producer_append precheck_accessed producer_sequence cleanup_stale_producers
    check_stream_access is_stream_expired validate_content_type eq_ignore_ascii_case check_producer
    validate_seq apply_append_metadata renew_ttl commit_messages commit_reserved reserve_bytes
    payload_bytes push_messages push_message get_stream lookup insert str_eq append_request
    run_append producer_append_answer producer_answer
first_store = refl

first_posted :
    append_data plain shop orders first_post ticking 0
    ≡ append_request plain shop orders ticking 0 (ok (asked 0))
unfolding append_data
first_posted =
    ap (λ (r : Result PostAppend). append_request plain shop orders ticking 0 r) first_asked

posted_access :
    check_stream_access posted_entry.config posted_entry.state orders (ticking 0) ≡ ok tt
unfolding check_stream_access is_stream_expired
posted_access = refl

append_data-retry_example :
    let first = append_data plain shop orders first_post ticking 0 in
    let second = append_data plain first.1 orders first_post ticking 0 in
    (answer_status second.0 ≡ 204)
    × (second.1 ≡ record first.1 {
      streams =
          insert orders
            (record posted_entry {
              producers = cleanup_stale_producers plain posted_entry.producers (ticking 1);
            })
            first.1.streams;
    })
append_data-retry_example =
    append_data-retry plain shop orders first_post ticking ticking 0 0 posted_entry
      (ap (λ (x : Answer × InMemoryStorage). answer_status x.0) first_posted ∙ first_status)
      (ap (λ (x : Answer × InMemoryStorage). get_stream x.1 orders) first_posted ∙ first_store)
      posted_access (omega arith)

skipping_posted :
    append_data plain shop orders skipping_post ticking 0
    ≡ append_request plain shop orders ticking 0 (ok (asked 5))
unfolding append_data
skipping_posted =
    ap (λ (r : Result PostAppend). append_request plain shop orders ticking 0 r) skipping_asked

skipping_status : answer_status (append_request plain shop orders ticking 0 (ok (asked 5))).0 ≡ 409
unfolding append_with_producer producer_found producer_checked precheck_producer_append
    precheck_accessed producer_sequence cleanup_stale_producers check_stream_access
    is_stream_expired validate_content_type eq_ignore_ascii_case check_producer get_stream lookup
    insert str_eq append_request run_append producer_append_answer answer_status with_header
    of_error problem_definition define
skipping_status = refl

skipping_small :
    (a : PostAppend) → post_append plain skipping_post ≡ ok a → bytes_of a.messages < u64_mod
skipping_small a h =
    subst (λ (b : PostAppend). bytes_of b.messages < u64_mod) (same (sym skipping_asked ∙ h))
      (omega arith)
  where
    same : {a b : PostAppend} → ok a ≡ ok b → a ≡ b
    same e = cc

append_data-IsUnharmed_example :
    IsUnharmed shop orders (append_data plain shop orders skipping_post ticking 0).1
append_data-IsUnharmed_example =
    append_data-IsUnharmed plain shop orders skipping_post ticking 0 shop-IsAccounted skipping_small
      (subst (λ (n : ℕ). 400 ≤ n)
        (sym (
          ap (λ (x : Answer × InMemoryStorage). answer_status x.0) skipping_posted
          ∙ skipping_status))
        (omega arith))
