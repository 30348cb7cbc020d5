-- ===== src/Examples/Producers.antt =====
-- The theorems on producers at concrete calls.
use durable_streams_rust.Prelude.{
  ◌≡◌, ◌↔◌, refl, true, false, none, some, [], ◌∷◌, text, arith, str_eq, eq_ignore_ascii_case,
}
use durable_streams_rust.Prelude.Dict.{lookup, insert}
use durable_streams_rust.Protocol.Error.{ok}
use durable_streams_rust.Protocol.Offset
use durable_streams_rust.Storage.Types.{new_message, accepted, duplicate}
use durable_streams_rust.Storage.Access.{
  check_stream_access, is_stream_expired, validate_content_type, renew_ttl,
}
use durable_streams_rust.Storage.Shared
use durable_streams_rust.Storage.Shared.{
  ProducerState, accept, check_producer, payload_bytes, reserve_bytes, validate_seq,
  precheck_producer_append, precheck_accessed, producer_sequence, after_check, check_messages_type,
  cleanup_stale_producers, apply_append_metadata,
}
use durable_streams_rust.Storage.Shared.Sequencing.{
  Follows, Covered, check_producer-accept_iff, check_producer-duplicate_iff,
}
use durable_streams_rust.Storage.Memory.Entry.{
  StreamEntry, InMemoryStorage, get_stream, commit_messages, commit_reserved, push_messages,
  push_message,
}
use durable_streams_rust.Storage.Memory.Append.{
  append_with_producer, producer_found, producer_checked, producer_prepared, finish_producer,
}
use durable_streams_rust.Storage.Memory.Retry.{repeated-duplicate}
use durable_streams_rust.Examples.Setting.{
  plain, ticking, orders, plain_text, two_messages, orders_entry, shop, writer,
}

abbrev written : StreamEntry
written = record orders_entry {
  messages =
      new_message (Offset.new 0 0) (text "a") ∷ new_message (Offset.new 1 1) (text "bc") ∷ [];
  next_read_seq = 2;
  next_byte_offset = 3;
  total_bytes = 3;
  updated_at = some 1002;
  notify = 1;
  producers = (text "w", record { epoch = 1; last_seq = 0; updated_at = 1002 }) ∷ [];
}

abbrev shop_written : InMemoryStorage
shop_written = record shop { streams = (orders, written) ∷ []; total_bytes = 3 }

write_run :
    append_with_producer plain shop orders two_messages plain_text writer false none ticking
    ≡ (ok (accepted 1 0 (Offset.new 2 3) false), shop_written)
unfolding append_with_producer producer_found producer_checked producer_prepared finish_producer
    precheck_producer_append precheck_accessed producer_sequence cleanup_stale_producers
    check_stream_access is_stream_expired validate_content_type eq_ignore_ascii_case check_producer
    validate_seq apply_append_metadata renew_ttl commit_messages commit_reserved reserve_bytes
    payload_bytes push_messages push_message get_stream lookup insert str_eq
write_run = refl

written_found : get_stream shop_written orders ≡ some written
unfolding get_stream lookup str_eq
written_found = refl

written_access : check_stream_access written.config written.state orders (ticking 0) ≡ ok tt
unfolding check_stream_access is_stream_expired
written_access = refl

repeated-duplicate_example :
    append_with_producer plain shop_written orders two_messages plain_text writer false none ticking
    ≡ (
      ok (duplicate 1 0 (Offset.new 2 3) false),
      record shop_written {
        streams =
            insert orders
              (record written {
                producers = cleanup_stale_producers plain written.producers (ticking 1);
              })
              shop_written.streams;
      },
    )
repeated-duplicate_example =
    repeated-duplicate plain shop orders two_messages plain_text writer false none ticking ticking 1
      0 (Offset.new 2 3) false shop_written written write_run written_found written_access
      (omega arith)

abbrev fifth : ProducerState
fifth = record { epoch = 1; last_seq = 5; updated_at = 0 }

check_producer-accept_iff_example :
    (check_producer (some fifth) (record writer { seq = 6 }) false ≡ ok accept)
    ↔ ((false ≡ false) × Follows (some fifth) (record writer { seq = 6 }))
check_producer-accept_iff_example =
    check_producer-accept_iff (some fifth) (record writer { seq = 6 }) false (omega arith)

check_producer-duplicate_iff_example :
    (check_producer (some fifth) (record writer { seq = 4 }) true ≡ ok (Shared.duplicate 1 5))
    ↔ Covered (some fifth) (record writer { seq = 4 }) 1 5
check_producer-duplicate_iff_example =
    check_producer-duplicate_iff (some fifth) (record writer { seq = 4 }) true 1 5
