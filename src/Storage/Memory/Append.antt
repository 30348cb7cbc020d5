-- ===== src/Storage/Memory/Append.antt =====
-- storage/memory.rs: `append_batch`, `append_with_producer`, `head` and `subscribe`.
use durable_streams_rust.Prelude.{
  ℕ, Bool, true, ◌||◌, Option, none, some, List, [], ◌∷◌, Str, if◌then◌else◌,
}
use durable_streams_rust.Prelude.Dict.{insert}
use durable_streams_rust.Protocol.Error.{Result, ok, err, not_found, ◌>>=◌, ◌>>◌}
use durable_streams_rust.Protocol.Producer.{ProducerHeaders}
use durable_streams_rust.Storage.Platform.{Platform}
use durable_streams_rust.Storage.Types.{
  StreamConfig, AppendResult, ProducerAppendResult, accepted, duplicate, StreamMetadata,
}
use durable_streams_rust.Storage.Access.{check_stream_access, is_stream_visible}
use durable_streams_rust.Storage.Shared.{
  ProducerAppendPrecheck, accept_with, duplicate_of, validate_batch_shape, precheck_batch_append,
  precheck_producer_append, apply_append_metadata,
}
use durable_streams_rust.Storage.Memory.Entry.{
  StreamEntry, InMemoryStorage, get_stream, metadata, tail_offset, send, commit_messages,
}

-- The content type that counts: none where there is no message.
abbrev type_of_batch : List Str → Str → Option Str
type_of_batch [] content_type = none
type_of_batch (m ∷ ms) content_type = some content_type

abbrev pub NextMetadata : Type 0
NextMetadata = StreamConfig × Option Str × Option ℕ × Bool

-- The writes of `append_batch` after a successful commit.
unfoldable pub finish_append :
    Str
    → StreamEntry
    → NextMetadata
    → Bool
    → Result StreamEntry × InMemoryStorage
    → Result AppendResult × InMemoryStorage
finish_append name before next close (err e, st) = (err e, st)
finish_append name before next close (ok s, st) =
    let s' = send (record s {
      config = next.0;
      last_seq = next.1;
      updated_at = next.2;
      closed = s.closed || close;
    }) in
    (
      ok (record {
        start_offset = tail_offset before;
        next_offset = tail_offset s';
        closed = s'.closed;
      }),
      record st { streams = insert name s' st.streams },
    )

unfoldable pub commit_prepared :
    InMemoryStorage
    → Str
    → StreamEntry
    → List Str
    → Bool
    → Result NextMetadata
    → Result AppendResult × InMemoryStorage
unfolding finish_append
commit_prepared st name s messages close (err e) = (err e, st)
commit_prepared st name s messages close (ok next) =
    finish_append name s next close (commit_messages st s messages)

module _ {V : Type 0} (platform : Platform V) where
  -- The checks, and the metadata that a commit will store.
  unfoldable pub prepare_append :
      StreamEntry → Str → List Str → Str → Option Str → (ℕ → ℕ) → Result NextMetadata
  prepare_append s name messages content_type seq clock = do
    pending_seq ←
        precheck_batch_append s.config s.state s.closed s.last_seq name
          (type_of_batch messages content_type) seq (clock 0)
    apply_append_metadata platform s.config s.last_seq pending_seq (clock 1) (clock 2)

  unfoldable pub append_found :
      InMemoryStorage
      → Str
      → Option StreamEntry
      → List Str
      → Str
      → Option Str
      → Bool
      → (ℕ → ℕ)
      → Result AppendResult × InMemoryStorage
  unfolding commit_prepared
  append_found st name none messages content_type seq close clock = (err (not_found name), st)
  append_found st name (some s) messages content_type seq close clock =
      commit_prepared st name s messages close
        (prepare_append s name messages content_type seq clock)

  unfoldable pub append_shaped :
      InMemoryStorage
      → Str
      → List Str
      → Str
      → Option Str
      → Bool
      → (ℕ → ℕ)
      → Result (Unit {0})
      → Result AppendResult × InMemoryStorage
  unfolding append_found
  append_shaped st name messages content_type seq close clock (err e) = (err e, st)
  append_shaped st name messages content_type seq close clock (ok u) =
      append_found st name (get_stream st name) messages content_type seq close clock

  unfoldable pub append_batch :
      InMemoryStorage
      → Str
      → List Str
      → Str
      → Option Str
      → Bool
      → (ℕ → ℕ)
      → Result AppendResult × InMemoryStorage
  unfolding append_shaped
  append_batch st name messages content_type seq close clock =
      append_shaped st name messages content_type seq close clock
        (validate_batch_shape messages close)

  -- The writes of `append_with_producer` after a successful commit. On failure the pruned entry
  -- stays, since its producers were pruned in place.
  unfoldable pub finish_producer :
      Str
      → StreamEntry
      → NextMetadata
      → ProducerHeaders
      → Bool
      → ℕ
      → Result StreamEntry × InMemoryStorage
      → Result ProducerAppendResult × InMemoryStorage
  finish_producer name pruned next producer should_close now (err e, st) =
      (err e, record st { streams = insert name pruned st.streams })
  finish_producer name pruned next producer should_close now (ok s, st) =
      let s' = record s {
        closed = if should_close then true else s.closed;
        config = next.0;
        last_seq = next.1;
        updated_at = next.2;
        producers =
            insert producer.id
              (record { epoch = producer.epoch; last_seq = producer.seq; updated_at = now })
              s.producers;
      } in
      (
        ok (accepted producer.epoch producer.seq (tail_offset s') s'.closed),
        record st { streams = insert name s' st.streams },
      )

  unfoldable pub producer_prepared :
      InMemoryStorage
      → Str
      → StreamEntry
      → List Str
      → ProducerHeaders
      → Bool
      → ℕ
      → Result NextMetadata
      → Result ProducerAppendResult × InMemoryStorage
  unfolding finish_producer
  producer_prepared st name pruned messages producer should_close now (err e) =
      (err e, record st { streams = insert name pruned st.streams })
  producer_prepared st name pruned messages producer should_close now (ok next) =
      finish_producer name pruned next producer should_close now
        (commit_messages st pruned messages)

  -- The match on the outcome of the checks.
  unfoldable pub producer_checked :
      InMemoryStorage
      → Str
      → StreamEntry
      → List Str
      → ProducerHeaders
      → Bool
      → (ℕ → ℕ)
      → Result ProducerAppendPrecheck
      → Result ProducerAppendResult × InMemoryStorage
  unfolding producer_prepared
  producer_checked st name pruned messages producer should_close clock (err e) =
      (err e, record st { streams = insert name pruned st.streams })
  producer_checked st name pruned messages producer should_close clock
        (ok (duplicate_of epoch seq)) =
      (
        ok (duplicate epoch seq (tail_offset pruned) pruned.closed),
        record st { streams = insert name pruned st.streams },
      )
  producer_checked st name pruned messages producer should_close clock
        (ok (accept_with pending_seq)) =
      producer_prepared st name pruned messages producer should_close (clock 2) (
        apply_append_metadata platform pruned.config pruned.last_seq pending_seq (clock 2)
          (clock 3))

  unfoldable pub producer_found :
      InMemoryStorage
      → Str
      → Option StreamEntry
      → List Str
      → Str
      → ProducerHeaders
      → Bool
      → Option Str
      → (ℕ → ℕ)
      → Result ProducerAppendResult × InMemoryStorage
  unfolding producer_checked
  producer_found st name none messages content_type producer should_close seq clock =
      (err (not_found name), st)
  producer_found st name (some s) messages content_type producer should_close seq clock =
      let (checked, producers) =
        precheck_producer_append platform s.config s.state s.closed s.last_seq s.producers name
          content_type producer messages seq (clock 0) (clock 1) in
      producer_checked st name (record s { producers = producers }) messages producer should_close
        clock checked

  unfoldable pub append_with_producer :
      InMemoryStorage
      → Str
      → List Str
      → Str
      → ProducerHeaders
      → Bool
      → Option Str
      → (ℕ → ℕ)
      → Result ProducerAppendResult × InMemoryStorage
  unfolding producer_found
  append_with_producer st name messages content_type producer should_close seq clock =
      producer_found st name (get_stream st name) messages content_type producer should_close seq
        clock

unfoldable pub head_found : Str → ℕ → Option StreamEntry → Result StreamMetadata
head_found name now none = err (not_found name)
head_found name now (some s) = do check_stream_access s.config s.state name now; ok (metadata s)

unfoldable pub head : InMemoryStorage → Str → ℕ → Result StreamMetadata
unfolding head_found
head st name now = head_found name now (get_stream st name)

visible_channel : ℕ → Option StreamEntry → Option ℕ
visible_channel now none = none
visible_channel now (some s) =
    if is_stream_visible s.config s.state now then some s.notify else none

-- The receiver sees what is sent after the position that it is given.
unfoldable pub subscribe : InMemoryStorage → Str → ℕ → Option ℕ
unfolding visible_channel
subscribe st name now = visible_channel now (get_stream st name)
