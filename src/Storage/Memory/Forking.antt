-- ===== src/Storage/Memory/Forking.antt =====
-- storage/memory.rs: creation of forks.
use durable_streams_rust.Prelude.{
  ℕ, ◌+◌, ◌%◌, Bool, Option, none, some, List, Str, if◌then◌else◌, u32_mod,
}
use durable_streams_rust.Prelude.Dict.{insert}
use durable_streams_rust.Protocol.Error.{Result, ok, err, not_found, ◌>>=◌}
use durable_streams_rust.Protocol.Offset.{Offset, parse_components}
use durable_streams_rust.Storage.Platform.{Platform}
use durable_streams_rust.Storage.Types.{
  StreamConfig, StreamOptions, resolve, ForkInfo, ForkOptions, ForkCreateSpec, AppendResult,
  CreateStreamResult, created, CreateWithDataResult,
}
use durable_streams_rust.Storage.Types
use durable_streams_rust.Storage.Fork.{
  ExistingCreateDisposition, remove_expired, conflict, evaluate_root_create, evaluate_fork_create,
  prepare_fork_spec, check_replace,
}
use durable_streams_rust.Storage.Fork
use durable_streams_rust.Storage.Memory.Entry.{
  StreamEntry, InMemoryStorage, get_stream, new_entry, tail_offset, commit_messages,
}
use durable_streams_rust.Storage.Memory.Chain.{fork_initial_messages}
use durable_streams_rust.Storage.Memory.Delete.{remove_for_recreate}

-- The fork's entry is stored, and its source counts one more reference, modulo 2^32.
unfoldable pub count_reference : InMemoryStorage → Str → Option StreamEntry → InMemoryStorage
count_reference st source_name none = st
count_reference st source_name (some source) = record st {
  streams =
      insert source_name (record source { ref_count = (source.ref_count + 1) % u32_mod })
        st.streams;
}

unfoldable pub publish_fork :
    Str → Str → Result StreamEntry × InMemoryStorage → Result CreateStreamResult × InMemoryStorage
unfolding count_reference
publish_fork name source_name (err e, st) = (err e, st)
publish_fork name source_name (ok s, st) =
    let st' = record st { streams = insert name s st.streams } in
    (ok created, count_reference st' source_name (get_stream st' source_name))

components_or_zero : Option (ℕ × ℕ) → ℕ × ℕ
components_or_zero none = (0, 0)
components_or_zero (some c) = c

unfoldable pub fork_entry : ForkCreateSpec → Offset → Bool → ℕ → ℕ → StreamEntry
unfolding components_or_zero
fork_entry spec resolved closed sub_offset now = record (new_entry spec.config now) {
  closed = closed;
  next_read_seq = (components_or_zero (parse_components resolved)).0;
  next_byte_offset = (components_or_zero (parse_components resolved)).1;
  fork_info =
      some (record {
        source_name = spec.source_name;
        fork_offset = resolved;
        sub_offset = sub_offset;
      });
}

unfoldable pub fork_fresh :
    InMemoryStorage
    → Str
    → Str
    → ForkCreateSpec
    → Offset
    → Bool
    → ℕ
    → List Str
    → ℕ
    → Result CreateStreamResult × InMemoryStorage
unfolding fork_entry publish_fork
fork_fresh st name source_name spec resolved closed sub_offset messages now =
    publish_fork name source_name
      (commit_messages st (fork_entry spec resolved closed sub_offset now) messages)

unfoldable pub fork_as :
    InMemoryStorage
    → Str
    → Str
    → ForkCreateSpec
    → Offset
    → Bool
    → ℕ
    → List Str
    → (ℕ → ℕ)
    → ExistingCreateDisposition
    → Result CreateStreamResult × InMemoryStorage
unfolding fork_fresh
fork_as st name source_name spec resolved closed sub_offset messages clock remove_expired =
    fork_fresh (remove_for_recreate st name) name source_name spec resolved closed sub_offset
      messages (clock 4)
fork_as st name source_name spec resolved closed sub_offset messages clock Fork.already_exists =
    (ok Types.already_exists, st)
fork_as st name source_name spec resolved closed sub_offset messages clock (conflict e) =
    (err e, st)

unfoldable pub fork_over :
    InMemoryStorage
    → Str
    → Option StreamEntry
    → Str
    → ForkCreateSpec
    → Offset
    → Bool
    → ℕ
    → List Str
    → (ℕ → ℕ)
    → Result CreateStreamResult × InMemoryStorage
unfolding fork_as
fork_over st name none source_name spec resolved closed sub_offset messages clock =
    fork_fresh st name source_name spec resolved closed sub_offset messages (clock 4)
fork_over st name (some s) source_name spec resolved closed sub_offset messages clock =
    fork_as st name source_name spec resolved closed sub_offset messages clock
      (evaluate_fork_create name s.config s.fork_info s.state s.ref_count spec (clock 3))

module _ {V : Type 0} (platform : Platform V) where
  -- What the source stream determines: the spec, with the resolved offset and the sub-offset.
  fork_prepared :
      StreamConfig
      → Str
      → StreamEntry
      → Option Offset
      → ForkOptions
      → (ℕ → ℕ)
      → Result (ForkCreateSpec × Offset)
  fork_prepared config source_name source fork_offset options clock = do
    prepared ←
        prepare_fork_spec platform source_name source.config source.state (tail_offset source)
          fork_offset
          (if options.inherit_content_type
            then record config { content_type = source.config.content_type }
            else config)
          (clock 1) (clock 2)
    ok (record (prepared.0) { sub_offset = options.sub_offset }, prepared.1)

  unfoldable pub with_messages :
      InMemoryStorage
      → Str
      → Str
      → ForkCreateSpec
      → Offset
      → Bool
      → ForkOptions
      → (ℕ → ℕ)
      → Option (Result (List Str))
      → Option (Result CreateStreamResult × InMemoryStorage)
  unfolding fork_over
  with_messages st name source_name spec resolved closed options clock none = none
  with_messages st name source_name spec resolved closed options clock (some (err e)) =
      some (err e, st)
  with_messages st name source_name spec resolved closed options clock (some (ok messages)) = some (
      fork_over st name (get_stream st name) source_name spec resolved closed options.sub_offset
        messages clock)

  unfoldable pub fork_from :
      InMemoryStorage
      → Str
      → Str
      → Bool
      → ForkOptions
      → (ℕ → ℕ)
      → Result (ForkCreateSpec × Offset)
      → Option (Result CreateStreamResult × InMemoryStorage)
  unfolding with_messages
  fork_from st name source_name closed options clock (err e) = some (err e, st)
  fork_from st name source_name closed options clock (ok (spec, resolved)) =
      with_messages st name source_name spec resolved closed options clock
        (fork_initial_messages platform st.streams source_name resolved spec.config options)

  unfoldable pub fork_source_found :
      InMemoryStorage
      → Str
      → Str
      → StreamConfig
      → Option StreamEntry
      → Option Offset
      → ForkOptions
      → (ℕ → ℕ)
      → Option (Result CreateStreamResult × InMemoryStorage)
  unfolding fork_from fork_prepared
  fork_source_found st name source_name config none fork_offset options clock =
      some (err (not_found source_name), st)
  fork_source_found st name source_name config (some source) fork_offset options clock =
      fork_from st name source_name config.created_closed options clock
        (fork_prepared config source_name source fork_offset options clock)

  unfoldable pub fork_resolved :
      InMemoryStorage
      → Str
      → Str
      → Option Offset
      → ForkOptions
      → (ℕ → ℕ)
      → Result StreamConfig
      → Option (Result CreateStreamResult × InMemoryStorage)
  unfolding fork_source_found
  fork_resolved st name source_name fork_offset options clock (err e) = some (err e, st)
  fork_resolved st name source_name fork_offset options clock (ok config) =
      fork_source_found st name source_name config (get_stream st source_name) fork_offset options
        clock

  -- `none` where the walk up the source's chain does not end.
  unfoldable pub create_fork_with_options :
      InMemoryStorage
      → Str
      → Str
      → Option Offset
      → StreamOptions
      → ForkOptions
      → (ℕ → ℕ)
      → Option (Result CreateStreamResult × InMemoryStorage)
  unfolding fork_resolved
  create_fork_with_options st name source_name fork_offset options fork_options clock =
      fork_resolved st name source_name fork_offset fork_options clock
        (resolve platform options (clock 0))
