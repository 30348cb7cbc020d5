-- ===== src/Storage/Memory/Create.antt =====
-- storage/memory.rs: creation of streams.
use durable_streams_rust.Prelude.{ℕ, Bool, true, ◌||◌, Option, none, some, List, Str, if◌then◌else◌}
use durable_streams_rust.Prelude.Dict.{insert}
use durable_streams_rust.Protocol.Error.{Result, ok, err}
use durable_streams_rust.Storage.Platform.{Platform}
use durable_streams_rust.Storage.Types.{
  StreamConfig, StreamOptions, resolve, ForkInfo, ForkOptions, ForkCreateSpec, AppendResult,
  CreateStreamResult, created, CreateWithDataResult,
}
use durable_streams_rust.Storage.Types
use durable_streams_rust.Storage.Fork.{
  ExistingCreateDisposition, remove_expired, conflict, evaluate_root_create, evaluate_fork_create,
  prepare_fork_spec, check_replace,
}
use durable_streams_rust.Storage.Fork
use durable_streams_rust.Storage.Memory.Entry.{
  StreamEntry, InMemoryStorage, get_stream, new_entry, tail_offset, commit_messages,
}
use durable_streams_rust.Storage.Memory.Delete.{remove_for_recreate}

-- The entry that a creation has filled becomes visible.
unfoldable pub publish :
    Str
    → Bool
    → Result StreamEntry × InMemoryStorage
    → Result CreateWithDataResult × InMemoryStorage
publish name should_close (err e, st) = (err e, st)
publish name should_close (ok s, st) =
    let s' = if should_close then record s { closed = true } else s in
    (
      ok (record { status = created; next_offset = tail_offset s'; closed = s'.closed }),
      record st { streams = insert name s' st.streams },
    )

unfoldable pub create_fresh :
    InMemoryStorage
    → Str
    → StreamConfig
    → List Str
    → Bool
    → ℕ
    → Result CreateWithDataResult × InMemoryStorage
unfolding publish
create_fresh st name config messages should_close now =
    publish name should_close (commit_messages st (new_entry config now) messages)

-- The match on what stands at the path.
unfoldable pub create_as :
    InMemoryStorage
    → Str
    → StreamEntry
    → StreamConfig
    → List Str
    → Bool
    → (ℕ → ℕ)
    → ExistingCreateDisposition
    → Result CreateWithDataResult × InMemoryStorage
unfolding create_fresh
create_as st name s config messages should_close clock remove_expired =
    create_fresh (remove_for_recreate st name) name config messages should_close (clock 2)
create_as st name s config messages should_close clock Fork.already_exists = (
  ok (record { status = Types.already_exists; next_offset = tail_offset s; closed = s.closed }),
  st,
)
create_as st name s config messages should_close clock (conflict e) = (err e, st)

unfoldable pub create_over :
    InMemoryStorage
    → Str
    → Option StreamEntry
    → StreamConfig
    → List Str
    → Bool
    → (ℕ → ℕ)
    → Result CreateWithDataResult × InMemoryStorage
unfolding create_as
create_over st name none config messages should_close clock =
    create_fresh st name config messages should_close (clock 2)
create_over st name (some s) config messages should_close clock =
    create_as st name s config messages should_close clock
      (evaluate_root_create name s.config s.state s.ref_count config (clock 1))

module _ {V : Type 0} (platform : Platform V) where
  unfoldable pub create_resolved :
      InMemoryStorage
      → Str
      → List Str
      → Bool
      → (ℕ → ℕ)
      → Result StreamConfig
      → Result CreateWithDataResult × InMemoryStorage
  unfolding create_over
  create_resolved st name messages should_close clock (err e) = (err e, st)
  create_resolved st name messages should_close clock (ok config) =
      create_over st name (get_stream st name) config messages
        (should_close || config.created_closed) clock

  unfoldable pub create_stream_with_data :
      InMemoryStorage
      → Str
      → StreamOptions
      → List Str
      → Bool
      → (ℕ → ℕ)
      → Result CreateWithDataResult × InMemoryStorage
  unfolding create_resolved
  create_stream_with_data st name options messages should_close clock =
      create_resolved st name messages should_close clock (resolve platform options (clock 0))
