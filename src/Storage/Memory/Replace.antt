-- ===== src/Storage/Memory/Replace.antt =====
-- storage/memory.rs: replacement of a stream.
use durable_streams_rust.Prelude.{ℕ, Bool, ◌||◌, Option, none, some, List, Str}
use durable_streams_rust.Prelude.Dict.{insert}
use durable_streams_rust.Protocol.Error.{Result, ok, err, not_found}
use durable_streams_rust.Protocol.Offset
use durable_streams_rust.Protocol.Offset.{Offset, parse_components}
use durable_streams_rust.Storage.Platform.{Platform}
use durable_streams_rust.Storage.Types.{StreamConfig, StreamOptions, resolve, AppendResult}
use durable_streams_rust.Storage.Shared.{release_bytes}
use durable_streams_rust.Storage.Fork.{check_replace}
use durable_streams_rust.Storage.Memory.Entry.{
  StreamEntry, InMemoryStorage, get_stream, new_entry, tail_offset, send, commit_messages,
}

unfoldable pub replace_current :
    Str
    → StreamEntry
    → Bool
    → Result StreamEntry × InMemoryStorage
    → Result AppendResult × InMemoryStorage
replace_current name current closed (err e, st) = (err e, st)
replace_current name current closed (ok s, st) =
    let s' = record s { closed = closed; notify = current.notify } in
    (
      ok (record { start_offset = Offset.new 0 0; next_offset = tail_offset s'; closed = closed }),
      record st {
        streams = insert name (send s') st.streams;
        total_bytes = release_bytes st.total_bytes current.total_bytes;
      },
    )

unfoldable pub replace_checked :
    InMemoryStorage
    → Str
    → StreamEntry
    → StreamConfig
    → List Str
    → Bool
    → ℕ
    → Result (Unit {0})
    → Result AppendResult × InMemoryStorage
unfolding replace_current
replace_checked st name current config messages closed now (err e) = (err e, st)
replace_checked st name current config messages closed now (ok u) =
    replace_current name current closed (commit_messages st (new_entry config now) messages)

unfoldable pub replace_found :
    InMemoryStorage
    → Str
    → Option StreamEntry
    → StreamConfig
    → List Str
    → Bool
    → ℕ
    → Result AppendResult × InMemoryStorage
unfolding replace_checked
replace_found st name none config messages closed now = (err (not_found name), st)
replace_found st name (some current) config messages closed now =
    replace_checked st name current config messages closed now
      (check_replace current.ref_count current.fork_info)

module _ {V : Type 0} (platform : Platform V) where
  unfoldable pub replace_resolved :
      InMemoryStorage
      → Str
      → List Str
      → Bool
      → (ℕ → ℕ)
      → Result StreamConfig
      → Result AppendResult × InMemoryStorage
  unfolding replace_found
  replace_resolved st name messages closed clock (err e) = (err e, st)
  replace_resolved st name messages closed clock (ok config) =
      replace_found st name (get_stream st name) config messages (closed || config.created_closed)
        (clock 1)

  unfoldable pub replace_stream :
      InMemoryStorage
      → Str
      → StreamOptions
      → List Str
      → Bool
      → (ℕ → ℕ)
      → Result AppendResult × InMemoryStorage
  unfolding replace_resolved
  replace_stream st name options messages closed clock =
      replace_resolved st name messages closed clock (resolve platform options (clock 0))
