-- ===== src/Storage/Memory/Chain.antt =====
-- storage/memory.rs: reads, along the chain of forks where the stream is one.
use durable_streams_rust.Prelude.{
  ℕ, zero, suc, Bool, true, Option, none, some, List, [], ◌∷◌, ◌++◌, Str, length, map,
  if◌then◌else◌,
}
use durable_streams_rust.Prelude.Dict.{Dict, lookup, insert}
use durable_streams_rust.Protocol.Error.{Result, ok, err, not_found, ◌>>=◌}
use durable_streams_rust.Protocol.Offset.{Offset, is_now, offset_min}
use durable_streams_rust.Storage.Platform.{Platform}
use durable_streams_rust.Storage.Types.{StreamConfig, ForkInfo, ForkOptions, Message, ReadResult}
use durable_streams_rust.Storage.Access.{check_stream_access, renew_ttl}
use durable_streams_rust.Storage.Shared.{PendingRead, complete, fork_read, finish}
use durable_streams_rust.Storage.Fork.{
  ReadSegment, build_read_plan, message_range, slice, initial_fork_messages,
}
use durable_streams_rust.Storage.Memory.Entry.{
  StreamEntry, InMemoryStorage, get_stream, tail_offset,
}

unfoldable pub payload_of : Message → Str
payload_of m = m.payload

-- The payloads of the messages in a range, `messages[range].iter().map(|m| m.data.clone())`.
unfoldable pub payloads_in : List Message → Offset → Option Offset → List Str
unfolding payload_of
payloads_in messages from up_to =
    map payload_of (slice (message_range messages from up_to) messages)

unfoldable pub read_local_messages : StreamEntry → Offset → Offset → ReadResult
read_local_messages s from next_offset = record {
  messages = payloads_in s.messages from none;
  next_offset = next_offset;
  at_tail = true;
  closed = s.closed;
}

unfoldable pub pending_of : Option ForkInfo → ReadResult → PendingRead
pending_of none local = complete local
pending_of (some info) local = fork_read info local

unfoldable pub prepare_read : StreamEntry → Offset → PendingRead
unfolding pending_of
prepare_read s from =
    if is_now from
    then complete
        (record { messages = []; next_offset = tail_offset s; at_tail = true; closed = s.closed })
    else pending_of s.fork_info (read_local_messages s from (tail_offset s))

fork_info_of : Option StreamEntry → Option ForkInfo
fork_info_of none = none
fork_info_of (some s) = s.fork_info

-- The lookup that the plans are built with.
unfoldable pub lineage : Dict StreamEntry → Str → Result (Option ForkInfo)
unfolding fork_info_of
lineage streams name = ok (fork_info_of (lookup name streams))

segment_bound : Option Offset → Offset → Offset
segment_bound none up_to = up_to
segment_bound (some bound) up_to = offset_min bound up_to

segment_payloads : Option StreamEntry → Offset → Offset → List Str
segment_payloads none from up_to = []
segment_payloads (some s) from up_to = payloads_in s.messages from (some up_to)

-- The loop over the plan; a missing stream is skipped.
unfoldable pub read_segments : Dict StreamEntry → List ReadSegment → Offset → Offset → List Str
unfolding segment_bound segment_payloads
read_segments streams [] from up_to = []
read_segments streams (segment ∷ rest) from up_to =
    segment_payloads (lookup segment.name streams) from (segment_bound segment.read_up_to up_to)
    ++ read_segments streams rest from up_to

-- The fuel for a walk up the chain: one step for each stream, and one for a missing name.
abbrev chain_fuel : Dict StreamEntry → ℕ
chain_fuel streams = suc (length streams)

-- `none` where the walk does not end.
unfoldable pub read_source_chain :
    Dict StreamEntry → Str → Offset → Offset → Option (Result (List Str))
read_source_chain streams source_name from up_to =
    elim (build_read_plan (chain_fuel streams) (lineage streams) source_name) [
      | none ↦ none
      | some (err e) ↦ some (err e)
      | some (ok plan) ↦ some (ok (read_segments streams plan from up_to))
    ]

unfoldable pub finish_read : Dict StreamEntry → Offset → PendingRead → Option (Result ReadResult)
finish_read streams from pending = finish pending from (read_source_chain streams)

-- The segments of a fork's inherited data; a missing stream is an error here.
unfoldable pub collect_segments : Dict StreamEntry → List ReadSegment → Offset → Result (List Str)
collect_segments streams [] from = ok []
collect_segments streams (segment ∷ rest) from = elim (lookup segment.name streams) [
  | none ↦ err (not_found segment.name)
  | some s ↦ (do
    others ← collect_segments streams rest from
    ok (payloads_in s.messages from segment.read_up_to ++ others))
]

module _ {V : Type 0} (platform : Platform V) where
  unfoldable pub renewed_state :
      InMemoryStorage
      → Str
      → StreamEntry
      → ReadResult
      → Result (StreamConfig × Bool)
      → Result ReadResult × InMemoryStorage
  renewed_state st name s result (err e) = (err e, st)
  renewed_state st name s result (ok (config, changed)) =
      (ok result, record st { streams = insert name (record s { config = config }) st.streams })

  -- The end of a read with a sliding deadline: the result, and the entry renewed.
  unfoldable pub renewed_read :
      InMemoryStorage
      → Str
      → StreamEntry
      → ℕ
      → Option (Result ReadResult)
      → Option (Result ReadResult × InMemoryStorage)
  unfolding renewed_state
  renewed_read st name s now none = none
  renewed_read st name s now (some (err e)) = some (err e, st)
  renewed_read st name s now (some (ok result)) =
      some (renewed_state st name s result (renew_ttl platform s.config now))

  unfoldable pub with_state :
      InMemoryStorage → Option (Result ReadResult) → Option (Result ReadResult × InMemoryStorage)
  with_state st none = none
  with_state st (some result) = some (result, st)

  -- The second access check, under the write lock.
  unfoldable pub read_rechecked :
      InMemoryStorage
      → Str
      → StreamEntry
      → Offset
      → (ℕ → ℕ)
      → Result (Unit {0})
      → Option (Result ReadResult × InMemoryStorage)
  unfolding renewed_read
  read_rechecked st name s from clock (err e) = some (err e, st)
  read_rechecked st name s from clock (ok u) =
      renewed_read st name s (clock 2) (finish_read st.streams from (prepare_read s from))

  unfoldable pub read_by_ttl :
      InMemoryStorage
      → Str
      → StreamEntry
      → Offset
      → (ℕ → ℕ)
      → Option ℕ
      → Option (Result ReadResult × InMemoryStorage)
  unfolding read_rechecked with_state
  read_by_ttl st name s from clock none =
      with_state st (finish_read st.streams from (prepare_read s from))
  read_by_ttl st name s from clock (some ttl) =
      read_rechecked st name s from clock (check_stream_access s.config s.state name (clock 1))

  unfoldable pub read_checked :
      InMemoryStorage
      → Str
      → StreamEntry
      → Offset
      → (ℕ → ℕ)
      → Result (Unit {0})
      → Option (Result ReadResult × InMemoryStorage)
  unfolding read_by_ttl
  read_checked st name s from clock (err e) = some (err e, st)
  read_checked st name s from clock (ok u) = read_by_ttl st name s from clock s.config.ttl_seconds

  unfoldable pub read_found :
      InMemoryStorage
      → Str
      → Option StreamEntry
      → Offset
      → (ℕ → ℕ)
      → Option (Result ReadResult × InMemoryStorage)
  unfolding read_checked
  read_found st name none from clock = some (err (not_found name), st)
  read_found st name (some s) from clock =
      read_checked st name s from clock (check_stream_access s.config s.state name (clock 0))

  -- With no other thread between the two halves. `none` where the walk up the chain does not end.
  unfoldable pub read :
      InMemoryStorage → Str → Offset → (ℕ → ℕ) → Option (Result ReadResult × InMemoryStorage)
  unfolding read_found
  read st name from clock = read_found st name (get_stream st name) from clock

  collected :
      Dict StreamEntry
      → StreamConfig
      → ForkOptions
      → Offset
      → Option (Result (List ReadSegment))
      → Option (Result (List Str))
  collected streams config options resolved none = none
  collected streams config options resolved (some (err e)) = some (err e)
  collected streams config options resolved (some (ok plan)) = some (do
    source_messages ← collect_segments streams plan resolved
    initial_fork_messages platform config options source_messages)

  -- fork_initial_messages; `none` where the walk does not end.
  unfoldable pub fork_initial_messages :
      Dict StreamEntry → Str → Offset → StreamConfig → ForkOptions → Option (Result (List Str))
  unfolding collected
  fork_initial_messages streams source_name resolved config options = elim options.sub_offset [
    | zero ↦ some (initial_fork_messages platform config options [])
    | suc n ↦
        collected streams config options resolved
          (build_read_plan (chain_fuel streams) (lineage streams) source_name)
  ]
