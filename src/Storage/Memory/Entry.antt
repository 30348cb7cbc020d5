-- ===== src/Storage/Memory/Entry.antt =====
-- storage/memory.rs: stream entries, the store, and the commit of messages.
use durable_streams_rust.Prelude.{
  ℕ, ◌+◌, Bool, false, Option, none, List, [], ◌∷◌, ◌++◌, Str, length, ltb, if◌then◌else◌, add64,
}
use durable_streams_rust.Prelude.Dict.{Dict, lookup}
use durable_streams_rust.Protocol.Error.{Result, ok, err, stream_size_limit_exceeded}
use durable_streams_rust.Protocol.Offset
use durable_streams_rust.Protocol.Offset.{Offset}
use durable_streams_rust.Storage.Types.{
  StreamConfig, StreamState, active, ForkInfo, Message, new_message, StreamMetadata,
}
use durable_streams_rust.Storage.Shared.{
  ProducerState, build_stream_metadata, reserve_bytes, release_bytes, payload_bytes,
}

pub record StreamEntry : Type 0 where
  pub config : StreamConfig
  pub messages : List Message
  pub closed : Bool
  pub next_read_seq : ℕ
  pub next_byte_offset : ℕ
  pub total_bytes : ℕ
  pub created_at : ℕ
  pub updated_at : Option ℕ
  pub producers : Dict ProducerState
  pub notify : ℕ
  pub last_seq : Option Str
  pub fork_info : Option ForkInfo
  pub ref_count : ℕ
  pub state : StreamState

-- StreamEntry::new
unfoldable pub new_entry : StreamConfig → ℕ → StreamEntry
new_entry config now = record {
  config = config;
  messages = [];
  closed = false;
  next_read_seq = 0;
  next_byte_offset = 0;
  total_bytes = 0;
  created_at = now;
  updated_at = none;
  producers = [];
  notify = 0;
  last_seq = none;
  fork_info = none;
  ref_count = 0;
  state = active;
}

-- StreamEntry::metadata
unfoldable pub metadata : StreamEntry → StreamMetadata
metadata s =
    build_stream_metadata s.config s.next_read_seq s.next_byte_offset s.closed s.total_bytes
      (length s.messages) s.created_at s.updated_at

abbrev pub tail_offset : StreamEntry → Offset
tail_offset s = Offset.new s.next_read_seq s.next_byte_offset

pub record InMemoryStorage : Type 0 where
  pub subscription_state : Option Str
  pub streams : Dict StreamEntry
  pub total_bytes : ℕ
  pub max_total_bytes : ℕ
  pub max_stream_bytes : ℕ

-- InMemoryStorage::new
unfoldable pub new_storage : ℕ → ℕ → InMemoryStorage
new_storage max_total_bytes max_stream_bytes = record {
  subscription_state = none;
  streams = [];
  total_bytes = 0;
  max_total_bytes = max_total_bytes;
  max_stream_bytes = max_stream_bytes;
}

unfoldable pub get_stream : InMemoryStorage → Str → Option StreamEntry
get_stream st name = lookup name st.streams

-- One round of the loop of `commit_messages`; the counters are `u64`.
unfoldable pub push_message : StreamEntry → Str → StreamEntry
push_message s payload = record s {
  next_read_seq = add64 s.next_read_seq 1;
  next_byte_offset = add64 s.next_byte_offset (length payload);
  total_bytes = add64 s.total_bytes (length payload);
  messages = s.messages ++ (new_message (tail_offset s) payload ∷ []);
}

unfoldable pub push_messages : StreamEntry → List Str → StreamEntry
push_messages s [] = s
push_messages s (payload ∷ rest) = push_messages (push_message s payload) rest

abbrev pub send : StreamEntry → StreamEntry
send s = record s { notify = s.notify + 1 }

-- The rest of `commit_messages`, once the global reservation has answered.
unfoldable pub commit_reserved :
    InMemoryStorage → StreamEntry → List Str → ℕ → Result ℕ → Result StreamEntry × InMemoryStorage
commit_reserved st s messages batch (err e) = (err e, st)
commit_reserved st s messages batch (ok total) =
    if ltb st.max_stream_bytes (add64 s.total_bytes batch)
    then (err stream_size_limit_exceeded, record st { total_bytes = release_bytes total batch })
    else (ok (send (push_messages s messages)), record st { total_bytes = total })

-- The caller holds the entry; it stores the entry that is returned.
unfoldable pub commit_messages :
    InMemoryStorage → StreamEntry → List Str → Result StreamEntry × InMemoryStorage
unfolding commit_reserved
commit_messages st s [] = (ok s, st)
commit_messages st s (m ∷ ms) =
    let batch = payload_bytes (m ∷ ms) in
    commit_reserved st s (m ∷ ms) batch (reserve_bytes st.total_bytes st.max_total_bytes batch)
