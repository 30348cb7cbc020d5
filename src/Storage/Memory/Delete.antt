-- ===== src/Storage/Memory/Delete.antt =====
-- storage/memory.rs: deletion, its cascade along the chain of forks, and the sweep of expired streams.
use durable_streams_rust.Prelude.{
  ℕ, zero, suc, ◌+◌, ◌-◌, true, false, ◌&&◌, Option, none, some, List, [], ◌∷◌, Str, length, ◌==◌,
  if◌then◌else◌, str_cmp, Ordering,
}
use durable_streams_rust.Prelude.Dict.{Dict, insert, remove}
use durable_streams_rust.Protocol.Error.{Result, ok, err, not_found}
use durable_streams_rust.Storage.Types.{ForkInfo, StreamMetadata, is_tombstone, tombstone}
use durable_streams_rust.Storage.Access.{is_stream_expired, is_stream_visible}
use durable_streams_rust.Storage.Shared.{release_bytes}
use durable_streams_rust.Storage.Fork.{
  DeleteDisposition, to_tombstone, hard_delete, evaluate_delete, evaluate_expired_cleanup,
}
use durable_streams_rust.Storage.Memory.Entry.{StreamEntry, InMemoryStorage, get_stream, metadata}

-- Takes the entry out and gives its bytes back.
unfoldable pub drop_entry : InMemoryStorage → Str → StreamEntry → InMemoryStorage
drop_entry st name s = record st {
  streams = remove name st.streams;
  total_bytes = release_bytes st.total_bytes s.total_bytes;
}

unfoldable pub removed_entry :
    InMemoryStorage → Str → Option StreamEntry → Option ForkInfo × InMemoryStorage
unfolding drop_entry
removed_entry st name none = (none, st)
removed_entry st name (some s) = (s.fork_info, drop_entry st name s)

unfoldable pub hard_remove_stream : InMemoryStorage → Str → Option ForkInfo × InMemoryStorage
unfolding removed_entry
hard_remove_stream st name = removed_entry st name (get_stream st name)

-- `ref_count.saturating_sub(1)`
unfoldable pub release_parent : InMemoryStorage → Str → StreamEntry → InMemoryStorage
release_parent st name parent = record st {
  streams = insert name (record parent { ref_count = parent.ref_count - 1 }) st.streams;
}

-- The loop of `cascade_delete`, on fuel: none if the fuel runs out, which the source's loop has not.
unfoldable pub cascade_loop : ℕ → InMemoryStorage → Str → Option InMemoryStorage
unfolding release_parent drop_entry
cascade_loop zero st parent_name = none
cascade_loop (suc fuel) st parent_name = elim (get_stream st parent_name) [
  | none ↦ some st
  | some parent ↦ elim (is_tombstone parent.state && (parent.ref_count - 1) == 0) [
    | false ↦ some (release_parent st parent_name parent)
    | true ↦ elim parent.fork_info [
      | none ↦ some (drop_entry st parent_name parent)
      | some info ↦ cascade_loop fuel (drop_entry st parent_name parent) info.source_name
    ]
  ]
]

-- The fuel does not run out with one round more than there are streams.
abbrev pub ended : InMemoryStorage → Option InMemoryStorage → InMemoryStorage
ended st none = st
ended st (some st') = st'

unfoldable pub cascade_delete : InMemoryStorage → Str → InMemoryStorage
unfolding cascade_loop
cascade_delete st parent_name = ended st (cascade_loop (suc (length st.streams)) st parent_name)

unfoldable pub cascade_from : Option ForkInfo × InMemoryStorage → InMemoryStorage
unfolding cascade_delete
cascade_from (none, st) = st
cascade_from (some info, st) = cascade_delete st info.source_name

unfoldable pub remove_for_recreate : InMemoryStorage → Str → InMemoryStorage
unfolding cascade_from hard_remove_stream
remove_for_recreate st name = cascade_from (hard_remove_stream st name)

-- `stream.state = StreamState::Tombstone`
unfoldable pub mark_tombstone : InMemoryStorage → Str → StreamEntry → InMemoryStorage
mark_tombstone st name s = record st {
  streams = insert name (record s { state = tombstone }) st.streams;
}

unfoldable pub delete_as :
    InMemoryStorage
    → Str
    → StreamEntry
    → Result DeleteDisposition
    → Result (Unit {0}) × InMemoryStorage
unfolding remove_for_recreate mark_tombstone
delete_as st name s (err e) = (err e, st)
delete_as st name s (ok to_tombstone) = (ok tt, mark_tombstone st name s)
delete_as st name s (ok hard_delete) = (ok tt, remove_for_recreate st name)

unfoldable pub delete_found :
    InMemoryStorage → Str → Option StreamEntry → Result (Unit {0}) × InMemoryStorage
unfolding delete_as
delete_found st name none = (err (not_found name), st)
delete_found st name (some s) = delete_as st name s (evaluate_delete name s.state s.ref_count)

unfoldable pub delete : InMemoryStorage → Str → Result (Unit {0}) × InMemoryStorage
unfolding delete_found
delete st name = delete_found st name (get_stream st name)

-- The names and reference counts of the expired streams; `clock i` is read for the i-th stream.
unfoldable pub expired_streams : Dict StreamEntry → (ℕ → ℕ) → ℕ → List (Str × ℕ)
expired_streams [] clock i = []
expired_streams ((name, s) ∷ m) clock i =
    let rest = expired_streams m clock (i + 1) in
    if is_stream_expired s.config (clock i) then (name, s.ref_count) ∷ rest else rest

unfoldable pub tombstone_found : InMemoryStorage → Str → Option StreamEntry → InMemoryStorage
unfolding mark_tombstone
tombstone_found st name none = st
tombstone_found st name (some s) = mark_tombstone st name s

unfoldable pub sweep_as : InMemoryStorage → Str → DeleteDisposition → InMemoryStorage
unfolding tombstone_found remove_for_recreate
sweep_as st name to_tombstone = tombstone_found st name (get_stream st name)
sweep_as st name hard_delete = remove_for_recreate st name

-- One round of the loop over the expired streams, with the count taken before the loop.
unfoldable pub sweep_one : InMemoryStorage → Str → ℕ → InMemoryStorage
unfolding sweep_as
sweep_one st name ref_count = sweep_as st name (evaluate_expired_cleanup ref_count)

unfoldable pub sweep : InMemoryStorage → List (Str × ℕ) → InMemoryStorage
sweep st [] = st
sweep st ((name, ref_count) ∷ rest) = sweep (sweep_one st name ref_count) rest

unfoldable pub cleanup_expired_streams : InMemoryStorage → (ℕ → ℕ) → ℕ × InMemoryStorage
cleanup_expired_streams st clock =
    let expired = expired_streams st.streams clock 0 in (length expired, sweep st expired)

unfoldable visible_streams : Dict StreamEntry → (ℕ → ℕ) → ℕ → List (Str × StreamMetadata)
visible_streams [] clock i = []
visible_streams ((name, s) ∷ m) clock i =
    let rest = visible_streams m clock (i + 1) in
    if is_stream_visible s.config s.state (clock i) then (name, metadata s) ∷ rest else rest

-- `sort_by` on the names: a stable sort.
insert_by_name : Str × StreamMetadata → List (Str × StreamMetadata) → List (Str × StreamMetadata)
insert_by_name entry [] = entry ∷ []
insert_by_name entry (other ∷ rest) =
    let later = other ∷ insert_by_name entry rest in
    elim (str_cmp entry.0 other.0) [ Ordering.gt ↦ later | _ ↦ entry ∷ other ∷ rest ]

sort_by_name : List (Str × StreamMetadata) → List (Str × StreamMetadata)
unfolding insert_by_name
sort_by_name [] = []
sort_by_name (entry ∷ rest) = insert_by_name entry (sort_by_name rest)

unfoldable list_streams : InMemoryStorage → (ℕ → ℕ) → List (Str × StreamMetadata)
unfolding sort_by_name
list_streams st clock = sort_by_name (visible_streams st.streams clock 0)

unfoldable load_subscription_state : InMemoryStorage → Option Str
load_subscription_state st = st.subscription_state

unfoldable pub save_subscription_state : InMemoryStorage → Str → InMemoryStorage
save_subscription_state st state = record st { subscription_state = some state }
