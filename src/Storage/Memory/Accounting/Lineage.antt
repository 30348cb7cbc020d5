-- ===== src/Storage/Memory/Accounting/Lineage.antt =====
-- Forks and reads keep the byte counters.
use durable_streams_rust.Prelude.{
  ℕ, ◌<◌, ◌≡◌, refl, Bool, Option, none, some, List, Str, arith, u64_mod,
}
use durable_streams_rust.Prelude.Dict.{lookup}
use durable_streams_rust.Protocol.Error.{Result, ok, err}
use durable_streams_rust.Protocol.Offset.{Offset}
use durable_streams_rust.Storage.Platform.{Platform}
use durable_streams_rust.Storage.Types.{
  StreamConfig, StreamOptions, ForkCreateSpec, ForkOptions, ReadResult,
}
use durable_streams_rust.Storage.Fork
use durable_streams_rust.Storage.Fork.{ExistingCreateDisposition, remove_expired, conflict}
use durable_streams_rust.Storage.Memory.Entry.{StreamEntry, InMemoryStorage, get_stream, new_entry}
use durable_streams_rust.Storage.Memory.Chain.{
  fork_initial_messages, renewed_state, renewed_read, with_state, read_rechecked, read_by_ttl,
  read_checked, read_found, read,
}
use durable_streams_rust.Storage.Memory.Delete.{remove_for_recreate}
use durable_streams_rust.Storage.Memory.Forking.{
  count_reference, publish_fork, fork_entry, fork_fresh, fork_as, fork_over, with_messages,
  fork_from, fork_source_found, fork_resolved, create_fork_with_options,
}
use durable_streams_rust.Storage.Memory.Commit.{bytes_of, Committed, done, refused}
use durable_streams_rust.Storage.Memory.Accounting.{IsAccounted, same_size-IsAccounted}
use durable_streams_rust.Storage.Memory.Accounting.Removal.{
  remove_for_recreate-IsAccounted, remove_for_recreate_absent,
}
use durable_streams_rust.Storage.Memory.Accounting.Creation.{
  empty-Committed, stored_new-IsAccounted,
}

count_reference-IsAccounted :
    (st : InMemoryStorage) (source_name : Str) (o : Option StreamEntry)
    → IsAccounted st
    → lookup source_name st.streams ≡ o
    → IsAccounted (count_reference st source_name o)
unfolding count_reference
count_reference-IsAccounted st source_name none h e = h
count_reference-IsAccounted st source_name (some s) h e =
    same_size-IsAccounted source_name h e _ refl

publish_fork-IsAccounted :
    (st : InMemoryStorage) (name source_name : Str) (s : StreamEntry) (ms : List Str)
    (r : Result StreamEntry × InMemoryStorage)
    → IsAccounted st
    → lookup name st.streams ≡ none
    → s.total_bytes ≡ 0
    → Committed st s ms r
    → IsAccounted (publish_fork name source_name r).1
unfolding publish_fork get_stream
publish_fork-IsAccounted st name source_name s ms r h free new (refused e) = h
publish_fork-IsAccounted st name source_name s ms r h free new
      (done s' total pushed counted within small) =
    count_reference-IsAccounted _ source_name _
      (stored_new-IsAccounted st name s' total h free (omega arith) within small) refl

fork_fresh-IsAccounted :
    (st : InMemoryStorage) (name source_name : Str) (spec : ForkCreateSpec) (resolved : Offset)
    (closed : Bool) (sub now : ℕ) (ms : List Str)
    → IsAccounted st
    → lookup name st.streams ≡ none
    → bytes_of ms < u64_mod
    → IsAccounted (fork_fresh st name source_name spec resolved closed sub ms now).1
unfolding fork_fresh
fork_fresh-IsAccounted st name source_name spec resolved closed sub now ms h free small =
    let entry = fork_entry spec resolved closed sub now in
    let new : entry.total_bytes ≡ 0 = unfold fork_entry new_entry in refl in
    publish_fork-IsAccounted st name source_name entry ms _ h free new
      (empty-Committed st entry ms h new small)

fork_as-IsAccounted :
    (st : InMemoryStorage) (name source_name : Str) (spec : ForkCreateSpec) (resolved : Offset)
    (closed : Bool) (sub : ℕ) (ms : List Str) (clock : ℕ → ℕ) (d : ExistingCreateDisposition)
    → IsAccounted st
    → bytes_of ms < u64_mod
    → IsAccounted (fork_as st name source_name spec resolved closed sub ms clock d).1
unfolding fork_as
fork_as-IsAccounted st name source_name spec resolved closed sub ms clock remove_expired h small =
    fork_fresh-IsAccounted (remove_for_recreate st name) name source_name spec resolved closed sub
      (clock 4) ms (remove_for_recreate-IsAccounted st name h)
      (remove_for_recreate_absent st name h.unique) small
fork_as-IsAccounted st name source_name spec resolved closed sub ms clock Fork.already_exists h
      small =
    h
fork_as-IsAccounted st name source_name spec resolved closed sub ms clock (conflict e) h small = h

fork_over-IsAccounted :
    (st : InMemoryStorage) (name : Str) (o : Option StreamEntry) (source_name : Str)
    (spec : ForkCreateSpec) (resolved : Offset) (closed : Bool) (sub : ℕ) (ms : List Str)
    (clock : ℕ → ℕ)
    → IsAccounted st
    → lookup name st.streams ≡ o
    → bytes_of ms < u64_mod
    → IsAccounted (fork_over st name o source_name spec resolved closed sub ms clock).1
unfolding fork_over
fork_over-IsAccounted st name none source_name spec resolved closed sub ms clock h e small =
    fork_fresh-IsAccounted st name source_name spec resolved closed sub (clock 4) ms h e small
fork_over-IsAccounted st name (some s) source_name spec resolved closed sub ms clock h e small =
    fork_as-IsAccounted st name source_name spec resolved closed sub ms clock _ h small

-- The state that a call leaves, where the call returns.
abbrev pub Returned {ℓ} :
    {A : Type ℓ} → (InMemoryStorage → Type 0) → Option (A × InMemoryStorage) → Type 0
Returned P none = Unit
Returned P (some (a, st)) = P st

module _ {V : Type 0} (platform : Platform V) {st : InMemoryStorage} (h : IsAccounted st)
    (name source_name : Str) (options : ForkOptions) (clock : ℕ → ℕ)
    -- the messages that the fork starts with are counted by a 64-bit word
    (small : (resolved : Offset) (config : StreamConfig) (ms : List Str)
      → fork_initial_messages platform st.streams source_name resolved config options ≡ some (ok ms)
      → bytes_of ms < u64_mod) where
  with_messages-IsAccounted :
      (spec : ForkCreateSpec) (resolved : Offset) (closed : Bool) (o : Option (Result (List Str)))
      → fork_initial_messages platform st.streams source_name resolved spec.config options ≡ o
      → Returned IsAccounted
          (with_messages platform st name source_name spec resolved closed options clock o)
  unfolding with_messages get_stream
  with_messages-IsAccounted spec resolved closed none e = tt
  with_messages-IsAccounted spec resolved closed (some (err x)) e = h
  with_messages-IsAccounted spec resolved closed (some (ok ms)) e =
      fork_over-IsAccounted st name (lookup name st.streams) source_name spec resolved closed _ ms
        clock h refl (small resolved spec.config ms e)

  fork_from-IsAccounted :
      (closed : Bool) (r : Result (ForkCreateSpec × Offset))
      → Returned IsAccounted (fork_from platform st name source_name closed options clock r)
  unfolding fork_from
  fork_from-IsAccounted closed (err e) = h
  fork_from-IsAccounted closed (ok (spec, resolved)) =
      with_messages-IsAccounted spec resolved closed _ refl

  fork_source-IsAccounted :
      (config : StreamConfig) (o : Option StreamEntry) (fork_offset : Option Offset)
      → Returned IsAccounted
          (fork_source_found platform st name source_name config o fork_offset options clock)
  unfolding fork_source_found
  fork_source-IsAccounted config none fork_offset = h
  fork_source-IsAccounted config (some s) fork_offset =
      fork_from-IsAccounted config.created_closed _

  fork_resolved-IsAccounted :
      (fork_offset : Option Offset) (r : Result StreamConfig)
      → Returned IsAccounted
          (fork_resolved platform st name source_name fork_offset options clock r)
  unfolding fork_resolved
  fork_resolved-IsAccounted fork_offset (err e) = h
  fork_resolved-IsAccounted fork_offset (ok config) = fork_source-IsAccounted config _ fork_offset

  pub create_fork-IsAccounted :
      (fork_offset : Option Offset) (config : StreamOptions)
      → Returned IsAccounted
          (create_fork_with_options platform st name source_name fork_offset config options clock)
  unfolding create_fork_with_options
  create_fork-IsAccounted fork_offset config = fork_resolved-IsAccounted fork_offset _

module _ {V : Type 0} (platform : Platform V) {st : InMemoryStorage} (h : IsAccounted st)
    (name : Str) (from : Offset) (clock : ℕ → ℕ) where
  module _ {s : StreamEntry} (found : lookup name st.streams ≡ some s) where
    renewed_state-IsAccounted :
        (result : ReadResult) (r : Result (StreamConfig × Bool))
        → IsAccounted (renewed_state platform st name s result r).1
    unfolding renewed_state
    renewed_state-IsAccounted result (err e) = h
    renewed_state-IsAccounted result (ok (config, changed)) =
        same_size-IsAccounted name h found _ refl

    renewed_read-IsAccounted :
        (now : ℕ) (o : Option (Result ReadResult))
        → Returned IsAccounted (renewed_read platform st name s now o)
    unfolding renewed_read
    renewed_read-IsAccounted now none = tt
    renewed_read-IsAccounted now (some (err e)) = h
    renewed_read-IsAccounted now (some (ok result)) = renewed_state-IsAccounted result _

    with_state-IsAccounted :
        (o : Option (Result ReadResult)) → Returned IsAccounted (with_state platform st o)
    unfolding with_state
    with_state-IsAccounted none = tt
    with_state-IsAccounted (some r) = h

    rechecked-IsAccounted :
        (r : Result (Unit {0}))
        → Returned IsAccounted (read_rechecked platform st name s from clock r)
    unfolding read_rechecked
    rechecked-IsAccounted (err e) = h
    rechecked-IsAccounted (ok u) = renewed_read-IsAccounted (clock 2) _

    by_ttl-IsAccounted :
        (o : Option ℕ) → Returned IsAccounted (read_by_ttl platform st name s from clock o)
    unfolding read_by_ttl
    by_ttl-IsAccounted none = with_state-IsAccounted _
    by_ttl-IsAccounted (some ttl) = rechecked-IsAccounted _

    checked-IsAccounted :
        (r : Result (Unit {0}))
        → Returned IsAccounted (read_checked platform st name s from clock r)
    unfolding read_checked
    checked-IsAccounted (err e) = h
    checked-IsAccounted (ok u) = by_ttl-IsAccounted s.config.ttl_seconds

  read_found-IsAccounted :
      (o : Option StreamEntry)
      → lookup name st.streams ≡ o
      → Returned IsAccounted (read_found platform st name o from clock)
  unfolding read_found
  read_found-IsAccounted none e = h
  read_found-IsAccounted (some s) e = checked-IsAccounted e _

  pub read-IsAccounted : Returned IsAccounted (read platform st name from clock)
  unfolding read get_stream
  read-IsAccounted = read_found-IsAccounted (lookup name st.streams) refl
