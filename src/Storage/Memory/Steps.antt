-- ===== src/Storage/Memory/Steps.antt =====
-- The store as a state machine: one step for each method, and what holds in every state reached.
use durable_streams_rust.Prelude.{ℕ, ◌≡◌, ◌<◌, Bool, Option, some, List, Str, subst, u64_mod}
use durable_streams_rust.Protocol.Error.{Result, ok}
use durable_streams_rust.Protocol.Offset.{Offset}
use durable_streams_rust.Protocol.Producer.{ProducerHeaders}
use durable_streams_rust.Storage.Platform.{Platform}
use durable_streams_rust.Storage.Types.{
  StreamConfig, StreamOptions, ForkOptions, ReadResult, CreateStreamResult,
}
use durable_streams_rust.Storage.Memory.Entry.{InMemoryStorage, new_storage}
use durable_streams_rust.Storage.Memory.Append.{append_batch, append_with_producer}
use durable_streams_rust.Storage.Memory.Chain.{read, fork_initial_messages}
use durable_streams_rust.Storage.Memory.Create.{create_stream_with_data}
use durable_streams_rust.Storage.Memory.Replace.{replace_stream}
use durable_streams_rust.Storage.Memory.Forking.{create_fork_with_options}
use durable_streams_rust.Storage.Memory.Delete.{
  delete, cleanup_expired_streams, save_subscription_state,
}
use durable_streams_rust.Storage.Memory.Commit.{bytes_of}
use durable_streams_rust.Storage.Memory.Accounting.{
  IsAccounted, new_storage-IsAccounted, append_batch-IsAccounted, append_with_producer-IsAccounted,
}
use durable_streams_rust.Storage.Memory.Accounting.Removal.{delete-IsAccounted, cleanup-IsAccounted}
use durable_streams_rust.Storage.Memory.Accounting.Creation.{
  create-IsAccounted, replace-IsAccounted,
}
use durable_streams_rust.Storage.Memory.Accounting.Lineage.{
  Returned, create_fork-IsAccounted, read-IsAccounted,
}

module _ {V : Type 0} (platform : Platform V) where
  -- A call of a method that changes the store, whatever it returns. The bytes of one batch are
  -- counted by a 64-bit word, as they lie in one address space.
  pub data Step (st : InMemoryStorage) : InMemoryStorage → Type 0 where
    appends :
        (name : Str) (ms : List Str) (content_type : Str) (seq : Option Str) (close : Bool)
        (clock : ℕ → ℕ)
        → bytes_of ms < u64_mod
        → Step st (append_batch platform st name ms content_type seq close clock).1
    produces :
        (name : Str) (ms : List Str) (content_type : Str) (producer : ProducerHeaders)
        (close : Bool) (seq : Option Str) (clock : ℕ → ℕ)
        → bytes_of ms < u64_mod
        → Step st (append_with_producer platform st name ms content_type producer close seq clock).1
    creates :
        (name : Str) (options : StreamOptions) (ms : List Str) (close : Bool) (clock : ℕ → ℕ)
        → bytes_of ms < u64_mod
        → Step st (create_stream_with_data platform st name options ms close clock).1
    replaces :
        (name : Str) (options : StreamOptions) (ms : List Str) (closed : Bool) (clock : ℕ → ℕ)
        → bytes_of ms < u64_mod
        → Step st (replace_stream platform st name options ms closed clock).1
    forks :
        (name source_name : Str) (fork_offset : Option Offset) (options : StreamOptions)
        (fork_options : ForkOptions) (clock : ℕ → ℕ) (result : Result CreateStreamResult)
        (st' : InMemoryStorage)
        → ((resolved : Offset) (config : StreamConfig) (ms : List Str)
            → fork_initial_messages platform st.streams source_name resolved config fork_options
              ≡ some (ok ms)
            → bytes_of ms < u64_mod)
        → create_fork_with_options platform st name source_name fork_offset options fork_options
            clock
          ≡ some (result, st')
        → Step st st'
    reads :
        (name : Str) (from : Offset) (clock : ℕ → ℕ) (result : Result ReadResult)
        (st' : InMemoryStorage)
        → read platform st name from clock ≡ some (result, st')
        → Step st st'
    deletes : (name : Str) → Step st (delete st name).1
    sweeps : (clock : ℕ → ℕ) → Step st (cleanup_expired_streams st clock).1
    saves : (state : Str) → Step st (save_subscription_state st state)

  pub data Reach (st : InMemoryStorage) : InMemoryStorage → Type 0 where
    here : Reach st st
    next : {mid last : InMemoryStorage} → Reach st mid → Step mid last → Reach st last

  Step-IsAccounted : {st st' : InMemoryStorage} → Step st st' → IsAccounted st → IsAccounted st'
  Step-IsAccounted (appends name ms content_type seq close clock small) h =
      append_batch-IsAccounted platform h name ms small content_type seq close clock
  Step-IsAccounted (produces name ms content_type producer close seq clock small) h =
      append_with_producer-IsAccounted platform h name ms small content_type producer close seq
        clock
  Step-IsAccounted {st} (creates name options ms close clock small) h =
      create-IsAccounted platform st name options ms close clock h small
  Step-IsAccounted {st} (replaces name options ms closed clock small) h =
      replace-IsAccounted platform st name options ms closed clock h small
  Step-IsAccounted
        (forks name source_name fork_offset options fork_options clock result st' small e) h =
      subst (Returned IsAccounted) e (
        create_fork-IsAccounted platform h name source_name fork_options clock small fork_offset
          options)
  Step-IsAccounted (reads name from clock result st' e) h =
      subst (Returned IsAccounted) e (read-IsAccounted platform h name from clock)
  Step-IsAccounted {st} (deletes name) h = delete-IsAccounted st name h
  Step-IsAccounted {st} (sweeps clock) h = cleanup-IsAccounted st clock h
  Step-IsAccounted (saves state) h =
      unfold save_subscription_state in
      (record {
        unique = h.unique;
        counted = h.counted;
        within = h.within;
        each = h.each;
        word = h.word;
      })

  Reach-IsAccounted : {st st' : InMemoryStorage} → IsAccounted st → Reach st st' → IsAccounted st'
  Reach-IsAccounted h here = h
  Reach-IsAccounted h (next r step) = Step-IsAccounted step (Reach-IsAccounted h r)

  -- In every state that a new store reaches by calls of its methods, successful or not, each name
  -- stands once, the global byte counter is the sum of the streams' counters and is within the
  -- global limit, and every stream is within the limit of a stream. The global limit is a 64-bit
  -- word, and so are the bytes of each batch.
  pub reachable-IsAccounted :
      (max_total_bytes max_stream_bytes : ℕ) (st : InMemoryStorage)
      → max_total_bytes < u64_mod
      → Reach (new_storage max_total_bytes max_stream_bytes) st
      → IsAccounted st
  reachable-IsAccounted total stream st word r =
      Reach-IsAccounted (new_storage-IsAccounted total stream word) r
