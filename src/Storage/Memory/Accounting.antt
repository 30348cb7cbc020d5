-- ===== src/Storage/Memory/Accounting.antt =====
-- The byte counters of the store, and the appends that keep them.
pub mod Removal
pub mod Lineage
pub mod Creation
use durable_streams_rust.Prelude.{
  ℕ, zero, suc, ◌+◌, ◌-◌, ◌≤◌, ◌<◌, ◌≡◌, refl, ap, sym, ◌∙◌, subst, Bool, true, false, Option, none,
  some, List, [], ◌∷◌, Str, u64_mod, arith, All,
}
use durable_streams_rust.Prelude.Dict.{
  Dict, lookup, insert, remove, sum_by, measure_or_zero, AllValues, HasUniqueKeys,
  insert-HasUniqueKeys, sum_by-insert, sum_by-remove, AllValues-lookup, AllValues-insert,
  AllValues-remove,
}
use durable_streams_rust.Protocol.Error.{Error, Result, ok, err}
use durable_streams_rust.Protocol.Producer.{ProducerHeaders}
use durable_streams_rust.Storage.Platform.{Platform}
use durable_streams_rust.Storage.Shared.{
  ProducerAppendPrecheck, accept_with, duplicate_of, validate_batch_shape, precheck_producer_append,
  apply_append_metadata,
}
use durable_streams_rust.Storage.Memory.Entry.{
  StreamEntry, InMemoryStorage, new_storage, get_stream, send, commit_messages,
}
use durable_streams_rust.Storage.Memory.Append.{
  NextMetadata, finish_append, commit_prepared, prepare_append, append_batch, finish_producer,
  producer_checked, append_with_producer,
}
use durable_streams_rust.Storage.Memory.Append.{
  append_found, append_shaped, producer_prepared, producer_found,
}
use durable_streams_rust.Storage.Memory.Commit.{
  bytes_of, Committed, done, refused, commit_messages-Committed,
}

abbrev pub entry_bytes : StreamEntry → ℕ
entry_bytes s = s.total_bytes

-- Every name stands once, the global counter is the sum of the streams' counters and within the
-- global limit, and every stream is within its own.
pub record IsAccounted (st : InMemoryStorage) : Type 0 where
  pub unique : HasUniqueKeys st.streams
  pub counted : st.total_bytes ≡ sum_by entry_bytes st.streams
  pub within : st.total_bytes ≤ st.max_total_bytes
  pub each : AllValues (λ s. s.total_bytes ≤ st.max_stream_bytes) st.streams
  pub word : st.max_total_bytes < u64_mod

pub new_storage-IsAccounted :
    (total stream : ℕ) → total < u64_mod → IsAccounted (new_storage total stream)
unfolding new_storage
new_storage-IsAccounted total stream h = record {
  unique = tt;
  counted = refl;
  within = omega arith;
  each = tt;
  word = h;
}

-- Storing an entry keeps the counters, if the total moves by what the entry gained.
pub insert-IsAccounted :
    (st : InMemoryStorage) (name : Str) (s' : StreamEntry) (total : ℕ)
    → IsAccounted st
    → total + measure_or_zero entry_bytes (lookup name st.streams) ≡ st.total_bytes + s'.total_bytes
    → total ≤ st.max_total_bytes
    → s'.total_bytes ≤ st.max_stream_bytes
    → IsAccounted (record st { streams = insert name s' st.streams; total_bytes = total })
insert-IsAccounted st name s' total h moved within small = record {
  unique = insert-HasUniqueKeys name s' st.streams h.unique;
  counted = omega (arith, sum_by-insert entry_bytes name s' st.streams, h.counted);
  within = within;
  each =
      AllValues-insert (λ s. s.total_bytes ≤ st.max_stream_bytes) name s' st.streams h.each small;
  word = h.word;
}

module _ {st : InMemoryStorage} (name : Str) {s : StreamEntry} (h : IsAccounted st)
    (found : lookup name st.streams ≡ some s) where
  pub stored_bytes : measure_or_zero entry_bytes (lookup name st.streams) ≡ s.total_bytes
  stored_bytes = ap (measure_or_zero entry_bytes) found

  -- A stored entry's bytes are part of the total.
  pub stored-le : s.total_bytes ≤ st.total_bytes
  stored-le = omega (arith, sum_by-remove entry_bytes name st.streams, stored_bytes, h.counted)

  pub stored_small : s.total_bytes ≤ st.max_stream_bytes
  stored_small =
      AllValues-lookup (λ s. s.total_bytes ≤ st.max_stream_bytes) name st.streams h.each found

  -- An entry of the same size may take the place of the stored one.
  pub same_size-IsAccounted :
      (s' : StreamEntry)
      → s'.total_bytes ≡ s.total_bytes
      → IsAccounted (record st { streams = insert name s' st.streams })
  same_size-IsAccounted s' same =
      insert-IsAccounted st name s' st.total_bytes h (omega (arith, stored_bytes)) h.within
        (omega (arith, stored_small))

  stored-Committed :
      (ms : List Str) → bytes_of ms < u64_mod → Committed st s ms (commit_messages st s ms)
  stored-Committed ms small =
      commit_messages-Committed st s ms small stored-le h.within stored_small h.word

  finish_append-IsAccounted :
      (ms : List Str) (next : NextMetadata) (close : Bool)
      (r : Result StreamEntry × InMemoryStorage)
      → Committed st s ms r
      → IsAccounted (finish_append name s next close r).1
  unfolding finish_append
  finish_append-IsAccounted ms next close r (refused e) = h
  finish_append-IsAccounted ms next close r (done s' total pushed counted within small) =
      insert-IsAccounted st name _ total h (omega (arith, stored_bytes)) within small

  prepared-IsAccounted :
      (ms : List Str) (close : Bool) (r : Result NextMetadata)
      → bytes_of ms < u64_mod
      → IsAccounted (commit_prepared st name s ms close r).1
  unfolding commit_prepared
  prepared-IsAccounted ms close (err e) small = h
  prepared-IsAccounted ms close (ok next) small =
      finish_append-IsAccounted ms next close _ (stored-Committed ms small)

  -- Pruning its producers changes no counter of an entry.
  module _ (pruned : StreamEntry) (same : pruned.total_bytes ≡ s.total_bytes) where
    pruned-Committed :
        (ms : List Str)
        → bytes_of ms < u64_mod
        → Committed st pruned ms (commit_messages st pruned ms)
    pruned-Committed ms small =
        commit_messages-Committed st pruned ms small (omega (arith, stored-le)) h.within
          (omega (arith, stored_small)) h.word

    finish_producer-IsAccounted :
        {V : Type 0} (platform : Platform V) (ms : List Str) (next : NextMetadata)
        (producer : ProducerHeaders) (should_close : Bool) (now : ℕ)
        (r : Result StreamEntry × InMemoryStorage)
        → Committed st pruned ms r
        → IsAccounted (finish_producer platform name pruned next producer should_close now r).1
    unfolding finish_producer
    finish_producer-IsAccounted platform ms next producer should_close now r (refused e) =
        same_size-IsAccounted pruned same
    finish_producer-IsAccounted platform ms next producer should_close now r
          (done s' total pushed counted within small) =
        insert-IsAccounted st name _ total h (omega (arith, stored_bytes)) within small

    producer_checked-IsAccounted :
        {V : Type 0} (platform : Platform V) (ms : List Str) (producer : ProducerHeaders)
        (should_close : Bool) (clock : ℕ → ℕ) (r : Result ProducerAppendPrecheck)
        → bytes_of ms < u64_mod
        → IsAccounted (producer_checked platform st name pruned ms producer should_close clock r).1
    unfolding producer_checked
    producer_checked-IsAccounted platform ms producer should_close clock (err e) small =
        same_size-IsAccounted pruned same
    producer_checked-IsAccounted platform ms producer should_close clock (ok (duplicate_of e q))
          small =
        same_size-IsAccounted pruned same
    producer_checked-IsAccounted platform ms producer should_close clock (ok (accept_with seq))
          small =
        by_metadata
          (apply_append_metadata platform pruned.config pruned.last_seq seq (clock 2) (clock 3))
      where
        by_metadata :
            (r : Result NextMetadata)
            → IsAccounted
                (producer_prepared platform st name pruned ms producer should_close (clock 2) r).1
        by_metadata (err e) = same_size-IsAccounted pruned same
        by_metadata (ok next) =
            finish_producer-IsAccounted platform ms next producer should_close (clock 2) _
              (pruned-Committed ms small)

module _ {V : Type 0} (platform : Platform V) {st : InMemoryStorage} (h : IsAccounted st)
    (name : Str) (ms : List Str) (small : bytes_of ms < u64_mod) where
  found-IsAccounted :
      (o : Option StreamEntry) (content_type : Str) (seq : Option Str) (close : Bool)
      (clock : ℕ → ℕ)
      → lookup name st.streams ≡ o
      → IsAccounted (append_found platform st name o ms content_type seq close clock).1
  unfolding append_found
  found-IsAccounted none content_type seq close clock e = h
  found-IsAccounted (some s) content_type seq close clock e =
      prepared-IsAccounted name h e ms close _ small

  shaped-IsAccounted :
      (content_type : Str) (seq : Option Str) (close : Bool) (clock : ℕ → ℕ) (r : Result (Unit {0}))
      → IsAccounted (append_shaped platform st name ms content_type seq close clock r).1
  unfolding append_shaped get_stream
  shaped-IsAccounted content_type seq close clock (err e) = h
  shaped-IsAccounted content_type seq close clock (ok u) =
      found-IsAccounted (lookup name st.streams) content_type seq close clock refl

  pub append_batch-IsAccounted :
      (content_type : Str) (seq : Option Str) (close : Bool) (clock : ℕ → ℕ)
      → IsAccounted (append_batch platform st name ms content_type seq close clock).1
  unfolding append_batch
  append_batch-IsAccounted content_type seq close clock =
      shaped-IsAccounted content_type seq close clock _

  producer_found-IsAccounted :
      (o : Option StreamEntry) (content_type : Str) (producer : ProducerHeaders) (close : Bool)
      (seq : Option Str) (clock : ℕ → ℕ)
      → lookup name st.streams ≡ o
      → IsAccounted (producer_found platform st name o ms content_type producer close seq clock).1
  unfolding producer_found
  producer_found-IsAccounted none content_type producer close seq clock e = h
  producer_found-IsAccounted (some s) content_type producer close seq clock e =
      producer_checked-IsAccounted name h e _ refl platform ms producer close clock _ small

  pub append_with_producer-IsAccounted :
      (content_type : Str) (producer : ProducerHeaders) (close : Bool) (seq : Option Str)
      (clock : ℕ → ℕ)
      → IsAccounted
          (append_with_producer platform st name ms content_type producer close seq clock).1
  unfolding append_with_producer get_stream
  append_with_producer-IsAccounted content_type producer close seq clock =
      producer_found-IsAccounted (lookup name st.streams) content_type producer close seq clock refl
