-- ===== src/Storage/Memory/Atomicity.antt =====
-- storage/memory.rs: a failed append changes nothing.
use durable_streams_rust.Prelude.{
  ℕ, ◌⊎◌, inl, inr, ◌<◌, ◌≡◌, refl, Bool, Option, none, some, List, Str, u64_mod,
}
use durable_streams_rust.Prelude.Dict.{Dict, lookup, insert}
use durable_streams_rust.Protocol.Error.{Result, ok, err}
use durable_streams_rust.Protocol.Producer.{ProducerHeaders}
use durable_streams_rust.Storage.Platform.{Platform}
use durable_streams_rust.Storage.Types.{AppendResult, ProducerAppendResult}
use durable_streams_rust.Storage.Shared.{
  ProducerState, ProducerAppendPrecheck, accept_with, duplicate_of, validate_batch_shape,
}
use durable_streams_rust.Storage.Memory.Entry.{StreamEntry, InMemoryStorage, get_stream}
use durable_streams_rust.Storage.Memory.Append.{
  NextMetadata, finish_append, commit_prepared, append_found, append_shaped, append_batch,
  finish_producer, producer_prepared, producer_checked, producer_found, append_with_producer,
}
use durable_streams_rust.Storage.Memory.Commit.{
  bytes_of, Committed, done, refused, commit_messages-Committed,
}
use durable_streams_rust.Storage.Memory.Accounting.{IsAccounted, stored-le, stored_small}

-- A failure leaves the store as it was.
abbrev pub FailsUnchanged : InMemoryStorage → Result AppendResult × InMemoryStorage → Type 0
FailsUnchanged st (err e, st') = st' ≡ st
FailsUnchanged st (ok r, st') = Unit

-- A failure leaves the store as it was, but for the producers of the stream.
abbrev pub FailsPruned :
    InMemoryStorage → Str → Result ProducerAppendResult × InMemoryStorage → Type 0
FailsPruned st name (ok r, st') = Unit
FailsPruned st name (err e, st') =
    (st' ≡ st)
    ⊎ ((s : StreamEntry) × (producers : Dict ProducerState) × (get_stream st name ≡ some s)
        × (st'
            ≡ record st { streams = insert name (record s { producers = producers }) st.streams }))

module _ {V : Type 0} (platform : Platform V) {st : InMemoryStorage} (h : IsAccounted st)
    (name : Str) (ms : List Str) (small : bytes_of ms < u64_mod) where
  finish_append-FailsUnchanged :
      (s : StreamEntry) (next : NextMetadata) (close : Bool)
      (r : Result StreamEntry × InMemoryStorage)
      → Committed st s ms r
      → FailsUnchanged st (finish_append name s next close r)
  unfolding finish_append
  finish_append-FailsUnchanged s next close r (refused e) = refl
  finish_append-FailsUnchanged s next close r (done s' total pushed counted within fits) = tt

  prepared-FailsUnchanged :
      (s : StreamEntry) (close : Bool) (r : Result NextMetadata)
      → lookup name st.streams ≡ some s
      → FailsUnchanged st (commit_prepared st name s ms close r)
  unfolding commit_prepared
  prepared-FailsUnchanged s close (err e) found = refl
  prepared-FailsUnchanged s close (ok next) found = finish_append-FailsUnchanged s next close _ (
      commit_messages-Committed st s ms small (stored-le name h found) h.within
        (stored_small name h found) h.word)

  found-FailsUnchanged :
      (o : Option StreamEntry) (ct : Str) (seq : Option Str) (close : Bool) (clock : ℕ → ℕ)
      → lookup name st.streams ≡ o
      → FailsUnchanged st (append_found platform st name o ms ct seq close clock)
  unfolding append_found
  found-FailsUnchanged none ct seq close clock e = refl
  found-FailsUnchanged (some s) ct seq close clock e = prepared-FailsUnchanged s close _ e

  shaped-FailsUnchanged :
      (ct : Str) (seq : Option Str) (close : Bool) (clock : ℕ → ℕ) (r : Result (Unit {0}))
      → FailsUnchanged st (append_shaped platform st name ms ct seq close clock r)
  unfolding append_shaped get_stream
  shaped-FailsUnchanged ct seq close clock (err e) = refl
  shaped-FailsUnchanged ct seq close clock (ok u) =
      found-FailsUnchanged (lookup name st.streams) ct seq close clock refl

  finish_producer-FailsPruned :
      (s : StreamEntry) (producers : Dict ProducerState) (next : NextMetadata) (p : ProducerHeaders)
      (close : Bool) (now : ℕ) (r : Result StreamEntry × InMemoryStorage)
      → lookup name st.streams ≡ some s
      → Committed st (record s { producers = producers }) ms r
      → FailsPruned st name
          (finish_producer platform name (record s { producers = producers }) next p close now r)
  unfolding finish_producer get_stream
  finish_producer-FailsPruned s producers next p close now r found (refused e) =
      inr (s, producers, found, refl)
  finish_producer-FailsPruned s producers next p close now r found
        (done s' total pushed counted within fits) =
      tt

  producer_prepared-FailsPruned :
      (s : StreamEntry) (producers : Dict ProducerState) (p : ProducerHeaders) (close : Bool)
      (now : ℕ) (r : Result NextMetadata)
      → lookup name st.streams ≡ some s
      → FailsPruned st name
          (producer_prepared platform st name (record s { producers = producers }) ms p close now r)
  unfolding producer_prepared get_stream
  producer_prepared-FailsPruned s producers p close now (err e) found =
      inr (s, producers, found, refl)
  producer_prepared-FailsPruned s producers p close now (ok next) found =
      finish_producer-FailsPruned s producers next p close now _ found (
        commit_messages-Committed st _ ms small (stored-le name h found) h.within
          (stored_small name h found) h.word)

  producer_checked-FailsPruned :
      (s : StreamEntry) (producers : Dict ProducerState) (p : ProducerHeaders) (close : Bool)
      (clock : ℕ → ℕ) (r : Result ProducerAppendPrecheck)
      → lookup name st.streams ≡ some s
      → FailsPruned st name (
          producer_checked platform st name (record s { producers = producers }) ms p close clock r)
  unfolding producer_checked get_stream
  producer_checked-FailsPruned s producers p close clock (err e) found =
      inr (s, producers, found, refl)
  producer_checked-FailsPruned s producers p close clock (ok (duplicate_of e q)) found = tt
  producer_checked-FailsPruned s producers p close clock (ok (accept_with pending)) found =
      producer_prepared-FailsPruned s producers p close (clock 2) _ found

  producer_found-FailsPruned :
      (o : Option StreamEntry) (ct : Str) (p : ProducerHeaders) (close : Bool) (seq : Option Str)
      (clock : ℕ → ℕ)
      → lookup name st.streams ≡ o
      → FailsPruned st name (producer_found platform st name o ms ct p close seq clock)
  unfolding producer_found
  producer_found-FailsPruned none ct p close seq clock e = inl refl
  producer_found-FailsPruned (some s) ct p close seq clock e =
      producer_checked-FailsPruned s _ p close clock _ e

-- A failed append of a batch leaves the whole store as it was, reservations included, in a store with
-- consistent counters.
pub append_batch-FailsUnchanged :
    {V : Type 0} (platform : Platform V) (st : InMemoryStorage) (name : Str) (ms : List Str)
    (ct : Str) (seq : Option Str) (close : Bool) (clock : ℕ → ℕ)
    → IsAccounted st
    → bytes_of ms < u64_mod
    → FailsUnchanged st (append_batch platform st name ms ct seq close clock)
unfolding append_batch
append_batch-FailsUnchanged platform st name ms ct seq close clock h small =
    shaped-FailsUnchanged platform h name ms small ct seq close clock
      (validate_batch_shape ms close)

-- A failed append of a producer leaves the whole store as it was, but for the producers of the stream,
-- in a store with consistent counters.
pub append_with_producer-FailsPruned :
    {V : Type 0} (platform : Platform V) (st : InMemoryStorage) (name : Str) (ms : List Str)
    (ct : Str) (p : ProducerHeaders) (close : Bool) (seq : Option Str) (clock : ℕ → ℕ)
    → IsAccounted st
    → bytes_of ms < u64_mod
    → FailsPruned st name (append_with_producer platform st name ms ct p close seq clock)
unfolding append_with_producer get_stream
append_with_producer-FailsPruned platform st name ms ct p close seq clock h small =
    producer_found-FailsPruned platform h name ms small (lookup name st.streams) ct p close seq
      clock refl
