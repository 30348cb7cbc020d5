-- ===== src/Storage/Memory/Retry.antt =====
-- storage/memory.rs: a producer that repeats an accepted append is told that it is a duplicate.
use durable_streams_rust.Prelude.{
  ℕ, ◌<◌, ◌≡◌, refl, sym, ◌∙◌, subst, Bool, Option, none, some, List, Str, str_eq_refl, arith,
}
use durable_streams_rust.Prelude.Dict.{Dict, lookup, insert, lookup-insert}
use durable_streams_rust.Protocol.Error.{Result, ok, err}
use durable_streams_rust.Protocol.Offset.{Offset}
use durable_streams_rust.Protocol.Producer.{ProducerHeaders}
use durable_streams_rust.Storage.Platform.{Platform}
use durable_streams_rust.Storage.Types.{ProducerAppendResult, accepted, duplicate}
use durable_streams_rust.Storage.Access.{check_stream_access}
use durable_streams_rust.Storage.Shared.{
  ProducerAppendPrecheck, accept_with, duplicate_of, check_messages_type, producer_state_ttl_secs,
  cleanup_stale_producers, precheck_accessed, precheck_producer_append,
}
use durable_streams_rust.Storage.Shared.Sequencing.{
  Covered, lookup-retain_after, apply_append_metadata-content_type, accessed-typed,
  sequence-Covered,
}
use durable_streams_rust.Storage.Memory.Entry.{
  StreamEntry, InMemoryStorage, get_stream, tail_offset,
}
use durable_streams_rust.Storage.Memory.Append.{
  NextMetadata, finish_producer, producer_prepared, producer_checked, producer_found,
  append_with_producer,
}

pub lookup-insert_self {ℓ} :
    {T : Type ℓ} (k : Str) (v : T) (m : Dict T) → lookup k (insert k v m) ≡ some v
lookup-insert_self k v m = lookup-insert k k v m ∙ rw (str_eq_refl k) refl

-- What an entry keeps of an accepted append.
pub record Remembers (ms : List Str) (ct : Str) (p : ProducerHeaders) (now : ℕ) (s : StreamEntry)
    : Type 0 where
  pub recorded :
      lookup p.id s.producers
      ≡ some (record { epoch = p.epoch; last_seq = p.seq; updated_at = now })
  pub typed : check_messages_type ms s.config.content_type ct ≡ ok tt

module _ (name : Str) (ms : List Str) (ct : Str) (p : ProducerHeaders) (now : ℕ) where
  -- An accepted append is remembered by the entry that it leaves.
  abbrev Remembered : Result ProducerAppendResult × InMemoryStorage → Type 0
  Remembered (err e, st) = Unit
  Remembered (ok (duplicate epoch seq offset closed), st) = Unit
  Remembered (ok (accepted epoch seq offset closed), st) =
      (s : StreamEntry) × (get_stream st name ≡ some s)
      × Remembers ms ct p now s
      × (epoch ≡ p.epoch)
      × (seq ≡ p.seq)
      × (offset ≡ tail_offset s)
      × (closed ≡ s.closed)

  finish_producer-Remembered :
      {V : Type 0} (platform : Platform V) (pruned : StreamEntry) (next : NextMetadata)
      (close : Bool) (r : Result StreamEntry × InMemoryStorage)
      → check_messages_type ms next.0.content_type ct ≡ ok tt
      → Remembered (finish_producer platform name pruned next p close now r)
  unfolding finish_producer get_stream
  finish_producer-Remembered platform pruned next close (err e, st) h = tt
  finish_producer-Remembered platform pruned next close (ok s, st) h = (
    _,
    lookup-insert_self name _ st.streams,
    record { recorded = lookup-insert_self p.id _ s.producers; typed = h },
    refl,
    refl,
    refl,
    refl,
  )

module _ {V : Type 0} (platform : Platform V) (st : InMemoryStorage) (name : Str) (ms : List Str)
    (ct : Str) (p : ProducerHeaders) (close : Bool) (seq : Option Str) (clock : ℕ → ℕ) where
  prepared-Remembered :
      (pruned : StreamEntry) (r : Result NextMetadata)
      → ((next : NextMetadata)
          → r ≡ ok next
          → check_messages_type ms next.0.content_type ct ≡ ok tt)
      → Remembered name ms ct p
          (clock 2)
          (producer_prepared platform st name pruned ms p close (clock 2) r)
  unfolding producer_prepared
  prepared-Remembered pruned (err e) h = tt
  prepared-Remembered pruned (ok next) h =
      finish_producer-Remembered name ms ct p (clock 2) platform pruned next close _ (h next refl)

  checked-Remembered :
      (pruned : StreamEntry) (r : Result ProducerAppendPrecheck)
      → ((x : ProducerAppendPrecheck)
          → r ≡ ok x
          → check_messages_type ms pruned.config.content_type ct ≡ ok tt)
      → Remembered name ms ct p
          (clock 2)
          (producer_checked platform st name pruned ms p close clock r)
  unfolding producer_checked
  checked-Remembered pruned (err e) h = tt
  checked-Remembered pruned (ok (duplicate_of e q)) h = tt
  checked-Remembered pruned (ok (accept_with pending)) h = prepared-Remembered pruned _ (λ next e.
      subst (λ t. check_messages_type ms t ct ≡ ok tt)
        (sym (
          apply_append_metadata-content_type platform pruned.config pruned.last_seq pending
            (clock 2) (clock 3) e))
        (h _ refl))

  found-Remembered :
      (o : Option StreamEntry)
      → Remembered name ms ct p
          (clock 2)
          (producer_found platform st name o ms ct p close seq clock)
  unfolding producer_found precheck_producer_append
  found-Remembered none = tt
  found-Remembered (some s) = checked-Remembered _ _ (λ x e.
      accessed-typed platform s.config s.closed s.last_seq s.producers ct p ms seq (clock 1) _ e)

  append_with_producer-Remembered :
      Remembered name ms ct p
        (clock 2)
        (append_with_producer platform st name ms ct p close seq clock)
  unfolding append_with_producer
  append_with_producer-Remembered = found-Remembered (get_stream st name)

module _ {V : Type 0} (platform : Platform V) (st : InMemoryStorage) (name : Str) (ms : List Str)
    (ct : Str) (p : ProducerHeaders) (close : Bool) (seq : Option Str) (clock : ℕ → ℕ) where
  -- On an entry that remembers the append, the call reports it and stores only the pruning.
  remembered-duplicate :
      (s : StreamEntry) (now : ℕ)
      → Remembers ms ct p now s
      → check_stream_access s.config s.state name (clock 0) ≡ ok tt
      → platform.minus_seconds (clock 1) producer_state_ttl_secs < now
      → producer_found platform st name (some s) ms ct p close seq clock ≡ (
        ok (duplicate p.epoch p.seq (tail_offset s) s.closed),
        record st {
          streams =
              insert name
                (record s { producers = cleanup_stale_producers platform s.producers (clock 1) })
                st.streams;
        },
      )
  unfolding producer_found precheck_producer_append precheck_accessed producer_checked
  remembered-duplicate s now h access recent =
      let kept : lookup p.id (cleanup_stale_producers platform s.producers (clock 1))
          ≡ some (record { epoch = p.epoch; last_seq = p.seq; updated_at = now }) =
        unfold cleanup_stale_producers in
        (lookup-retain_after _ p.id s.producers h.recorded recent) in
      rw
        (
          access,
          sequence-Covered platform s.config s.closed s.last_seq
              (cleanup_stale_producers platform s.producers (clock 1)) ct p ms seq p.epoch p.seq
              h.typed
              (subst (λ o. Covered o p p.epoch p.seq) (sym kept) (refl, omega arith, refl, refl)),
        )
        refl

-- A producer that repeats an accepted append, while the stream is accessible and the producer's
-- record is not stale, is told that it is a duplicate, with the epoch, the sequence number, the tail
-- and the closed flag of the accepted append. Of the store, only stale producers of the stream change.
pub repeated-duplicate :
    {V : Type 0} (platform : Platform V) (st : InMemoryStorage) (name : Str) (ms : List Str)
    (ct : Str) (p : ProducerHeaders) (close : Bool) (seq : Option Str) (clock clock' : ℕ → ℕ)
    (epoch last : ℕ) (offset : Offset) (closed : Bool) (st' : InMemoryStorage) (s : StreamEntry)
    → append_with_producer platform st name ms ct p close seq clock
      ≡ (ok (accepted epoch last offset closed), st')
    → get_stream st' name ≡ some s
    → check_stream_access s.config s.state name (clock' 0) ≡ ok tt
    → platform.minus_seconds (clock' 1) producer_state_ttl_secs < clock 2
    → append_with_producer platform st' name ms ct p close seq clock' ≡ (
      ok (duplicate epoch last offset closed),
      record st' {
        streams =
            insert name
              (record s { producers = cleanup_stale_producers platform s.producers (clock' 1) })
              st'.streams;
      },
    )
unfolding append_with_producer
repeated-duplicate platform st name ms ct p close seq clock clock' epoch last offset closed st' s h
      found access recent =
    let (kept, at, remembers, same_epoch, same_seq, same_offset, same_closed) =
      subst (Remembered name ms ct p (clock 2)) h
        (append_with_producer-Remembered platform st name ms ct p close seq clock) in
    let same : kept ≡ s = cc in
    rw (found, same_epoch, same_seq, same_offset, same_closed, same)
      (remembered-duplicate platform st' name ms ct p close seq clock' s (clock 2)
        (subst (Remembers ms ct p (clock 2)) same remembers) access recent)
