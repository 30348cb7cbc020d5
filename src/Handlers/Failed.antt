-- ===== src/Handlers/Failed.antt =====
-- What a failed append over HTTP leaves of the store.
use durable_streams_rust.Prelude.{
  ℕ, ◌≤◌, ◌<◌, ◌≡◌, refl, sym, ◌∙◌, subst, Bool, true, false, Option, none, some, Str, u64_mod, ◌⊎◌,
  inl, arith, if◌then◌else◌,
}
use durable_streams_rust.Prelude.Dict.{Dict, insert}
use durable_streams_rust.Protocol.Error.{Result, ok, err}
use durable_streams_rust.Protocol.Producer.{ProducerHeaders}
use durable_streams_rust.Storage.Platform.{Platform}
use durable_streams_rust.Storage.Types.{AppendResult, ProducerAppendResult, accepted, duplicate}
use durable_streams_rust.Storage.Shared.{ProducerState}
use durable_streams_rust.Storage.Memory.Entry.{StreamEntry, InMemoryStorage, get_stream}
use durable_streams_rust.Handlers.Problem.{answer_status}
use durable_streams_rust.Handlers.Post.{
  PostRequest, PostAppend, batch_answer, producer_append_answer, post_append, run_append,
  append_request, append_data,
}
use durable_streams_rust.Storage.Memory.Accounting.{IsAccounted}
use durable_streams_rust.Storage.Memory.Commit.{bytes_of}
use durable_streams_rust.Storage.Memory.Atomicity.{
  FailsUnchanged, FailsPruned, append_batch-FailsUnchanged, append_with_producer-FailsPruned,
}
use durable_streams_rust.Handlers.Status.{
  failed_store, accepted_status, duplicate_status, batch_ok_status, batch_failed_store,
}

-- What a failure leaves: the store as it was, but for the producers of the stream.
unfoldable pub IsUnharmed : InMemoryStorage → Str → InMemoryStorage → Type 0
IsUnharmed st name st' =
    (st' ≡ st)
    ⊎ ((s : StreamEntry) × (producers : Dict ProducerState) × (get_stream st name ≡ some s)
        × (st'
            ≡ record st { streams = insert name (record s { producers = producers }) st.streams }))

producer-IsUnharmed :
    (st : InMemoryStorage) (name : Str) (p : ProducerHeaders) (close_only : Bool) (now : ℕ)
    (r : Result ProducerAppendResult × InMemoryStorage)
    → FailsPruned st name r
    → 400 ≤ answer_status (producer_append_answer name p close_only now r).0
    → IsUnharmed st name (producer_append_answer name p close_only now r).1
unfolding IsUnharmed
producer-IsUnharmed st name p close_only now (ok (accepted epoch last offset closed), st') f h =
    absurd (below close_only (accepted_status name p close_only now st' epoch last offset closed))
  where
    below :
        (b : Bool)
        → answer_status
            (producer_append_answer name p close_only now
              (ok (accepted epoch last offset closed), st')).0
          ≡ (if b then 204 else 200)
        → ⊥
    below true e = omega (arith, e, h)
    below false e = omega (arith, e, h)
producer-IsUnharmed st name p close_only now (ok (duplicate epoch last offset closed), st') f h =
    absurd (omega (arith, duplicate_status name p close_only now st' epoch last offset closed, h))
producer-IsUnharmed st name p close_only now (err e, st') f h =
    subst (λ (t : InMemoryStorage). IsUnharmed st name t)
      (sym (failed_store name p close_only now st' e)) f

batch-IsUnharmed :
    (st : InMemoryStorage) (name : Str) (now : ℕ) (r : Result AppendResult × InMemoryStorage)
    → FailsUnchanged st r
    → 400 ≤ answer_status (batch_answer name now r).0
    → IsUnharmed st name (batch_answer name now r).1
unfolding IsUnharmed
batch-IsUnharmed st name now (ok result, st') f h =
    absurd (omega (arith, batch_ok_status name now st' result, h))
batch-IsUnharmed st name now (err e, st') f h = inl (batch_failed_store name now st' e ∙ f)

-- A POST that answers with an error status leaves the whole store as it was, but for the producers
-- of the stream. The store's counters are consistent, and the bytes of the messages fit 64 bits.
pub append_data-IsUnharmed :
    {V : Type 0} (platform : Platform V) (st : InMemoryStorage) (name : Str) (request : PostRequest)
    (clock : ℕ → ℕ) (now : ℕ)
    → IsAccounted st
    → ((a : PostAppend) → post_append platform request ≡ ok a → bytes_of a.messages < u64_mod)
    → 400 ≤ answer_status (append_data platform st name request clock now).0
    → IsUnharmed st name (append_data platform st name request clock now).1
unfolding append_data append_request run_append IsUnharmed
append_data-IsUnharmed platform st name request clock now counted small h =
    of_request (post_append platform request) small h
  where
    of_run :
        (a : PostAppend) (producer : Option ProducerHeaders)
        → bytes_of a.messages < u64_mod
        → 400 ≤ answer_status (run_append platform st name a producer clock now).0
        → IsUnharmed st name (run_append platform st name a producer clock now).1
    of_run a none fits h =
        batch-IsUnharmed st name now _
          (append_batch-FailsUnchanged platform st name a.messages a.content_type a.seq
            a.should_close clock counted fits)
          h
    of_run a (some p) fits h =
        producer-IsUnharmed st name p a.is_close_only now _
          (append_with_producer-FailsPruned platform st name a.messages a.content_type p
            a.should_close a.seq clock counted fits)
          h

    of_request :
        (r : Result PostAppend)
        → ((a : PostAppend) → r ≡ ok a → bytes_of a.messages < u64_mod)
        → 400 ≤ answer_status (append_request platform st name clock now r).0
        → IsUnharmed st name (append_request platform st name clock now r).1
    of_request (err e) fits h = inl refl
    of_request (ok a) fits h = of_run a a.producer (fits a refl) h
