-- ===== src/Handlers/Retried.antt =====
-- What a status of 200 says of the store, and a request that is sent again.
use durable_streams_rust.Prelude.{
  ℕ, ◌<◌, ◌≡◌, ◌≢◌, refl, ap, ◌∙◌, Bool, Option, none, some, Str, arith,
}
use durable_streams_rust.Prelude.Dict.{insert}
use durable_streams_rust.Protocol.Error.{Result, ok, err}
use durable_streams_rust.Protocol.Offset.{Offset}
use durable_streams_rust.Protocol.Producer.{ProducerHeaders}
use durable_streams_rust.Storage.Platform.{Platform}
use durable_streams_rust.Storage.Types.{AppendResult, ProducerAppendResult, accepted, duplicate}
use durable_streams_rust.Storage.Access.{check_stream_access}
use durable_streams_rust.Storage.Shared.{producer_state_ttl_secs, cleanup_stale_producers}
use durable_streams_rust.Storage.Memory.Entry.{StreamEntry, InMemoryStorage, get_stream}
use durable_streams_rust.Storage.Memory.Append.{append_with_producer}
use durable_streams_rust.Storage.Memory.Retry.{repeated-duplicate}
use durable_streams_rust.Handlers.Problem.{Answer, answer_status, of_error, status_code}
use durable_streams_rust.Handlers.Post.{
  PostRequest, PostAppend, batch_answer, producer_append_answer, post_append, run_append,
  append_request, append_data,
}
use durable_streams_rust.Handlers.Status.{
  status_code_bounds, failed_status, duplicate_status, batch_ok_status, batch_failed_status,
}

-- The outcome of the storage behind a status of 200.
abbrev WasAccepted : Result ProducerAppendResult × InMemoryStorage → InMemoryStorage → Type 0
WasAccepted r st' =
    (epoch : ℕ) × (last : ℕ) × (offset : Offset) × (closed : Bool) × (r
      ≡ (ok (accepted epoch last offset closed), st'))

producer_accepted :
    (name : Str) (p : ProducerHeaders) (close_only : Bool) (now : ℕ)
    (r : Result ProducerAppendResult × InMemoryStorage)
    → answer_status (producer_append_answer name p close_only now r).0 ≡ 200
    → WasAccepted r (producer_append_answer name p close_only now r).1
unfolding producer_append_answer
producer_accepted name p close_only now (ok (accepted epoch last offset closed), st) h =
    (epoch, last, offset, closed, refl)
producer_accepted name p close_only now (ok (duplicate epoch last offset closed), st) h =
    absurd (omega (arith, duplicate_status name p close_only now st epoch last offset closed, h))
producer_accepted name p close_only now (err e, st) h =
    absurd (omega (arith, failed_status name p close_only now st e, h))

batch_not_accepted :
    (name : Str) (now : ℕ) (r : Result AppendResult × InMemoryStorage)
    → answer_status (batch_answer name now r).0 ≢ 200
batch_not_accepted name now (ok result, st) h = omega (arith, batch_ok_status name now st result, h)
batch_not_accepted name now (err e, st) h = omega (arith, batch_failed_status name now st e, h)

module _ {V : Type 0} (platform : Platform V) (name : Str) where
  -- What a request that answered 200 asked of the storage, and what that did.
  abbrev Accepted : InMemoryStorage → PostAppend → (ℕ → ℕ) → InMemoryStorage → Type 0
  Accepted st a clock st' =
      (p : ProducerHeaders) × (a.producer ≡ some p)
      × WasAccepted
          (append_with_producer platform st name a.messages a.content_type p a.should_close a.seq
            clock)
          st'

  run-Accepted :
      (st : InMemoryStorage) (a : PostAppend) (producer : Option ProducerHeaders) (clock : ℕ → ℕ)
      (now : ℕ)
      → a.producer ≡ producer
      → answer_status (run_append platform st name a producer clock now).0 ≡ 200
      → Accepted st a clock (run_append platform st name a producer clock now).1
  unfolding run_append
  run-Accepted st a (some p) clock now e h =
      (p, e, producer_accepted name p a.is_close_only now _ h)
  run-Accepted st a none clock now e h = absurd (batch_not_accepted name now _ h)

  request-Accepted :
      (st : InMemoryStorage) (clock : ℕ → ℕ) (now : ℕ) (r : Result PostAppend)
      → answer_status (append_request platform st name clock now r).0 ≡ 200
      → (a : PostAppend) × (r ≡ ok a)
        × Accepted st a clock (append_request platform st name clock now r).1
  unfolding append_request of_error answer_status status_code
  request-Accepted st clock now (err e) h = absurd (omega (arith, status_code_bounds e, h))
  request-Accepted st clock now (ok a) h = (a, refl, run-Accepted st a a.producer clock now refl h)

-- A POST that answered 200 and is sent again answers 204 and stores no message: of the store, only
-- stale producers of the stream change. The stream is accessible then, and the producer's record is
-- not stale.
pub append_data-retry :
    {V : Type 0} (platform : Platform V) (st : InMemoryStorage) (name : Str) (request : PostRequest)
    (clock clock' : ℕ → ℕ) (now now' : ℕ) (s : StreamEntry)
    → let first = append_data platform st name request clock now in
      answer_status first.0 ≡ 200
      → get_stream first.1 name ≡ some s
      → check_stream_access s.config s.state name (clock' 0) ≡ ok tt
      → platform.minus_seconds (clock' 1) producer_state_ttl_secs < clock 2
      → let second = append_data platform first.1 name request clock' now' in
        (answer_status second.0 ≡ 204)
        × (second.1 ≡ record first.1 {
          streams =
              insert name
                (record s { producers = cleanup_stale_producers platform s.producers (clock' 1) })
                first.1.streams;
        })
unfolding append_data append_request run_append producer_append_answer
append_data-retry platform st name request clock clock' now now' s h found access recent =
    let before = request-Accepted platform name st clock now (post_append platform request) h in
    let a = before.0 in
    let p = before.2.0 in
    let (epoch, last, offset, closed, done) = before.2.2 in
    let st' = (append_data platform st name request clock now).1 in
    let again =
      repeated-duplicate platform st name a.messages a.content_type p a.should_close a.seq clock
        clock' epoch last offset closed st' s done found access recent in
    let e =
      ap (λ (r : Result PostAppend). append_request platform st' name clock' now' r) before.1
      ∙ ap (λ (o : Option ProducerHeaders). run_append platform st' name a o clock' now') before.2.1
      ∙ ap
          (λ (r : Result ProducerAppendResult × InMemoryStorage).
            producer_append_answer name p a.is_close_only now' r)
          again in
    let pruned = record st' {
      streams =
          insert name
            (record s { producers = cleanup_stale_producers platform s.producers (clock' 1) })
            st'.streams;
    } in
    (
      ap (λ (x : Answer × InMemoryStorage). answer_status x.0) e
          ∙ duplicate_status name p a.is_close_only now' pruned epoch last offset closed,
      ap (λ (x : Answer × InMemoryStorage). x.1) e,
    )
