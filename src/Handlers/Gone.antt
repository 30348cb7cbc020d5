-- ===== src/Handlers/Gone.antt =====
-- What HEAD answers after DELETE.
use durable_streams_rust.Prelude.{
  ℕ, ◌≡◌, inl, inr, refl, Bool-cases, some, Str, ◌==◌, if◌then◌else◌, arith,
}
use durable_streams_rust.Prelude.Dict.{HasUniqueKeys}
use durable_streams_rust.Protocol.Error.{Result, ok, err}
use durable_streams_rust.Storage.Memory.Entry.{StreamEntry, InMemoryStorage, get_stream}
use durable_streams_rust.Storage.Memory.Delete.{delete}
use durable_streams_rust.Storage.Memory.Deletion.{delete-head, deleted_error}
use durable_streams_rust.Handlers.Problem.{
  answer_status, of_error, status_code, problem_definition, define,
}
use durable_streams_rust.Handlers.Delete.{delete_stream, delete_answer}
use durable_streams_rust.Handlers.Head.{stream_metadata, metadata_answer}
use durable_streams_rust.Handlers.Status.{status_code_bounds}

-- Only a deletion that succeeds answers 204.
delete_answer_done :
    (r : Result (Unit {0})) (st : InMemoryStorage)
    → answer_status (delete_answer (r, st)).0 ≡ 204
    → r ≡ ok tt
unfolding delete_answer of_error answer_status status_code
delete_answer_done (ok done) st h = refl
delete_answer_done (err e) st h = absurd (omega (arith, status_code_bounds e, h))

delete_answer_store :
    (r : Result (Unit {0})) (st : InMemoryStorage) → (delete_answer (r, st)).1 ≡ st
unfolding delete_answer
delete_answer_store (ok done) st = refl
delete_answer_store (err e) st = refl

deleted_status :
    (name : Str) (n : ℕ)
    → answer_status (of_error (deleted_error name n)) ≡ (if n == 0 then 404 else 410)
unfolding of_error answer_status problem_definition define
deleted_status name n = elim (Bool-cases (n == 0)) [ inl e ↦ rw (e) refl | inr e ↦ rw (e) refl ]

-- After a DELETE of a stream that answers 204, HEAD answers 404 at every later instant, or 410 where
-- forks still need the stream. Each name stands once in the store.
pub delete_stream-gone :
    (to_rfc3339 : ℕ → Str) (st : InMemoryStorage) (name : Str) (s : StreamEntry) (now now' : ℕ)
    → HasUniqueKeys st.streams
    → get_stream st name ≡ some s
    → answer_status (delete_stream st name).0 ≡ 204
    → answer_status (stream_metadata to_rfc3339 (delete_stream st name).1 name now now')
      ≡ (if s.ref_count == 0 then 404 else 410)
unfolding delete_stream stream_metadata metadata_answer
delete_stream-gone to_rfc3339 st name s now now' unique found h =
    rw
      (
        delete_answer_store (delete st name).0 (delete st name).1,
        delete-head st name s now unique found (delete_answer_done (delete st name).0 _ h),
      )
      (deleted_status name s.ref_count)
