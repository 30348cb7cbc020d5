-- ===== src/Storage/Memory/Refusal.antt =====
-- storage/memory.rs: which appends to a closed stream the checks refuse, and what a commit leaves alone.
use durable_streams_rust.Prelude.{
  ℕ, ◌≡◌, refl, sym, subst, Bool, true, Option, none, some, List, [], ◌∷◌, Str, arith,
}
use durable_streams_rust.Protocol.Error.{Error, Result, ok, err, ◌>>=◌, ◌>>◌, stream_closed}
use durable_streams_rust.Protocol.Producer.{ProducerHeaders}
use durable_streams_rust.Storage.Platform.{Platform}
use durable_streams_rust.Storage.Shared.{
  ProducerState, ProducerCheck, accept, duplicate, check_producer, after_check, check_messages_type,
  producer_sequence, precheck_accessed, precheck_producer_append, ProducerAppendPrecheck,
  accept_with, duplicate_of, precheck_batch_append, precheck_append,
}
use durable_streams_rust.Storage.Access.{check_stream_access}
use durable_streams_rust.Storage.Memory.Entry.{
  StreamEntry, InMemoryStorage, commit_reserved, commit_messages,
}
use durable_streams_rust.Storage.Memory.Append.{NextMetadata, prepare_append}

-- The reservation leaves the streams alone.
streams-commit_reserved :
    (st : InMemoryStorage) (s : StreamEntry) (ms : List Str) (batch : ℕ) (r : Result ℕ)
    → (commit_reserved st s ms batch r).1.streams ≡ st.streams
unfolding commit_reserved
streams-commit_reserved st s ms batch (err e) = refl
streams-commit_reserved st s ms batch (ok total) = ground arith

pub streams-commit_messages :
    (st : InMemoryStorage) (s : StreamEntry) (ms : List Str)
    → (commit_messages st s ms).1.streams ≡ st.streams
unfolding commit_messages
streams-commit_messages st s [] = refl
streams-commit_messages st s (m ∷ ms) = streams-commit_reserved st s (m ∷ ms) _ _

pub ok_eq : {s s' : StreamEntry} → ◌≡◌ {A = Result StreamEntry} (ok s) (ok s') → s ≡ s'
ok_eq q = cc

pub err-ok : {e : Error} {n : NextMetadata} → ◌≡◌ {A = Result NextMetadata} (err e) (ok n) → ⊥
err-ok q = cc

-- No producer's append goes through.
abbrev pub NotAccepted : Result ProducerAppendPrecheck → Type 0
NotAccepted (err e) = Unit
NotAccepted (ok (duplicate_of epoch seq)) = Unit
NotAccepted (ok (accept_with pending)) = ⊥

check_producer-closed :
    (o : Option ProducerState) (p : ProducerHeaders) → check_producer o p true ≡ ok accept → ⊥
unfolding check_producer
check_producer-closed none p h = ground arith
check_producer-closed (some s) p h = ground arith

after_check-NotAccepted :
    (typed : Result (Unit {0})) (checked : Result ProducerCheck) (last new : Option Str)
    → (checked ≡ ok accept → ⊥)
    → NotAccepted (typed >> (checked >>= λ c. after_check last new c))
unfolding after_check
after_check-NotAccepted (err e) checked last new h = tt
after_check-NotAccepted (ok u) (err e) last new h = tt
after_check-NotAccepted (ok u) (ok (duplicate epoch seq)) last new h = tt
after_check-NotAccepted (ok u) (ok accept) last new h = absurd (h refl)

module _ {V : Type 0} (platform : Platform V) where
  pub precheck-NotAccepted :
      (s : StreamEntry) (k ct : Str) (p : ProducerHeaders) (ms : List Str) (seq : Option Str)
      (now now' : ℕ)
      → s.closed ≡ true
      → NotAccepted
          (precheck_producer_append platform s.config s.state s.closed s.last_seq s.producers k ct p
            ms seq now now').0
  unfolding precheck_producer_append precheck_accessed producer_sequence
  precheck-NotAccepted s k ct p ms seq now now' closed =
      subst
        (λ (b : Bool).
          NotAccepted
            (precheck_producer_append platform s.config s.state b s.last_seq s.producers k ct p ms
              seq now now').0)
        (sym closed) (accessed (check_stream_access s.config s.state k now))
    where
      accessed :
          (r : Result (Unit {0}))
          → NotAccepted
              (precheck_accessed platform s.config true s.last_seq s.producers ct p ms seq now' r).0
      accessed (err e) = tt
      accessed (ok u) =
          after_check-NotAccepted (check_messages_type ms s.config.content_type ct)
            (check_producer _ p true) s.last_seq seq (check_producer-closed _ p)

  -- A batch with messages does not pass the checks.
  pub prepare_append-closed :
      (s : StreamEntry) (k m ct : Str) (ms : List Str) (seq : Option Str) (clock : ℕ → ℕ)
      → s.closed ≡ true
      → (e : Error) × (prepare_append platform s k (m ∷ ms) ct seq clock ≡ err e)
  unfolding prepare_append precheck_batch_append precheck_append
  prepare_append-closed s k m ct ms seq clock closed =
      refused (check_stream_access s.config s.state k (clock 0)) refl
    where
      refused :
          (r : Result (Unit {0}))
          → check_stream_access s.config s.state k (clock 0) ≡ r
          → (e : Error) × (prepare_append platform s k (m ∷ ms) ct seq clock ≡ err e)
      refused (err e) h = (e, rw h refl)
      refused (ok u) h = (stream_closed, rw (h, closed) refl)
