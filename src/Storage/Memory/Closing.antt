-- ===== src/Storage/Memory/Closing.antt =====
-- storage/memory.rs: a closed stream takes no more messages.
use durable_streams_rust.Prelude.{
  ℕ, ◌≡◌, refl, sym, subst, ◌∙◌, Bool, Bool-cases, true, inl, inr, Option, none, some, List, [],
  ◌∷◌, Str, str_eq, str_eq_iff,
}
use durable_streams_rust.Prelude.Dict.{Dict, lookup, insert, lookup-insert}
use durable_streams_rust.Protocol.Error.{Result, ok, err}
use durable_streams_rust.Protocol.Offset.{Offset}
use durable_streams_rust.Protocol.Producer.{ProducerHeaders}
use durable_streams_rust.Storage.Platform.{Platform}
use durable_streams_rust.Storage.Types.{Message}
use durable_streams_rust.Storage.Shared.{
  ProducerState, ProducerAppendPrecheck, accept_with, duplicate_of, validate_batch_shape,
}
use durable_streams_rust.Storage.Memory.Entry.{
  StreamEntry, InMemoryStorage, get_stream, tail_offset, commit_messages,
}
use durable_streams_rust.Storage.Memory.Append.{
  NextMetadata, append_batch, append_shaped, append_found, prepare_append, commit_prepared,
  finish_append, append_with_producer, producer_found, producer_checked, producer_prepared,
  finish_producer,
}
use durable_streams_rust.Storage.Memory.Refusal.{
  streams-commit_messages, ok_eq, err-ok, NotAccepted, precheck-NotAccepted, prepare_append-closed,
}

-- A closed stream with these messages and this tail.
abbrev pub IsShut : List Message → Offset → StreamEntry → Type 0
IsShut messages tail s = (s.closed ≡ true) × (s.messages ≡ messages) × (tail_offset s ≡ tail)

abbrev pub HoldsShut : Str → List Message → Offset → Dict StreamEntry → Type 0
HoldsShut name messages tail streams =
    (s : StreamEntry) × (lookup name streams ≡ some s) × IsShut messages tail s

module _ {V : Type 0} (platform : Platform V) where
  module _ (name : Str) (messages : List Message) (tail : Offset) where
    -- An insertion keeps the closed stream, if it is for another name or the stream stays shut.
    insert-HoldsShut :
        (k : Str) (s' : StreamEntry) (streams : Dict StreamEntry)
        → HoldsShut name messages tail streams
        → (str_eq k name ≡ true → IsShut messages tail s')
        → HoldsShut name messages tail (insert k s' streams)
    insert-HoldsShut k s' streams (s, found, shut) same = elim (Bool-cases (str_eq k name)) [
      | inl hit ↦ (s', rw (lookup-insert k name s' streams, hit) refl, same hit)
      | inr miss ↦ (s, rw (lookup-insert k name s' streams, miss) found, shut)
    ]

    -- The entry at the name is the closed one.
    hit_IsShut :
        (k : Str) (streams : Dict StreamEntry) {s : StreamEntry}
        → HoldsShut name messages tail streams
        → lookup k streams ≡ some s
        → str_eq k name ≡ true
        → IsShut messages tail s
    hit_IsShut k streams {s} (s₁, found, shut) at hit =
        let here : k ≡ name = (str_eq_iff k name).0 hit in
        let same : s₁ ≡ s = cc in subst (IsShut messages tail) same shut

    module _ (st : InMemoryStorage) (h : HoldsShut name messages tail st.streams) (k : Str) where
      finish_append-HoldsShut :
          (s : StreamEntry) (next : NextMetadata) (close : Bool)
          (r : Result StreamEntry × InMemoryStorage)
          → r.1.streams ≡ st.streams
          → ((s' : StreamEntry) → r.0 ≡ ok s' → str_eq k name ≡ true → IsShut messages tail s')
          → HoldsShut name messages tail (finish_append k s next close r).1.streams
      unfolding finish_append
      finish_append-HoldsShut s next close (err e, st') e' same =
          subst (HoldsShut name messages tail) (sym e') h
      finish_append-HoldsShut s next close (ok s', st') e' same =
          insert-HoldsShut k _ st'.streams (subst (HoldsShut name messages tail) (sym e') h)
            (λ hit. let (c, m, o) = same s' refl hit in (rw c refl, m, o))

      module _ (s : StreamEntry) (found : get_stream st k ≡ some s) where
        prepared-HoldsShut :
            (ms : List Str) (ct : Str) (seq : Option Str) (close : Bool) (clock : ℕ → ℕ)
            (prepared : Result NextMetadata)
            → prepare_append platform s k ms ct seq clock ≡ prepared
            → HoldsShut name messages tail (commit_prepared st k s ms close prepared).1.streams
        unfolding commit_prepared get_stream
        prepared-HoldsShut ms ct seq close clock (err e) q = h
        prepared-HoldsShut [] ct seq close clock (ok next) q =
            finish_append-HoldsShut s next close (commit_messages st s [])
              (streams-commit_messages st s [])
              (unfold commit_messages in
                λ s' same hit.
                  subst (IsShut messages tail) (ok_eq same) (hit_IsShut k st.streams h found hit))
        prepared-HoldsShut (m ∷ ms) ct seq close clock (ok next) q =
            finish_append-HoldsShut s next close (commit_messages st s (m ∷ ms))
              (streams-commit_messages st s (m ∷ ms))
              (λ s' same hit.
                let (closed, m', o) = hit_IsShut k st.streams h found hit in
                let (e, refused) = prepare_append-closed platform s k m ct ms seq clock closed in
                absurd (err-ok (sym refused ∙ q)))

        -- Whatever a producer's append does elsewhere.
        elsewhere :
            (away : str_eq k name ≡ true → ⊥) (producers : Dict ProducerState) (ms : List Str)
            (p : ProducerHeaders) (close : Bool) (now : ℕ) (next : Result NextMetadata)
            → HoldsShut name messages tail
                (producer_prepared platform st k
                  (record s { producers = producers })
                  ms
                  p
                  close
                  now
                  next).1.streams
        unfolding producer_prepared finish_producer
        elsewhere away producers ms p close now (err e) =
            insert-HoldsShut k _ st.streams h (λ hit. absurd (away hit))
        elsewhere away producers ms p close now (ok next) =
            committed (commit_messages st (record s { producers = producers }) ms)
              (streams-commit_messages st _ ms)
          where
            committed :
                (r : Result StreamEntry × InMemoryStorage)
                → r.1.streams ≡ st.streams
                → HoldsShut name messages tail
                    (finish_producer platform k
                      (record s { producers = producers })
                      next
                      p
                      close
                      now
                      r).1.streams
            committed (err e, st') same =
                insert-HoldsShut k _ st'.streams (subst (HoldsShut name messages tail) (sym same) h)
                  (λ hit. absurd (away hit))
            committed (ok s', st') same =
                insert-HoldsShut k _ st'.streams (subst (HoldsShut name messages tail) (sym same) h)
                  (λ hit. absurd (away hit))

        checked-HoldsShut :
            (producers : Dict ProducerState) (ms : List Str) (p : ProducerHeaders) (close : Bool)
            (clock : ℕ → ℕ) (checked : Result ProducerAppendPrecheck)
            → (s.closed ≡ true → NotAccepted checked)
            → HoldsShut name messages tail
                (producer_checked platform st k
                  (record s { producers = producers })
                  ms
                  p
                  close
                  clock
                  checked).1.streams
        unfolding producer_checked get_stream
        checked-HoldsShut producers ms p close clock (err e) never =
            insert-HoldsShut k _ st.streams h (hit_IsShut k st.streams h found)
        checked-HoldsShut producers ms p close clock (ok (duplicate_of epoch seq)) never =
            insert-HoldsShut k _ st.streams h (hit_IsShut k st.streams h found)
        checked-HoldsShut producers ms p close clock (ok (accept_with pending)) never =
            elsewhere (λ hit. never (hit_IsShut k st.streams h found hit).0) producers ms p close
              (clock 2) _

      found-HoldsShut :
          (o : Option StreamEntry) (ms : List Str) (ct : Str) (seq : Option Str) (close : Bool)
          (clock : ℕ → ℕ)
          → get_stream st k ≡ o
          → HoldsShut name messages tail
              (append_found platform st k o ms ct seq close clock).1.streams
      unfolding append_found
      found-HoldsShut none ms ct seq close clock e = h
      found-HoldsShut (some s) ms ct seq close clock e =
          prepared-HoldsShut s e ms ct seq close clock _ refl

      producer_found-HoldsShut :
          (o : Option StreamEntry) (ms : List Str) (ct : Str) (p : ProducerHeaders) (close : Bool)
          (seq : Option Str) (clock : ℕ → ℕ)
          → get_stream st k ≡ o
          → HoldsShut name messages tail
              (producer_found platform st k o ms ct p close seq clock).1.streams
      unfolding producer_found
      producer_found-HoldsShut none ms ct p close seq clock e = h
      producer_found-HoldsShut (some s) ms ct p close seq clock e =
          checked-HoldsShut s e _ ms p close clock _
            (precheck-NotAccepted platform s k ct p ms seq (clock 0) (clock 1))

      shaped-HoldsShut :
          (ms : List Str) (ct : Str) (seq : Option Str) (close : Bool) (clock : ℕ → ℕ)
          (r : Result (Unit {0}))
          → HoldsShut name messages tail
              (append_shaped platform st k ms ct seq close clock r).1.streams
      unfolding append_shaped
      shaped-HoldsShut ms ct seq close clock (err e) = h
      shaped-HoldsShut ms ct seq close clock (ok u) =
          found-HoldsShut (get_stream st k) ms ct seq close clock refl

  -- Appends of batches and of producers to any streams, whatever they return.
  pub data Appends (st : InMemoryStorage) : InMemoryStorage → Type 0 where
    here : Appends st st
    batch :
        {mid : InMemoryStorage} (name : Str) (ms : List Str) (ct : Str) (seq : Option Str)
        (close : Bool) (clock : ℕ → ℕ)
        → Appends st mid
        → Appends st (append_batch platform mid name ms ct seq close clock).1
    producer :
        {mid : InMemoryStorage} (name : Str) (ms : List Str) (ct : Str) (p : ProducerHeaders)
        (close : Bool) (seq : Option Str) (clock : ℕ → ℕ)
        → Appends st mid
        → Appends st (append_with_producer platform mid name ms ct p close seq clock).1

-- A stream that is closed stays closed and keeps its messages and its tail through every sequence of
-- appends, of batches and of producers, to it and to other streams, whether they fail or succeed.
pub Appends-closed :
    {V : Type 0} (platform : Platform V) (st st' : InMemoryStorage) (name : Str) (s : StreamEntry)
    → get_stream st name ≡ some s
    → s.closed ≡ true
    → Appends platform st st'
    → (s' : StreamEntry) × (get_stream st' name ≡ some s') × IsShut s.messages (tail_offset s) s'
unfolding get_stream append_batch append_with_producer
Appends-closed platform st st' name s found closed here = (s, found, (closed, refl, refl))
Appends-closed platform st st' name s found closed (batch {mid} k ms ct seq close clock before) =
    shaped-HoldsShut platform name s.messages (tail_offset s) mid
      (Appends-closed platform st mid name s found closed before) k ms ct seq close clock
      (validate_batch_shape ms close)
Appends-closed platform st st' name s found closed
      (producer {mid} k ms ct p close seq clock before) =
    producer_found-HoldsShut platform name s.messages (tail_offset s) mid
      (Appends-closed platform st mid name s found closed before) k (lookup k mid.streams) ms ct p
      close seq clock refl
