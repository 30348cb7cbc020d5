-- ===== src/Handlers/Polls.antt =====
-- What a long poll delivers when it is woken.
use durable_streams_rust.Prelude.{
  ℕ, ◌+◌, ◌<◌, List, ◌∷◌, ◌≡◌, refl, sym, ◌∙◌, subst, Str, Bool, Bool-cases, inl, inr, true, none,
  some, Option, length, u64_mod,
}
use durable_streams_rust.Protocol.Cursor.{generate}
use durable_streams_rust.Protocol.Offset.{Offset, as_str}
use durable_streams_rust.Protocol.Error.{Result, ok, err}
use durable_streams_rust.Storage.Platform.{Platform}
use durable_streams_rust.Storage.Types.{ReadResult, AppendResult}
use durable_streams_rust.Storage.Memory.Entry.{StreamEntry, InMemoryStorage, get_stream}
use durable_streams_rust.Storage.Memory.Append.{append_batch}
use durable_streams_rust.Storage.Memory.Chain.{read}
use durable_streams_rust.Storage.Memory.Commit.{bytes_of}
use durable_streams_rust.Storage.Memory.Layout.{IsLaidOut}
use durable_streams_rust.Storage.Memory.Reading.{IsReadable, Returns, append_batch-read}
use durable_streams_rust.Handlers.Events.{at_end}
use durable_streams_rust.Handlers.Problem.{answer_status, closed_if, with_header, with_next_offset}
use durable_streams_rust.Handlers.Reads.{
  Reply, build_body, build_data_response, polled_reply, up_to_date, with_cursor, generate_etag,
}
use durable_streams_rust.Handlers.Bodies.{body_of, build_body-body_of}
use durable_streams_rust.Handlers.Get.{map_read, wake_reply, after_wait, awake}

polled_status :
    (r : ReadResult) (content_type etag : Str) (cursor : ℕ)
    → answer_status (build_data_response r content_type etag (some cursor)).0 ≡ 200
unfolding build_data_response answer_status with_header with_next_offset up_to_date with_cursor
    closed_if
polled_status r content_type etag cursor = elim (Bool-cases (at_end r)) [
  | inl e ↦ rw e refl
  | inr e ↦ rw e refl
]

-- The answer to a poll: the messages, and the offset behind them.
record Carries (r : ReadResult) (content_type : Str) (reply : Reply) : Type 0 where
  status : answer_status reply.answer ≡ 200
  body : reply.body ≡ build_body r content_type

module _ (raw content_type : Str) (last : ℕ) (m : Str) (ms : List Str) (end : Offset)
    (at_tail closed : Bool) where
  abbrev r : ReadResult
  r = record { messages = m ∷ ms; next_offset = end; at_tail = at_tail; closed = closed }

  wake_reply-Carries :
      (st : InMemoryStorage) → Carries r content_type (wake_reply raw content_type last (ok r, st))
  unfolding wake_reply polled_reply build_data_response
  wake_reply-Carries st = record {
    status = polled_status r content_type (generate_etag raw r) (generate last end).0;
    body = refl;
  }

  map_read-Carries :
      (o : Option (Result ReadResult × InMemoryStorage))
      → Returns r o
      → (reply : Reply) × (map_read (wake_reply raw content_type last) o ≡ some reply)
        × Carries r content_type reply
  unfolding map_read
  map_read-Carries none h = absurd h
  map_read-Carries (some (err e, st)) h = absurd h
  map_read-Carries (some (ok r', st)) h = (
    wake_reply raw content_type last (ok r', st),
    refl,
    subst (λ (q : ReadResult). Carries r content_type (wake_reply raw content_type last (ok q, st)))
        (sym h) (wake_reply-Carries st),
  )

-- The read of a batch that stands at the tail.
abbrev pub batch_read : Str → List Str → AppendResult → ReadResult
batch_read m ms r = record {
  messages = m ∷ ms;
  next_offset = r.next_offset;
  at_tail = true;
  closed = r.closed;
}

-- A long poll that waits at the tail while a batch is appended there, and is woken, answers 200 with
-- the whole batch as its body: for JSON the array of its messages in order, separated by commas, and
-- for other content types their bytes in a row. The batch has a message. The stream is no fork and is readable when the poll
-- is woken, its messages lay one after the other before the append, and its counters do not wrap.
pub append_batch-after_wait :
    {V : Type 0} (platform : Platform V) (st : InMemoryStorage) (name m : Str) (ms : List Str)
    (ct : Str) (seq : Option Str) (close : Bool) (clock clock' : ℕ → ℕ) (r : AppendResult)
    (st' : InMemoryStorage) (s s' : StreamEntry) (payloads : List Str) (a b last : ℕ)
    (content_type : Str) (seen : ReadResult)
    → append_batch platform st name (m ∷ ms) ct seq close clock ≡ (ok r, st')
    → get_stream st name ≡ some s
    → get_stream st' name ≡ some s'
    → IsLaidOut a b s payloads
    → s.next_read_seq + length (m ∷ ms) < u64_mod
    → s.next_byte_offset + bytes_of (m ∷ ms) < u64_mod
    → s'.fork_info ≡ none
    → IsReadable platform name s' clock'
    → seen.next_offset ≡ r.start_offset
    → (reply : Reply) × (after_wait platform name content_type seen last (awake st' clock')
        ≡ some reply)
      × (answer_status reply.answer ≡ 200)
      × (reply.body ≡ body_of content_type m ms)
unfolding after_wait
append_batch-after_wait platform st name m ms ct seq close clock clock' r st' s s' payloads a b last
      content_type seen h found found' laid_out seqs bytes root readable at_start =
    subst
      (λ (o : Offset).
        (reply : Reply) × (map_read (wake_reply (as_str o) content_type last)
            (read platform st' name o clock')
          ≡ some reply)
        × (answer_status reply.answer ≡ 200)
        × (reply.body ≡ body_of content_type m ms))
      (sym at_start)
      (let (reply, answered, carries) =
          map_read-Carries (as_str r.start_offset) content_type last m ms r.next_offset true
            r.closed (read platform st' name r.start_offset clock')
            (append_batch-read platform st name (m ∷ ms) ct seq close clock clock' r st' s s'
              payloads a b h found found' laid_out seqs bytes root readable) in
        (
          reply,
          answered,
          carries.status,
          carries.body ∙ build_body-body_of content_type m ms (batch_read m ms r) refl,
        ))
