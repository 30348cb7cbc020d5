-- ===== src/Storage/Memory/Reading.antt =====
-- storage/memory.rs: reads of a stream that is no fork, and that appends are delivered.
use durable_streams_rust.Prelude.{
  ℕ, ◌+◌, ◌<◌, ◌≡◌, refl, ◌∙◌, subst, Bool, true, false, ◌||◌, Option, none, some, List, ◌++◌, Str,
  length, u64_mod,
}
use durable_streams_rust.Protocol.Error.{Result, ok, err}
use durable_streams_rust.Protocol.Offset
use durable_streams_rust.Protocol.Offset.{Offset, is_now}
use durable_streams_rust.Storage.Platform.{Platform}
use durable_streams_rust.Storage.Types.{StreamConfig, AppendResult, ReadResult}
use durable_streams_rust.Storage.Access.{check_stream_access, renew_ttl}
use durable_streams_rust.Storage.Shared.{finish}
use durable_streams_rust.Storage.Memory.Entry.{
  StreamEntry, InMemoryStorage, get_stream, tail_offset, push_messages,
}
use durable_streams_rust.Storage.Memory.Append.{append_batch}
use durable_streams_rust.Storage.Memory.Chain.{
  payloads_in, read_local_messages, pending_of, prepare_read, finish_read, renewed_state,
  renewed_read, with_state, read_rechecked, read_by_ttl, read_checked, read_found, read,
}
use durable_streams_rust.Storage.Memory.Commit.{bytes_of}
use durable_streams_rust.Storage.Memory.Layout.{IsLaidOut, payloads_in-laid}
use durable_streams_rust.Storage.Memory.Delivery.{
  push_messages-IsLaidOut, closed-push_messages, Appended, append_batch-Appended,
}

-- A read that ends, and ends well.
abbrev pub Returns : ReadResult → Option (Result ReadResult × InMemoryStorage) → Type 0
Returns result none = ⊥
Returns result (some (err e, st)) = ⊥
Returns result (some (ok r, st)) = r ≡ result

is_now-new : (a b : ℕ) → is_now (Offset.new a b) ≡ false
unfolding is_now Offset.new
is_now-new a b = refl

-- Both access checks and the renewal of the deadline succeed.
pub record IsReadable {V : Type 0} (platform : Platform V) (name : Str) (s : StreamEntry)
    (clock : ℕ → ℕ) : Type 0 where
  pub first_check : check_stream_access s.config s.state name (clock 0) ≡ ok tt
  pub second_check : check_stream_access s.config s.state name (clock 1) ≡ ok tt
  pub renewed : StreamConfig × Bool
  pub renews : renew_ttl platform s.config (clock 2) ≡ ok renewed

module _ {V : Type 0} (platform : Platform V) (st : InMemoryStorage) (name : Str) (s : StreamEntry)
    (clock : ℕ → ℕ) (root : s.fork_info ≡ none) (readable : IsReadable platform name s clock)
    (a b : ℕ) where
  root_result : ReadResult
  root_result = read_local_messages s (Offset.new a b) (tail_offset s)

  finish_read-root :
      finish_read st.streams (Offset.new a b) (prepare_read s (Offset.new a b))
      ≡ some (ok root_result)
  unfolding finish_read prepare_read pending_of finish root_result
  finish_read-root = rw (is_now-new a b, root) refl

  by_ttl-root :
      (o : Option ℕ) → Returns root_result (read_by_ttl platform st name s (Offset.new a b) clock o)
  unfolding read_by_ttl read_rechecked with_state renewed_read renewed_state
  by_ttl-root none = rw finish_read-root refl
  by_ttl-root (some ttl) = rw (readable.second_check, finish_read-root, readable.renews) refl

  read-root :
      get_stream st name ≡ some s
      → Returns root_result (read platform st name (Offset.new a b) clock)
  unfolding read read_found read_checked
  read-root found = rw (found, readable.first_check) (by_ttl-root s.config.ttl_seconds)

-- A read from the boundary between two parts of a stream's messages, in a readable stream that is no
-- fork, ends and returns the second part, with the tail and the closed flag of the stream.
pub read-IsLaidOut :
    {V : Type 0} (platform : Platform V) (st : InMemoryStorage) (name : Str) (s : StreamEntry)
    (clock : ℕ → ℕ) (before after : List Str) (a b : ℕ)
    → IsLaidOut a b s (before ++ after)
    → get_stream st name ≡ some s
    → s.fork_info ≡ none
    → IsReadable platform name s clock
    → Returns
        (record {
          messages = after;
          next_offset = tail_offset s;
          at_tail = true;
          closed = s.closed;
        })
        (read platform st name (Offset.new (a + length before) (b + bytes_of before)) clock)
unfolding read_local_messages root_result
read-IsLaidOut platform st name s clock before after a b h found root readable =
    let from = Offset.new (a + length before) (b + bytes_of before) in
    let payloads : payloads_in s.messages from none ≡ after =
      rw h.laid_out (payloads_in-laid before after a b) in
    subst
      (λ (ms : List Str).
        Returns
          (record { messages = ms; next_offset = tail_offset s; at_tail = true; closed = s.closed })
          (read platform st name from clock))
      payloads (read-root platform st name s clock root readable _ _ found)

-- A successful append to a stream whose messages lie one after the other puts the batch behind them,
-- in order. The result names the boundary before the batch and the new tail. The stream is closed
-- afterwards if it was before or the call asks for it. The counters do not wrap.
pub append_batch-IsLaidOut :
    {V : Type 0} (platform : Platform V) (st : InMemoryStorage) (name : Str) (ms : List Str)
    (ct : Str) (seq : Option Str) (close : Bool) (clock : ℕ → ℕ) (r : AppendResult)
    (st' : InMemoryStorage) (s s' : StreamEntry) (payloads : List Str) (a b : ℕ)
    → append_batch platform st name ms ct seq close clock ≡ (ok r, st')
    → get_stream st name ≡ some s
    → get_stream st' name ≡ some s'
    → IsLaidOut a b s payloads
    → s.next_read_seq + length ms < u64_mod
    → s.next_byte_offset + bytes_of ms < u64_mod
    → IsLaidOut a b s' (payloads ++ ms)
      × (r.start_offset ≡ Offset.new (a + length payloads) (b + bytes_of payloads))
      × (r.next_offset ≡ tail_offset s')
      × (r.closed ≡ s'.closed)
      × (s'.closed ≡ (s.closed || close))
append_batch-IsLaidOut platform st name ms ct seq close clock r st' s s' payloads a b h found found'
      laid_out seqs bytes =
    let (s₀, s₁, at, at', same_messages, same_seq, same_byte, _, closed, starts, ends, closes) =
      subst (Appended st name ms close) h
        (append_batch-Appended platform st name ms close ct seq clock) in
    let same : s ≡ s₀ = cc in
    let same' : s₁ ≡ s' = cc in
    let pushed : IsLaidOut a b (push_messages s₀ ms) (payloads ++ ms) =
      subst (λ t. IsLaidOut a b (push_messages t ms) (payloads ++ ms)) same
        (push_messages-IsLaidOut a b s payloads ms laid_out seqs bytes) in
    let whole : IsLaidOut a b s₁ (payloads ++ ms) = record {
      laid_out = same_messages ∙ pushed.laid_out;
      seq_end = same_seq ∙ pushed.seq_end;
      byte_end = same_byte ∙ pushed.byte_end;
    } in
    subst
      (λ (t : StreamEntry).
        IsLaidOut a b t (payloads ++ ms)
        × (r.start_offset ≡ Offset.new (a + length payloads) (b + bytes_of payloads))
        × (r.next_offset ≡ tail_offset t)
        × (r.closed ≡ t.closed)
        × (t.closed ≡ (s.closed || close)))
      same'
      (
        whole,
        starts ∙ rw (← same, laid_out.seq_end, laid_out.byte_end) refl,
        ends,
        closes,
        closed ∙ rw (closed-push_messages s₀ ms, ← same) refl,
      )

-- A read from the start offset that an append returned ends and delivers exactly the batch, up to the
-- offset that the append returned as the next. The stream is no fork and is readable at the time of
-- the read, its messages lay one after the other before the append, and its counters do not wrap.
pub append_batch-read :
    {V : Type 0} (platform : Platform V) (st : InMemoryStorage) (name : Str) (ms : List Str)
    (ct : Str) (seq : Option Str) (close : Bool) (clock clock' : ℕ → ℕ) (r : AppendResult)
    (st' : InMemoryStorage) (s s' : StreamEntry) (payloads : List Str) (a b : ℕ)
    → append_batch platform st name ms ct seq close clock ≡ (ok r, st')
    → get_stream st name ≡ some s
    → get_stream st' name ≡ some s'
    → IsLaidOut a b s payloads
    → s.next_read_seq + length ms < u64_mod
    → s.next_byte_offset + bytes_of ms < u64_mod
    → s'.fork_info ≡ none
    → IsReadable platform name s' clock'
    → Returns
        (record { messages = ms; next_offset = r.next_offset; at_tail = true; closed = r.closed })
        (read platform st' name r.start_offset clock')
append_batch-read platform st name ms ct seq close clock clock' r st' s s' payloads a b h found
      found' laid_out seqs bytes root readable =
    let (whole, start, ends, closes, _) =
      append_batch-IsLaidOut platform st name ms ct seq close clock r st' s s' payloads a b h found
        found' laid_out seqs bytes in
    rw (start, ends, closes)
      (read-IsLaidOut platform st' name s' clock' payloads ms a b whole found' root readable)
