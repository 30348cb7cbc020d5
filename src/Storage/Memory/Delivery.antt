-- ===== src/Storage/Memory/Delivery.antt =====
-- storage/memory.rs: what an append stores, and that a read from its start offset delivers it.
use durable_streams_rust.Prelude.{
  ℕ, ◌+◌, ◌<◌, ◌≡◌, refl, sym, ap, subst, inl, inr, Bool, Bool-cases, ◌||◌, Option, none, some,
  List, [], ◌∷◌, ◌++◌, Str, length, length-append, add64, u64_mod, ltb, arith,
}
use durable_streams_rust.Protocol.Error.{Result, ok, err}
use durable_streams_rust.Storage.Platform.{Platform}
use durable_streams_rust.Storage.Types.{AppendResult}
use durable_streams_rust.Storage.Shared.{validate_batch_shape}
use durable_streams_rust.Storage.Memory.Entry.{
  StreamEntry, InMemoryStorage, get_stream, tail_offset, push_message, push_messages,
  commit_reserved, commit_messages,
}
use durable_streams_rust.Storage.Memory.Append.{
  NextMetadata, finish_append, commit_prepared, append_found, append_shaped, append_batch,
}
use durable_streams_rust.Storage.Memory.Commit.{bytes_of}
use durable_streams_rust.Storage.Memory.Retry.{lookup-insert_self}
use durable_streams_rust.Storage.Memory.Layout.{laid-append, bytes_of-append, IsLaidOut}

append_assoc {ℓ} : {T : Type ℓ} (xs ys zs : List T) → (xs ++ ys) ++ zs ≡ xs ++ (ys ++ zs)
append_assoc [] ys zs = refl
append_assoc (x ∷ xs) ys zs = ap (λ t. x ∷ t) (append_assoc xs ys zs)

push_message-IsLaidOut :
    (a b : ℕ) (s : StreamEntry) (ps : List Str) (m : Str)
    → IsLaidOut a b s ps
    → s.next_read_seq + 1 < u64_mod
    → s.next_byte_offset + length m < u64_mod
    → IsLaidOut a b (push_message s m) (ps ++ (m ∷ []))
unfolding push_message
push_message-IsLaidOut a b s ps m h seqs bytes = record {
  laid_out = rw (laid-append ps (m ∷ []) a b, h.laid_out, h.seq_end, h.byte_end) refl;
  seq_end = omega (arith, h.seq_end, length-append ps (m ∷ []));
  byte_end = omega (arith, h.byte_end, bytes_of-append ps (m ∷ []));
}

-- A batch is laid out after the messages that are there, while the counters do not wrap.
pub push_messages-IsLaidOut :
    (a b : ℕ) (s : StreamEntry) (ps ms : List Str)
    → IsLaidOut a b s ps
    → s.next_read_seq + length ms < u64_mod
    → s.next_byte_offset + bytes_of ms < u64_mod
    → IsLaidOut a b (push_messages s ms) (ps ++ ms)
unfolding push_messages
push_messages-IsLaidOut a b s ps [] h seqs bytes = subst (IsLaidOut a b s) (sym (append_nil ps)) h
  where
    append_nil : (xs : List Str) → xs ++ [] ≡ xs
    append_nil [] = refl
    append_nil (x ∷ xs) = ap (λ t. x ∷ t) (append_nil xs)
push_messages-IsLaidOut a b s ps (m ∷ ms) h seqs bytes =
    subst (IsLaidOut a b (push_messages (push_message s m) ms)) (append_assoc ps (m ∷ []) ms) (
      push_messages-IsLaidOut a b (push_message s m) (ps ++ (m ∷ [])) ms
        (push_message-IsLaidOut a b s ps m h (omega arith) (omega arith))
        (unfold push_message in omega arith) (unfold push_message in omega arith))

pub closed-push_messages :
    (s : StreamEntry) (ms : List Str) → (push_messages s ms).closed ≡ s.closed
unfolding push_messages push_message
closed-push_messages s [] = refl
closed-push_messages s (m ∷ ms) = closed-push_messages (push_message s m) ms

-- The entry after a commit is the entry with the batch pushed, but for its notifications.
abbrev pub Pushed : StreamEntry → List Str → Result StreamEntry × InMemoryStorage → Type 0
Pushed s ms (err e, st) = Unit
Pushed s ms (ok s', st) = s' ≡ record (push_messages s ms) { notify = s'.notify }

reserved-Pushed :
    (st : InMemoryStorage) (s : StreamEntry) (ms : List Str) (batch : ℕ) (r : Result ℕ)
    → Pushed s ms (commit_reserved st s ms batch r)
unfolding commit_reserved
reserved-Pushed st s ms batch (err e) = tt
reserved-Pushed st s ms batch (ok total) =
    elim (Bool-cases (ltb st.max_stream_bytes (add64 s.total_bytes batch))) [
      | inl over ↦ rw over tt
      | inr under ↦ rw under refl
    ]

pub commit_messages-Pushed :
    (st : InMemoryStorage) (s : StreamEntry) (ms : List Str) → Pushed s ms (commit_messages st s ms)
unfolding commit_messages
commit_messages-Pushed st s [] = unfold push_messages in refl
commit_messages-Pushed st s (m ∷ ms) = reserved-Pushed st s (m ∷ ms) _ _

-- What a successful append has done, from the offsets that it returns.
abbrev pub Appended :
    InMemoryStorage → Str → List Str → Bool → Result AppendResult × InMemoryStorage → Type 0
Appended st name ms close (err e, st') = Unit
Appended st name ms close (ok r, st') =
    (s s' : StreamEntry) × (get_stream st name ≡ some s)
    × (get_stream st' name ≡ some s')
    × (s'.messages ≡ (push_messages s ms).messages)
    × (s'.next_read_seq ≡ (push_messages s ms).next_read_seq)
    × (s'.next_byte_offset ≡ (push_messages s ms).next_byte_offset)
    × (s'.fork_info ≡ (push_messages s ms).fork_info)
    × (s'.closed ≡ ((push_messages s ms).closed || close))
    × (r.start_offset ≡ tail_offset s)
    × (r.next_offset ≡ tail_offset s')
    × (r.closed ≡ s'.closed)

module _ {V : Type 0} (platform : Platform V) (st : InMemoryStorage) (name : Str) (ms : List Str)
    (close : Bool) where
  finish_append-Appended :
      (s : StreamEntry) (next : NextMetadata) (r : Result StreamEntry × InMemoryStorage)
      → get_stream st name ≡ some s
      → Pushed s ms r
      → Appended st name ms close (finish_append name s next close r)
  unfolding finish_append get_stream
  finish_append-Appended s next (err e, st') found pushed = tt
  finish_append-Appended s next (ok s', st') found pushed = (
    s,
    _,
    found,
    lookup-insert_self name _ st'.streams,
    ap (λ (t : StreamEntry). t.messages) pushed,
    ap (λ (t : StreamEntry). t.next_read_seq) pushed,
    ap (λ (t : StreamEntry). t.next_byte_offset) pushed,
    ap (λ (t : StreamEntry). t.fork_info) pushed,
    ap (λ (t : StreamEntry). t.closed || close) pushed,
    refl,
    refl,
    refl,
  )

  prepared-Appended :
      (s : StreamEntry) (r : Result NextMetadata)
      → get_stream st name ≡ some s
      → Appended st name ms close (commit_prepared st name s ms close r)
  unfolding commit_prepared
  prepared-Appended s (err e) found = tt
  prepared-Appended s (ok next) found =
      finish_append-Appended s next _ found (commit_messages-Pushed st s ms)

  found-Appended :
      (o : Option StreamEntry) (ct : Str) (seq : Option Str) (clock : ℕ → ℕ)
      → get_stream st name ≡ o
      → Appended st name ms close (append_found platform st name o ms ct seq close clock)
  unfolding append_found
  found-Appended none ct seq clock e = tt
  found-Appended (some s) ct seq clock e = prepared-Appended s _ e

  shaped-Appended :
      (ct : Str) (seq : Option Str) (clock : ℕ → ℕ) (r : Result (Unit {0}))
      → Appended st name ms close (append_shaped platform st name ms ct seq close clock r)
  unfolding append_shaped
  shaped-Appended ct seq clock (err e) = tt
  shaped-Appended ct seq clock (ok u) = found-Appended (get_stream st name) ct seq clock refl

  pub append_batch-Appended :
      (ct : Str) (seq : Option Str) (clock : ℕ → ℕ)
      → Appended st name ms close (append_batch platform st name ms ct seq close clock)
  unfolding append_batch
  append_batch-Appended ct seq clock = shaped-Appended ct seq clock (validate_batch_shape ms close)
