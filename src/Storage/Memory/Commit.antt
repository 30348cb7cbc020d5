-- ===== src/Storage/Memory/Commit.antt =====
-- What `commit_messages` does to an entry and to the byte counters, for every batch.
use durable_streams_rust.Prelude.{
  ℕ, ◌+◌, ◌-◌, ◌≤◌, ◌<◌, ◌≡◌, inl, inr, refl, ap, sym, subst, Bool-cases, List, [], ◌∷◌, Str,
  length, ltb, u64_mod, add64, arith,
}
use durable_streams_rust.Protocol.Error.{Error, Result, ok, err, stream_size_limit_exceeded}
use durable_streams_rust.Storage.Shared.{reserve_bytes, release_bytes, payload_bytes}
use durable_streams_rust.Storage.Memory.Entry.{
  StreamEntry, InMemoryStorage, send, push_message, push_messages, commit_reserved, commit_messages,
}

-- The bytes of a batch, not yet taken modulo 2^64.
abbrev pub bytes_of : List Str → ℕ
bytes_of [] = 0
bytes_of (m ∷ ms) = length m + bytes_of ms

pub payload_bytes-lt : (ms : List Str) → bytes_of ms < u64_mod → payload_bytes ms ≡ bytes_of ms
unfolding payload_bytes
payload_bytes-lt [] h = refl
payload_bytes-lt (m ∷ ms) h = omega (arith, payload_bytes-lt ms (omega arith))

total_bytes-push_messages :
    (s : StreamEntry) (ms : List Str)
    → s.total_bytes + bytes_of ms < u64_mod
    → (push_messages s ms).total_bytes ≡ s.total_bytes + bytes_of ms
unfolding push_messages push_message
total_bytes-push_messages s [] h = omega arith
total_bytes-push_messages s (m ∷ ms) h =
    omega (arith, total_bytes-push_messages (push_message s m) ms (omega arith))

-- The outcome of a commit: the batch fits both limits and is counted in both counters, or nothing
-- has changed.
pub data Committed (st : InMemoryStorage) (s : StreamEntry) (ms : List Str)
    : Result StreamEntry × InMemoryStorage → Type 0 where
  done :
      (s' : StreamEntry) (total : ℕ)
      → s'.total_bytes ≡ s.total_bytes + bytes_of ms
      → total ≡ st.total_bytes + bytes_of ms
      → total ≤ st.max_total_bytes
      → s'.total_bytes ≤ st.max_stream_bytes
      → Committed st s ms (ok s', record st { total_bytes = total })
  refused : (e : Error) → Committed st s ms (err e, st)

reserve_bytes-ok :
    (total limit bytes total' : ℕ)
    → reserve_bytes total limit bytes ≡ ok total'
    → (total' ≡ total + bytes) × (total' ≤ limit)
unfolding reserve_bytes
reserve_bytes-ok total limit bytes total' h = ground arith

-- Giving a reservation back restores the state.
release_restores :
    (st : InMemoryStorage) (total bytes : ℕ)
    → total ≡ st.total_bytes + bytes
    → record st { total_bytes = release_bytes total bytes } ≡ st
unfolding release_bytes
release_restores st total bytes h =
    let back : total - bytes ≡ st.total_bytes = omega arith in
    ap (λ (t : ℕ). let r : InMemoryStorage = record st { total_bytes = t } in r) back

module _ (st : InMemoryStorage) (s : StreamEntry) (m : Str) (ms : List Str)
    (small : bytes_of (m ∷ ms) < u64_mod) (part : s.total_bytes ≤ st.total_bytes)
    (word : st.max_total_bytes < u64_mod) where
  reserved-Committed :
      (r : Result ℕ)
      → reserve_bytes st.total_bytes st.max_total_bytes (bytes_of (m ∷ ms)) ≡ r
      → Committed st s (m ∷ ms) (commit_reserved st s (m ∷ ms) (bytes_of (m ∷ ms)) r)
  unfolding commit_reserved
  reserved-Committed (err e) h = refused e
  reserved-Committed (ok total) h =
      let (counted, within) = reserve_bytes-ok _ _ _ total h in
      let fits : s.total_bytes + bytes_of (m ∷ ms) < u64_mod = omega arith in
      elim (Bool-cases (ltb st.max_stream_bytes (add64 s.total_bytes (bytes_of (m ∷ ms))))) [
        | inl over ↦ rw over (
            subst (λ t. Committed st s (m ∷ ms) (err stream_size_limit_exceeded, t))
              (sym (release_restores st total (bytes_of (m ∷ ms)) counted)) (refused _))
        | inr under ↦
            let pushed : (send (push_messages s (m ∷ ms))).total_bytes
                ≡ s.total_bytes + bytes_of (m ∷ ms) =
              total_bytes-push_messages s (m ∷ ms) fits in
            rw under (done _ total pushed counted within (ground arith))
      ]

-- Every commit has one of the two outcomes, when the entry's bytes are counted in the total.
pub commit_messages-Committed :
    (st : InMemoryStorage) (s : StreamEntry) (ms : List Str)
    → bytes_of ms < u64_mod
    → s.total_bytes ≤ st.total_bytes
    → st.total_bytes ≤ st.max_total_bytes
    → s.total_bytes ≤ st.max_stream_bytes
    → st.max_total_bytes < u64_mod
    → Committed st s ms (commit_messages st s ms)
unfolding commit_messages
commit_messages-Committed st s [] small part within each word =
    done s st.total_bytes (omega arith) (omega arith) within each
commit_messages-Committed st s (m ∷ ms) small part within each word =
    subst
      (λ (b : ℕ).
        Committed st s (m ∷ ms)
          (commit_reserved st s (m ∷ ms) b (reserve_bytes st.total_bytes st.max_total_bytes b)))
      (sym (payload_bytes-lt (m ∷ ms) small)) (reserved-Committed st s m ms small part word _ refl)
