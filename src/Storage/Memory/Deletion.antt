-- ===== src/Storage/Memory/Deletion.antt =====
-- storage/memory.rs: what a deleted stream answers, and that a cascade ends.
use durable_streams_rust.Prelude.{
  ℕ, zero, suc, ◌-◌, ◌<◌, ◌≡◌, refl, sym, subst, inl, inr, Bool-cases, Option-cases, ◌&&◌, true,
  false, some, none, [], ◌∷◌, Str, str_eq, length, ◌==◌, if◌then◌else◌, arith,
}
use durable_streams_rust.Prelude.Dict.{Dict, lookup, remove, HasUniqueKeys}
use durable_streams_rust.Protocol.Error.{Error, Result, ok, err, not_found, stream_gone}
use durable_streams_rust.Storage.Types.{StreamState, ForkInfo, is_tombstone, tombstone}
use durable_streams_rust.Storage.Access.{check_stream_access}
use durable_streams_rust.Storage.Fork.{
  DeleteDisposition, to_tombstone, hard_delete, evaluate_delete,
}
use durable_streams_rust.Storage.Memory.Entry.{StreamEntry, InMemoryStorage, get_stream}
use durable_streams_rust.Storage.Memory.Append.{head_found, head}
use durable_streams_rust.Storage.Memory.Delete.{
  drop_entry, release_parent, cascade_loop, cascade_delete, mark_tombstone, delete_as, delete_found,
  delete,
}
use durable_streams_rust.Storage.Memory.Accounting.Removal.{remove_for_recreate_absent}
use durable_streams_rust.Storage.Memory.Retry.{lookup-insert_self}

-- What a name answers after its deletion: streams with forks stay behind as tombstones.
abbrev pub deleted_error : Str → ℕ → Error
deleted_error name ref_count = if ref_count == 0 then not_found name else stream_gone name

tombstone_error :
    (name : Str) (state : StreamState) (n : ℕ)
    → evaluate_delete name state n ≡ ok to_tombstone
    → deleted_error name n ≡ stream_gone name
unfolding evaluate_delete
tombstone_error name state n h = ground arith

absent_error :
    (name : Str) (state : StreamState) (n : ℕ)
    → evaluate_delete name state n ≡ ok hard_delete
    → deleted_error name n ≡ not_found name
unfolding evaluate_delete
absent_error name state n h = ground arith

module _ (st : InMemoryStorage) (name : Str) (s : StreamEntry) (u : HasUniqueKeys st.streams)
    (found : lookup name st.streams ≡ some s) (now : ℕ) where
  delete_as-head :
      (r : Result DeleteDisposition)
      → evaluate_delete name s.state s.ref_count ≡ r
      → (delete_as st name s r).0 ≡ ok tt
      → head (delete_as st name s r).1 name now ≡ err (deleted_error name s.ref_count)
  unfolding delete_as mark_tombstone head get_stream head_found check_stream_access
  delete_as-head (err e) h done = cc
  delete_as-head (ok to_tombstone) h done =
      rw
        (
          lookup-insert_self name (record s { state = tombstone }) st.streams,
          tombstone_error name s.state s.ref_count h,
        )
        refl
  delete_as-head (ok hard_delete) h done =
      rw (remove_for_recreate_absent st name u, absent_error name s.state s.ref_count h) refl

-- After a successful deletion the stream is gone at every later instant: its name answers that there is
-- no such stream, or, where forks still need it, that it is gone. Each name stands once in the store.
pub delete-head :
    (st : InMemoryStorage) (name : Str) (s : StreamEntry) (now : ℕ)
    → HasUniqueKeys st.streams
    → get_stream st name ≡ some s
    → (delete st name).0 ≡ ok tt
    → head (delete st name).1 name now ≡ err (deleted_error name s.ref_count)
unfolding delete delete_found get_stream
delete-head st name s now u found h =
    subst
      (λ o.
        (delete_found st name o).0 ≡ ok tt
        → head (delete_found st name o).1 name now ≡ err (deleted_error name s.ref_count))
      (sym found) (λ h'. delete_as-head st name s u found now _ refl h') h

length-remove :
    {T : Type 0} (k : Str) (m : Dict T) {v : T}
    → lookup k m ≡ some v
    → suc (length (remove k m)) ≡ length m
unfolding lookup remove
length-remove k [] h = cc
length-remove k ((j, w) ∷ m) {v} h = elim (Bool-cases (str_eq j k)) [
  | inl hit ↦ rw hit refl
  | inr miss ↦
      let rest : lookup k m ≡ some v = ground arith in
      rw miss (omega (arith, length-remove k m rest))
]

length-drop_entry :
    (st : InMemoryStorage) (name : Str) (s : StreamEntry)
    → get_stream st name ≡ some s
    → suc (length (drop_entry st name s).streams) ≡ length st.streams
unfolding drop_entry get_stream
length-drop_entry st name s found = length-remove name st.streams found

-- The rounds of `cascade_delete` for a parent, up to the one that returns, and the store then: a
-- derivation is a run of the source's loop, and has finitely many rounds. Each round but the last has
-- taken an entry out.
pub data Cascades : InMemoryStorage → Str → InMemoryStorage → Type 0 where
  missing : {st : InMemoryStorage} {name : Str} → get_stream st name ≡ none → Cascades st name st
  kept :
      {st : InMemoryStorage} {name : Str} (parent : StreamEntry)
      → get_stream st name ≡ some parent
      → (is_tombstone parent.state && (parent.ref_count - 1) == 0) ≡ false
      → Cascades st name (release_parent st name parent)
  root :
      {st : InMemoryStorage} {name : Str} (parent : StreamEntry)
      → get_stream st name ≡ some parent
      → (is_tombstone parent.state && (parent.ref_count - 1) == 0) ≡ true
      → parent.fork_info ≡ none
      → Cascades st name (drop_entry st name parent)
  next :
      {st : InMemoryStorage} {name : Str} (parent : StreamEntry) (info : ForkInfo)
      {st' : InMemoryStorage}
      → get_stream st name ≡ some parent
      → (is_tombstone parent.state && (parent.ref_count - 1) == 0) ≡ true
      → parent.fork_info ≡ some info
      → suc (length (drop_entry st name parent).streams) ≡ length st.streams
      → Cascades (drop_entry st name parent) info.source_name st'
      → Cascades st name st'

cascade_loop-Cascades :
    (fuel : ℕ) (st : InMemoryStorage) (name : Str)
    → length st.streams < fuel
    → (st' : InMemoryStorage) × (cascade_loop fuel st name ≡ some st') × Cascades st name st'
unfolding cascade_loop get_stream
cascade_loop-Cascades zero st name h = absurd (omega arith)
cascade_loop-Cascades (suc fuel) st name h = elim (Option-cases (lookup name st.streams)) [
  | inl absent ↦ (st, rw (absent, cascade_loop) refl, missing absent)
  | inr (parent, found) ↦
      elim (Bool-cases (is_tombstone parent.state && (parent.ref_count - 1) == 0)) [
        | inr stays ↦ (_, rw (found, cascade_loop, stays) refl, kept parent found stays)
        | inl gone ↦ elim (Option-cases parent.fork_info) [
          | inl last ↦ (_, rw (found, cascade_loop, gone, last) refl, root parent found gone last)
          | inr (info, fork) ↦
              let shorter = length-drop_entry st name parent found in
              let (st', run, cascades) =
                cascade_loop-Cascades fuel (drop_entry st name parent) info.source_name
                  (omega (arith, shorter, h)) in
              (
                st',
                rw (found, cascade_loop, gone, fork) run,
                next parent info found gone fork shorter cascades,
              )
        ]
      ]
]

-- The cascade of every store and parent ends: `cascade_loop` does not run out of the fuel that
-- `cascade_delete` gives it, and `cascade_delete` is the outcome of a finite run of the source's loop, in
-- which each round but the last finds a tombstone that no fork but the removed one needs, takes exactly
-- one entry out of the store, and goes on with that entry's parent.
pub cascade_delete-Cascades :
    (st : InMemoryStorage) (name : Str)
    → (cascade_loop (suc (length st.streams)) st name ≡ some (cascade_delete st name))
      × Cascades st name (cascade_delete st name)
unfolding cascade_delete
cascade_delete-Cascades st name =
    let (st', run, cascades) =
      cascade_loop-Cascades (suc (length st.streams)) st name (omega arith) in
    rw run (refl, cascades)
