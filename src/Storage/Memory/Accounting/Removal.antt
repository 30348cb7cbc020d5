-- ===== src/Storage/Memory/Accounting/Removal.antt =====
-- Deletion, the cascade and the sweep keep the byte counters.
use durable_streams_rust.Prelude.{
  ℕ, zero, suc, ◌-◌, ◌≤◌, ◌≡◌, refl, inl, inr, Bool-cases, ◌&&◌, Option, none, some, Option-cases,
  List, [], ◌∷◌, Str, arith, ◌==◌, length,
}
use durable_streams_rust.Prelude.Dict.{
  lookup, sum_by-remove, AllValues-remove, HasUniqueKeys, remove-HasUniqueKeys, absent-remove,
  absent-insert, lookup-remove_self,
}
use durable_streams_rust.Protocol.Error.{Result, ok, err}
use durable_streams_rust.Storage.Types.{ForkInfo, is_tombstone}
use durable_streams_rust.Storage.Shared.{release_bytes}
use durable_streams_rust.Storage.Fork.{
  DeleteDisposition, to_tombstone, hard_delete, evaluate_expired_cleanup,
}
use durable_streams_rust.Storage.Memory.Entry.{StreamEntry, InMemoryStorage, get_stream}
use durable_streams_rust.Storage.Memory.Delete.{
  drop_entry, removed_entry, hard_remove_stream, release_parent, cascade_loop, ended,
  cascade_delete, cascade_from, remove_for_recreate, mark_tombstone, delete_as, delete_found,
  delete, expired_streams, tombstone_found, sweep_as, sweep_one, sweep, cleanup_expired_streams,
}
use durable_streams_rust.Storage.Memory.Accounting.{
  entry_bytes, IsAccounted, stored_bytes, same_size-IsAccounted,
}

-- Taking an entry out gives back exactly its bytes.
drop_entry-IsAccounted :
    (st : InMemoryStorage) (name : Str) (s : StreamEntry)
    → IsAccounted st
    → lookup name st.streams ≡ some s
    → IsAccounted (drop_entry st name s)
unfolding drop_entry release_bytes
drop_entry-IsAccounted st name s h found = record {
  unique = remove-HasUniqueKeys name st.streams h.unique;
  counted =
      omega
        (arith, sum_by-remove entry_bytes name st.streams, stored_bytes name h found, h.counted);
  within = omega (arith, h.within);
  each = AllValues-remove (λ s. s.total_bytes ≤ st.max_stream_bytes) name st.streams h.each;
  word = h.word;
}

cascade_loop-IsAccounted :
    (fuel : ℕ) (before st : InMemoryStorage) (parent_name : Str)
    → IsAccounted before
    → IsAccounted st
    → IsAccounted (ended before (cascade_loop fuel st parent_name))
unfolding cascade_loop get_stream
cascade_loop-IsAccounted zero before st parent_name h₀ h = h₀
cascade_loop-IsAccounted (suc fuel) before st parent_name h₀ h =
    elim (Option-cases (lookup parent_name st.streams)) [
      | inl missing ↦ rw (missing, cascade_loop) h
      | inr (parent, found) ↦
          elim (Bool-cases (is_tombstone parent.state && (parent.ref_count - 1) == 0)) [
            | inr kept ↦
                rw (found, cascade_loop, kept) (same_size-IsAccounted parent_name h found _ refl)
            | inl gone ↦
                let dropped = drop_entry-IsAccounted st parent_name parent h found in
                elim (Option-cases parent.fork_info) [
                  | inl root ↦ rw (found, cascade_loop, gone, root) dropped
                  | inr (info, fork) ↦
                      rw (found, cascade_loop, gone, fork)
                        (cascade_loop-IsAccounted fuel before (drop_entry st parent_name parent)
                          info.source_name h₀ dropped)
                ]
          ]
    ]

-- `hard_remove_stream` is `drop_entry` where the stream is there.
removed-IsAccounted :
    (st : InMemoryStorage) (name : Str) (o : Option StreamEntry)
    → IsAccounted st
    → lookup name st.streams ≡ o
    → IsAccounted (removed_entry st name o).1
unfolding removed_entry
removed-IsAccounted st name none h e = h
removed-IsAccounted st name (some s) h e = drop_entry-IsAccounted st name s h e

cascade_from-IsAccounted :
    (r : Option ForkInfo × InMemoryStorage) → IsAccounted r.1 → IsAccounted (cascade_from r)
unfolding cascade_from cascade_delete
cascade_from-IsAccounted (none, st) h = h
cascade_from-IsAccounted (some info, st) h =
    cascade_loop-IsAccounted (suc (length st.streams)) st st info.source_name h h

pub remove_for_recreate-IsAccounted :
    (st : InMemoryStorage) (name : Str) → IsAccounted st → IsAccounted (remove_for_recreate st name)
unfolding remove_for_recreate hard_remove_stream get_stream
remove_for_recreate-IsAccounted st name h =
    cascade_from-IsAccounted _ (removed-IsAccounted st name (lookup name st.streams) h refl)

mark_tombstone-IsAccounted :
    (st : InMemoryStorage) (name : Str) (s : StreamEntry)
    → IsAccounted st
    → lookup name st.streams ≡ some s
    → IsAccounted (mark_tombstone st name s)
unfolding mark_tombstone
mark_tombstone-IsAccounted st name s h e = same_size-IsAccounted name h e _ refl

delete_as-IsAccounted :
    (st : InMemoryStorage) (name : Str) (s : StreamEntry) (d : Result DeleteDisposition)
    → IsAccounted st
    → lookup name st.streams ≡ some s
    → IsAccounted (delete_as st name s d).1
unfolding delete_as
delete_as-IsAccounted st name s (err e) h found = h
delete_as-IsAccounted st name s (ok to_tombstone) h found =
    mark_tombstone-IsAccounted st name s h found
delete_as-IsAccounted st name s (ok hard_delete) h found = remove_for_recreate-IsAccounted st name h

delete_found-IsAccounted :
    (st : InMemoryStorage) (name : Str) (o : Option StreamEntry)
    → IsAccounted st
    → lookup name st.streams ≡ o
    → IsAccounted (delete_found st name o).1
unfolding delete_found
delete_found-IsAccounted st name none h e = h
delete_found-IsAccounted st name (some s) h e = delete_as-IsAccounted st name s _ h e

pub delete-IsAccounted :
    (st : InMemoryStorage) (name : Str) → IsAccounted st → IsAccounted (delete st name).1
unfolding delete get_stream
delete-IsAccounted st name h = delete_found-IsAccounted st name (lookup name st.streams) h refl

tombstone_found-IsAccounted :
    (st : InMemoryStorage) (name : Str) (o : Option StreamEntry)
    → IsAccounted st
    → lookup name st.streams ≡ o
    → IsAccounted (tombstone_found st name o)
unfolding tombstone_found
tombstone_found-IsAccounted st name none h e = h
tombstone_found-IsAccounted st name (some s) h e = mark_tombstone-IsAccounted st name s h e

sweep_as-IsAccounted :
    (st : InMemoryStorage) (name : Str) (d : DeleteDisposition)
    → IsAccounted st
    → IsAccounted (sweep_as st name d)
unfolding sweep_as get_stream
sweep_as-IsAccounted st name to_tombstone h =
    tombstone_found-IsAccounted st name (lookup name st.streams) h refl
sweep_as-IsAccounted st name hard_delete h = remove_for_recreate-IsAccounted st name h

sweep-IsAccounted :
    (st : InMemoryStorage) (expired : List (Str × ℕ))
    → IsAccounted st
    → IsAccounted (sweep st expired)
unfolding sweep sweep_one
sweep-IsAccounted st [] h = h
sweep-IsAccounted st ((name, ref_count) ∷ rest) h =
    sweep-IsAccounted (sweep_as st name (evaluate_expired_cleanup ref_count)) rest
      (sweep_as-IsAccounted st name _ h)

pub cleanup-IsAccounted :
    (st : InMemoryStorage) (clock : ℕ → ℕ)
    → IsAccounted st
    → IsAccounted (cleanup_expired_streams st clock).1
unfolding cleanup_expired_streams
cleanup-IsAccounted st clock h = sweep-IsAccounted st (expired_streams st.streams clock 0) h

-- The cascade brings no stream back.
cascade_loop_absent :
    (fuel : ℕ) (before st : InMemoryStorage) (parent_name k : Str)
    → lookup k before.streams ≡ none
    → lookup k st.streams ≡ none
    → lookup k (ended before (cascade_loop fuel st parent_name)).streams ≡ none
unfolding cascade_loop get_stream
cascade_loop_absent zero before st parent_name k h₀ h = h₀
cascade_loop_absent (suc fuel) before st parent_name k h₀ h =
    elim (Option-cases (lookup parent_name st.streams)) [
      | inl missing ↦ rw (missing, cascade_loop) h
      | inr (parent, found) ↦
          elim (Bool-cases (is_tombstone parent.state && (parent.ref_count - 1) == 0)) [
            | inr kept ↦
                rw (found, cascade_loop, kept)
                  (unfold release_parent in absent-insert parent_name k _ st.streams h found)
            | inl gone ↦
                let dropped : lookup k (drop_entry st parent_name parent).streams ≡ none =
                  unfold drop_entry in (absent-remove parent_name k st.streams h) in
                elim (Option-cases parent.fork_info) [
                  | inl root ↦ rw (found, cascade_loop, gone, root) dropped
                  | inr (info, fork) ↦
                      rw (found, cascade_loop, gone, fork)
                        (cascade_loop_absent fuel before (drop_entry st parent_name parent)
                          info.source_name k h₀ dropped)
                ]
          ]
    ]

cascade_from_absent :
    (r : Option ForkInfo × InMemoryStorage) (k : Str)
    → lookup k r.1.streams ≡ none
    → lookup k (cascade_from r).streams ≡ none
unfolding cascade_from cascade_delete
cascade_from_absent (none, st) k h = h
cascade_from_absent (some info, st) k h =
    cascade_loop_absent (suc (length st.streams)) st st info.source_name k h h

removed_absent :
    (st : InMemoryStorage) (name : Str) (o : Option StreamEntry)
    → HasUniqueKeys st.streams
    → lookup name st.streams ≡ o
    → lookup name (removed_entry st name o).1.streams ≡ none
unfolding removed_entry drop_entry
removed_absent st name none u e = e
removed_absent st name (some s) u e = lookup-remove_self name st.streams u

-- What a hard removal takes out is gone, whatever its ancestors' fate.
pub remove_for_recreate_absent :
    (st : InMemoryStorage) (name : Str)
    → HasUniqueKeys st.streams
    → lookup name (remove_for_recreate st name).streams ≡ none
unfolding remove_for_recreate hard_remove_stream get_stream
remove_for_recreate_absent st name u =
    cascade_from_absent _ name (removed_absent st name (lookup name st.streams) u refl)
