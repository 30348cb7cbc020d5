-- ===== src/Storage/Memory/Accounting/Creation.antt =====
-- Creation, forking, replacement and reads keep the byte counters.
use durable_streams_rust.Prelude.{
  ℕ, ◌+◌, ◌-◌, ◌≤◌, ◌<◌, ◌≡◌, refl, ap, Bool, true, false, Option, none, some, List, Str, arith,
  u64_mod,
}
use durable_streams_rust.Prelude.Dict.{lookup, insert, measure_or_zero}
use durable_streams_rust.Protocol.Error.{Result, ok, err}
use durable_streams_rust.Storage.Platform.{Platform}
use durable_streams_rust.Storage.Types.{StreamConfig, StreamOptions}
use durable_streams_rust.Storage.Shared.{release_bytes}
use durable_streams_rust.Storage.Fork
use durable_streams_rust.Storage.Fork.{ExistingCreateDisposition, remove_expired, conflict}
use durable_streams_rust.Storage.Memory.Entry.{
  StreamEntry, InMemoryStorage, get_stream, new_entry, commit_messages,
}
use durable_streams_rust.Storage.Memory.Delete.{remove_for_recreate}
use durable_streams_rust.Storage.Memory.Create.{
  publish, create_fresh, create_as, create_over, create_resolved, create_stream_with_data,
}
use durable_streams_rust.Storage.Memory.Replace.{
  replace_current, replace_checked, replace_found, replace_resolved, replace_stream,
}
use durable_streams_rust.Storage.Memory.Commit.{
  bytes_of, Committed, done, refused, commit_messages-Committed,
}
use durable_streams_rust.Storage.Memory.Accounting.{
  entry_bytes, IsAccounted, insert-IsAccounted, stored_bytes, stored-le,
}
use durable_streams_rust.Storage.Memory.Accounting.Removal.{
  remove_for_recreate-IsAccounted, remove_for_recreate_absent,
}

-- A commit to an entry that is not stored yet and holds nothing.
pub empty-Committed :
    (st : InMemoryStorage) (s : StreamEntry) (ms : List Str)
    → IsAccounted st
    → s.total_bytes ≡ 0
    → bytes_of ms < u64_mod
    → Committed st s ms (commit_messages st s ms)
empty-Committed st s ms h new small =
    commit_messages-Committed st s ms small (omega arith) h.within (omega arith) h.word

-- Storing the new entry where no entry is counted.
pub stored_new-IsAccounted :
    (st : InMemoryStorage) (name : Str) (s' : StreamEntry) (total : ℕ)
    → IsAccounted st
    → lookup name st.streams ≡ none
    → total ≡ st.total_bytes + s'.total_bytes
    → total ≤ st.max_total_bytes
    → s'.total_bytes ≤ st.max_stream_bytes
    → IsAccounted (record st { streams = insert name s' st.streams; total_bytes = total })
stored_new-IsAccounted st name s' total h free moved within small =
    insert-IsAccounted st name s' total h
      (omega (arith, moved, ap (measure_or_zero entry_bytes) free)) within small

publish-IsAccounted :
    (st : InMemoryStorage) (name : Str) (s : StreamEntry) (ms : List Str) (close : Bool)
    (r : Result StreamEntry × InMemoryStorage)
    → IsAccounted st
    → lookup name st.streams ≡ none
    → s.total_bytes ≡ 0
    → Committed st s ms r
    → IsAccounted (publish name close r).1
unfolding publish
publish-IsAccounted st name s ms close r h free new (refused e) = h
publish-IsAccounted st name s ms true r h free new (done s' total pushed counted within small) =
    stored_new-IsAccounted st name _ total h free (omega arith) within small
publish-IsAccounted st name s ms false r h free new (done s' total pushed counted within small) =
    stored_new-IsAccounted st name s' total h free (omega arith) within small

create_fresh-IsAccounted :
    (st : InMemoryStorage) (name : Str) (config : StreamConfig) (ms : List Str) (close : Bool)
    (now : ℕ)
    → IsAccounted st
    → lookup name st.streams ≡ none
    → bytes_of ms < u64_mod
    → IsAccounted (create_fresh st name config ms close now).1
unfolding create_fresh
create_fresh-IsAccounted st name config ms close now h free small =
    publish-IsAccounted st name (new_entry config now) ms close _ h free (unfold new_entry in refl)
      (empty-Committed st (new_entry config now) ms h (unfold new_entry in refl) small)

create_as-IsAccounted :
    (st : InMemoryStorage) (name : Str) (s : StreamEntry) (config : StreamConfig) (ms : List Str)
    (close : Bool) (clock : ℕ → ℕ) (d : ExistingCreateDisposition)
    → IsAccounted st
    → bytes_of ms < u64_mod
    → IsAccounted (create_as st name s config ms close clock d).1
unfolding create_as
create_as-IsAccounted st name s config ms close clock remove_expired h small =
    create_fresh-IsAccounted (remove_for_recreate st name) name config ms close (clock 2)
      (remove_for_recreate-IsAccounted st name h) (remove_for_recreate_absent st name h.unique)
      small
create_as-IsAccounted st name s config ms close clock Fork.already_exists h small = h
create_as-IsAccounted st name s config ms close clock (conflict e) h small = h

create_over-IsAccounted :
    (st : InMemoryStorage) (name : Str) (o : Option StreamEntry) (config : StreamConfig)
    (ms : List Str) (close : Bool) (clock : ℕ → ℕ)
    → IsAccounted st
    → lookup name st.streams ≡ o
    → bytes_of ms < u64_mod
    → IsAccounted (create_over st name o config ms close clock).1
unfolding create_over
create_over-IsAccounted st name none config ms close clock h e small =
    create_fresh-IsAccounted st name config ms close (clock 2) h e small
create_over-IsAccounted st name (some s) config ms close clock h e small =
    create_as-IsAccounted st name s config ms close clock _ h small

create_resolved-IsAccounted :
    {V : Type 0} (platform : Platform V) (st : InMemoryStorage) (name : Str) (ms : List Str)
    (close : Bool) (clock : ℕ → ℕ) (r : Result StreamConfig)
    → IsAccounted st
    → bytes_of ms < u64_mod
    → IsAccounted (create_resolved platform st name ms close clock r).1
unfolding create_resolved get_stream
create_resolved-IsAccounted platform st name ms close clock (err e) h small = h
create_resolved-IsAccounted platform st name ms close clock (ok config) h small =
    create_over-IsAccounted st name (lookup name st.streams) config ms _ clock h refl small

pub create-IsAccounted :
    {V : Type 0} (platform : Platform V) (st : InMemoryStorage) (name : Str)
    (options : StreamOptions) (ms : List Str) (close : Bool) (clock : ℕ → ℕ)
    → IsAccounted st
    → bytes_of ms < u64_mod
    → IsAccounted (create_stream_with_data platform st name options ms close clock).1
unfolding create_stream_with_data
create-IsAccounted platform st name options ms close clock h small =
    create_resolved-IsAccounted platform st name ms close clock _ h small

module _ {st : InMemoryStorage} (name : Str) {current : StreamEntry} (h : IsAccounted st)
    (found : lookup name st.streams ≡ some current) where
  replace_current-IsAccounted :
      (s : StreamEntry) (ms : List Str) (closed : Bool) (r : Result StreamEntry × InMemoryStorage)
      → s.total_bytes ≡ 0
      → Committed st s ms r
      → IsAccounted (replace_current name current closed r).1
  unfolding replace_current release_bytes
  replace_current-IsAccounted s ms closed r new (refused e) = h
  replace_current-IsAccounted s ms closed r new (done s' total pushed counted within small) =
      insert-IsAccounted st name _ (total - current.total_bytes) h
        (omega (arith, stored_bytes name h found, stored-le name h found)) (omega arith) small

  replace_checked-IsAccounted :
      (config : StreamConfig) (ms : List Str) (closed : Bool) (now : ℕ) (r : Result (Unit {0}))
      → bytes_of ms < u64_mod
      → IsAccounted (replace_checked st name current config ms closed now r).1
  unfolding replace_checked
  replace_checked-IsAccounted config ms closed now (err e) small = h
  replace_checked-IsAccounted config ms closed now (ok u) small =
      replace_current-IsAccounted (new_entry config now) ms closed _ (unfold new_entry in refl)
        (empty-Committed st (new_entry config now) ms h (unfold new_entry in refl) small)

replace_found-IsAccounted :
    (st : InMemoryStorage) (name : Str) (o : Option StreamEntry) (config : StreamConfig)
    (ms : List Str) (closed : Bool) (now : ℕ)
    → IsAccounted st
    → lookup name st.streams ≡ o
    → bytes_of ms < u64_mod
    → IsAccounted (replace_found st name o config ms closed now).1
unfolding replace_found
replace_found-IsAccounted st name none config ms closed now h e small = h
replace_found-IsAccounted st name (some current) config ms closed now h e small =
    replace_checked-IsAccounted name h e config ms closed now _ small

replace_resolved-IsAccounted :
    {V : Type 0} (platform : Platform V) (st : InMemoryStorage) (name : Str) (ms : List Str)
    (closed : Bool) (clock : ℕ → ℕ) (r : Result StreamConfig)
    → IsAccounted st
    → bytes_of ms < u64_mod
    → IsAccounted (replace_resolved platform st name ms closed clock r).1
unfolding replace_resolved get_stream
replace_resolved-IsAccounted platform st name ms closed clock (err e) h small = h
replace_resolved-IsAccounted platform st name ms closed clock (ok config) h small =
    replace_found-IsAccounted st name (lookup name st.streams) config ms _ (clock 1) h refl small

pub replace-IsAccounted :
    {V : Type 0} (platform : Platform V) (st : InMemoryStorage) (name : Str)
    (options : StreamOptions) (ms : List Str) (closed : Bool) (clock : ℕ → ℕ)
    → IsAccounted st
    → bytes_of ms < u64_mod
    → IsAccounted (replace_stream platform st name options ms closed clock).1
unfolding replace_stream
replace-IsAccounted platform st name options ms closed clock h small =
    replace_resolved-IsAccounted platform st name ms closed clock _ h small
