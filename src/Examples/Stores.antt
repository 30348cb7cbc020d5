-- ===== src/Examples/Stores.antt =====
-- The theorems on the store at concrete calls.
use durable_streams_rust.Prelude.{false, none, arith}
use durable_streams_rust.Storage.Memory.Entry.{InMemoryStorage, new_storage}
use durable_streams_rust.Storage.Memory.Append.{append_batch}
use durable_streams_rust.Storage.Memory.Create.{create_stream_with_data}
use durable_streams_rust.Storage.Memory.Accounting.{IsAccounted}
use durable_streams_rust.Storage.Memory.Steps.{
  Reach, here, next, creates, appends, reachable-IsAccounted,
}
use durable_streams_rust.Examples.Setting.{
  plain, ticking, orders, plain_text, plain_options, two_messages,
}

abbrev empty_store : InMemoryStorage
empty_store = new_storage 1000 500

-- One stream with two messages.
abbrev with_orders : InMemoryStorage
with_orders =
    (create_stream_with_data plain empty_store orders plain_options two_messages false ticking).1

-- The stream after one more batch.
abbrev appended : InMemoryStorage
appended = (append_batch plain with_orders orders two_messages plain_text none false ticking).1

appended_reached : Reach plain empty_store appended
appended_reached =
    next (next here (creates orders plain_options two_messages false ticking (omega arith)))
      (appends orders two_messages plain_text none false ticking (omega arith))

appended_example : IsAccounted appended
appended_example = reachable-IsAccounted plain 1000 500 appended (omega arith) appended_reached
