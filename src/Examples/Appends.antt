-- ===== src/Examples/Appends.antt =====
-- The theorems on appends and reads at concrete calls.
use durable_streams_rust.Prelude.{
  ◌≡◌, refl, true, false, none, some, [], ◌∷◌, text, arith, str_eq, eq_ignore_ascii_case,
}
use durable_streams_rust.Prelude.Dict.{lookup, insert}
use durable_streams_rust.Protocol.Error.{ok}
use durable_streams_rust.Protocol.Offset
use durable_streams_rust.Storage.Types.{AppendResult, new_message}
use durable_streams_rust.Storage.Access.{
  check_stream_access, is_stream_expired, validate_content_type, renew_ttl,
}
use durable_streams_rust.Storage.Shared.{
  validate_batch_shape, payload_bytes, reserve_bytes, validate_seq, precheck_batch_append,
  precheck_append, apply_append_metadata,
}
use durable_streams_rust.Storage.Memory.Entry.{
  StreamEntry, InMemoryStorage, get_stream, commit_messages, commit_reserved, push_messages,
  push_message,
}
use durable_streams_rust.Storage.Memory.Append.{
  append_batch, append_shaped, append_found, prepare_append, commit_prepared, finish_append,
  append_with_producer,
}
use durable_streams_rust.Storage.Memory.Chain.{read}
use durable_streams_rust.Storage.Memory.Accounting.{IsAccounted}
use durable_streams_rust.Storage.Memory.Layout.{IsLaidOut}
use durable_streams_rust.Storage.Memory.Reading.{
  Returns, IsReadable, read-IsLaidOut, append_batch-IsLaidOut, append_batch-read,
}
use durable_streams_rust.Storage.Memory.Atomicity.{
  FailsUnchanged, FailsPruned, append_batch-FailsUnchanged, append_with_producer-FailsPruned,
}
use durable_streams_rust.Examples.Setting.{
  plain, ticking, orders, plain_text, two_messages, orders_config, orders_entry, shop, writer,
}

abbrev pub after_append : StreamEntry
after_append = record orders_entry {
  messages =
      new_message (Offset.new 0 0) (text "a") ∷ new_message (Offset.new 1 1) (text "bc") ∷ [];
  next_read_seq = 2;
  next_byte_offset = 3;
  total_bytes = 3;
  updated_at = some 1001;
  notify = 2;
}

abbrev pub shop_after : InMemoryStorage
shop_after = record shop { streams = (orders, after_append) ∷ []; total_bytes = 3 }

abbrev pub append_outcome : AppendResult
append_outcome = record {
  start_offset = Offset.new 0 0;
  next_offset = Offset.new 2 3;
  closed = false;
}

pub append_run :
    append_batch plain shop orders two_messages plain_text none false ticking
    ≡ (ok append_outcome, shop_after)
unfolding append_batch append_shaped append_found prepare_append commit_prepared finish_append
    validate_batch_shape payload_bytes reserve_bytes validate_seq precheck_batch_append
    precheck_append apply_append_metadata check_stream_access is_stream_expired
    validate_content_type renew_ttl eq_ignore_ascii_case str_eq lookup insert get_stream
    commit_messages commit_reserved push_messages push_message
append_run = refl

pub shop-IsReadable : IsReadable plain orders after_append ticking
unfolding check_stream_access is_stream_expired renew_ttl
shop-IsReadable = record {
  first_check = refl;
  second_check = refl;
  renewed = (orders_config, false);
  renews = refl;
}

pub shop-IsLaidOut : IsLaidOut 0 0 orders_entry []
shop-IsLaidOut = record { laid_out = refl; seq_end = refl; byte_end = refl }

pub shop_found : get_stream shop orders ≡ some orders_entry
unfolding get_stream lookup str_eq
shop_found = refl

pub after_found : get_stream shop_after orders ≡ some after_append
unfolding get_stream lookup str_eq
after_found = refl

append_batch-read_example :
    Returns
      (record {
        messages = two_messages;
        next_offset = Offset.new 2 3;
        at_tail = true;
        closed = false;
      })
      (read plain shop_after orders (Offset.new 0 0) ticking)
append_batch-read_example =
    append_batch-read plain shop orders two_messages plain_text none false ticking ticking
      append_outcome shop_after orders_entry after_append [] 0 0 append_run shop_found after_found
      shop-IsLaidOut (omega arith) (omega arith) refl shop-IsReadable

append_batch-IsLaidOut_example :
    IsLaidOut 0 0 after_append two_messages
    × (Offset.new 0 0 ≡ Offset.new 0 0)
    × (Offset.new 2 3 ≡ Offset.new 2 3)
    × (false ≡ false)
    × (false ≡ false)
append_batch-IsLaidOut_example =
    append_batch-IsLaidOut plain shop orders two_messages plain_text none false ticking
      append_outcome shop_after orders_entry after_append [] 0 0 append_run shop_found after_found
      shop-IsLaidOut (omega arith) (omega arith)

after_IsLaidOut : IsLaidOut 0 0 after_append (text "a" ∷ text "bc" ∷ [])
after_IsLaidOut = record { laid_out = refl; seq_end = refl; byte_end = refl }

read-IsLaidOut_example :
    Returns
      (record {
        messages = text "bc" ∷ [];
        next_offset = Offset.new 2 3;
        at_tail = true;
        closed = false;
      })
      (read plain shop_after orders (Offset.new 1 1) ticking)
read-IsLaidOut_example =
    read-IsLaidOut plain shop_after orders after_append ticking (text "a" ∷ []) (text "bc" ∷ []) 0 0
      after_IsLaidOut after_found refl shop-IsReadable

pub shop-IsAccounted : IsAccounted shop
shop-IsAccounted = record {
  unique = (tt, tt);
  counted = refl;
  within = omega arith;
  each = (omega arith, tt);
  word = omega arith;
}

-- An append to a name without a stream fails.
append_batch-FailsUnchanged_example :
    FailsUnchanged shop
      (append_batch plain shop plain_text two_messages plain_text none false ticking)
append_batch-FailsUnchanged_example =
    append_batch-FailsUnchanged plain shop plain_text two_messages plain_text none false ticking
      shop-IsAccounted (omega arith)

append_with_producer-FailsPruned_example :
    FailsPruned shop plain_text
      (append_with_producer plain shop plain_text two_messages plain_text writer false none ticking)
append_with_producer-FailsPruned_example =
    append_with_producer-FailsPruned plain shop plain_text two_messages plain_text writer false none
      ticking shop-IsAccounted (omega arith)
