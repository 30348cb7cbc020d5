-- ===== src/Examples/Removals.antt =====
-- The theorems on deletion and creation at concrete calls.
use durable_streams_rust.Prelude.{
  ◌||◌, none, ◌≡◌, refl, true, false, some, [], ◌∷◌, text, arith, str_eq, to_lowercase, trim,
}
use durable_streams_rust.Prelude.Dict.{lookup, insert}
use durable_streams_rust.Protocol.Error.{ok, err}
use durable_streams_rust.Protocol.Offset
use durable_streams_rust.Protocol.Headers.{normalize_content_type}
use durable_streams_rust.Storage.Types
use durable_streams_rust.Storage.Types.{
  StreamConfig, new_message, created, CreateWithDataResult, resolve, resolve_expiry, ttl_deadline,
  active,
}
use durable_streams_rust.Storage.Access.{is_stream_expired}
use durable_streams_rust.Storage.Fork.{evaluate_delete}
use durable_streams_rust.Storage.Memory.Entry.{
  StreamEntry, InMemoryStorage, tail_offset, new_storage, new_entry, get_stream, commit_messages,
  commit_reserved, push_messages, push_message,
}
use durable_streams_rust.Storage.Shared.{reserve_bytes, payload_bytes}
use durable_streams_rust.Storage.Memory.Append.{append_batch, head}
use durable_streams_rust.Storage.Memory.Create.{
  create_stream_with_data, create_resolved, create_over, create_fresh, publish,
}
use durable_streams_rust.Storage.Memory.Delete.{
  cascade_loop, cascade_delete, delete, delete_found, delete_as,
}
use durable_streams_rust.Storage.Memory.Closing.{
  Appends, here, batch, producer, IsShut, Appends-closed,
}
use durable_streams_rust.Storage.Memory.Append.{append_batch, append_with_producer}
use durable_streams_rust.Storage.Memory.Deletion.{
  deleted_error, delete-head, Cascades, cascade_delete-Cascades,
}
use durable_streams_rust.Storage.Memory.Layout.{IsLaidOut}
use durable_streams_rust.Storage.Memory.Creation.{create-IsLaidOut}
use durable_streams_rust.Storage.Memory.Recreation.{create-create}
use durable_streams_rust.Prelude.Split.{decimal}
use durable_streams_rust.Handlers.Problem.{answer_status}
use durable_streams_rust.Handlers.Delete.{delete_stream, delete_answer}
use durable_streams_rust.Handlers.Head.{stream_metadata}
use durable_streams_rust.Handlers.Gone.{delete_stream-gone}
use durable_streams_rust.Examples.Setting.{
  plain, ticking, orders, plain_text, plain_options, two_messages, orders_entry, shop,
}

-- The stream of the shop, with one fork.
abbrev forked : StreamEntry
forked = record orders_entry { ref_count = 1 }

abbrev shop_forked : InMemoryStorage
shop_forked = record shop { streams = (orders, forked) ∷ [] }

forked_found : get_stream shop_forked orders ≡ some forked
unfolding get_stream lookup str_eq
forked_found = refl

forked_deleted : (delete shop_forked orders).0 ≡ ok tt
unfolding delete delete_found delete_as evaluate_delete get_stream lookup str_eq
forked_deleted = refl

delete-head_example : head (delete shop_forked orders).1 orders 2000 ≡ err (deleted_error orders 1)
delete-head_example =
    delete-head shop_forked orders forked 2000 (tt, tt) forked_found forked_deleted

forked_answered : answer_status (delete_stream shop_forked orders).0 ≡ 204
unfolding delete delete_found delete_as evaluate_delete get_stream lookup str_eq delete_stream
    delete_answer answer_status
forked_answered = refl

delete_stream-gone_example :
    answer_status (stream_metadata decimal (delete_stream shop_forked orders).1 orders 2000 2001)
    ≡ 410
delete_stream-gone_example =
    delete_stream-gone decimal shop_forked orders forked 2000 2001 (tt, tt) forked_found
      forked_answered

cascade_delete-Cascades_example :
    (cascade_loop 2 shop_forked orders ≡ some (cascade_delete shop_forked orders))
    × Cascades shop_forked orders (cascade_delete shop_forked orders)
cascade_delete-Cascades_example = cascade_delete-Cascades shop_forked orders

abbrev sixty : StreamConfig
sixty = record {
  content_type = plain_text;
  ttl_seconds = some 60;
  expires_at = some 60000001000;
  created_closed = false;
}

abbrev made : StreamEntry
made = record orders_entry {
  config = sixty;
  messages =
      new_message (Offset.new 0 0) (text "a") ∷ new_message (Offset.new 1 1) (text "bc") ∷ [];
  next_read_seq = 2;
  next_byte_offset = 3;
  total_bytes = 3;
  created_at = 1002;
  notify = 1;
}

abbrev market : InMemoryStorage
market = record (new_storage 100 50) { streams = (orders, made) ∷ []; total_bytes = 3 }

abbrev made_result : CreateWithDataResult
made_result = record { status = created; next_offset = Offset.new 2 3; closed = false }

made_run :
    create_stream_with_data plain
      (new_storage 100 50)
      orders
      plain_options
      two_messages
      false
      ticking
    ≡ (ok made_result, market)
unfolding create_stream_with_data create_resolved create_over create_fresh publish resolve
    resolve_expiry ttl_deadline normalize_content_type to_lowercase trim new_storage new_entry
    commit_messages commit_reserved reserve_bytes payload_bytes push_messages push_message
    get_stream lookup insert str_eq
made_run = refl

made_found : get_stream market orders ≡ some made
unfolding get_stream lookup str_eq
made_found = refl

made_resolved : resolve plain plain_options (ticking 0) ≡ ok sixty
unfolding resolve resolve_expiry ttl_deadline normalize_content_type to_lowercase trim
made_resolved = refl

made_fresh : is_stream_expired made.config (ticking 1) ≡ false
unfolding is_stream_expired
made_fresh = refl

create-create_example :
    create_stream_with_data plain market orders plain_options [] true ticking ≡ (
      ok (record { status = Types.already_exists; next_offset = Offset.new 2 3; closed = false }),
      market,
    )
create-create_example =
    create-create plain (new_storage 100 50) orders plain_options two_messages [] false true ticking
      ticking made_result market made sixty made_run refl made_found made_resolved made_fresh

-- The stream of the shop, closed.
abbrev shut : StreamEntry
shut = record orders_entry { closed = true }

abbrev shop_shut : InMemoryStorage
shop_shut = record shop { streams = (orders, shut) ∷ [] }

shut_found : get_stream shop_shut orders ≡ some shut
unfolding get_stream lookup str_eq
shut_found = refl

-- A refused batch, and a refused append of a producer.
shut_appends :
    Appends plain shop_shut
      (append_with_producer plain
        (append_batch plain shop_shut orders two_messages plain_text none true ticking).1
        orders
        two_messages
        plain_text
        (record { id = text "w"; epoch = 1; seq = 0 })
        false
        none
        ticking).1
shut_appends =
    producer orders two_messages plain_text _ false none ticking
      (batch orders two_messages plain_text none true ticking here)

Appends-closed_example :
    (s' : StreamEntry) × (get_stream
        (append_with_producer plain
          (append_batch plain shop_shut orders two_messages plain_text none true ticking).1
          orders
          two_messages
          plain_text
          (record { id = text "w"; epoch = 1; seq = 0 })
          false
          none
          ticking).1
        orders
      ≡ some s')
    × IsShut [] (tail_offset shut) s'
Appends-closed_example = Appends-closed plain shop_shut _ orders shut shut_found refl shut_appends

create-IsLaidOut_example :
    IsLaidOut 0 0 made two_messages
    × (false ≡ (false || plain_options.created_closed))
    × (Offset.new 2 3 ≡ Offset.new 2 3)
create-IsLaidOut_example =
    create-IsLaidOut plain (new_storage 100 50) orders plain_options two_messages false ticking
      made_result market made made_run refl made_found (omega arith) (omega arith)
