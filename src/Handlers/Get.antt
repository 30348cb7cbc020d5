-- ===== src/Handlers/Get.antt =====
-- handlers/get.rs: reads over HTTP, on the store in memory: at once, and by long polling.
use durable_streams_rust.Prelude.{
  ℕ, true, false, Option, none, some, Str, text, ◌++◌, if◌then◌else◌,
}
use durable_streams_rust.Protocol.Error.{Result, ok, err, invalid_header, not_found}
use durable_streams_rust.Protocol.Offset.{Offset, as_str}
use durable_streams_rust.Storage.Platform.{Platform}
use durable_streams_rust.Storage.Types.{ReadResult}
use durable_streams_rust.Storage.Memory.Entry.{InMemoryStorage}
use durable_streams_rust.Storage.Memory.Append.{subscribe}
use durable_streams_rust.Storage.Memory.Chain.{read}
use durable_streams_rust.Handlers.Events.{at_end, has_none}
use durable_streams_rust.Handlers.Problem.{of_error}
use durable_streams_rust.Handlers.Reads.{
  Reply, without_body, generate_etag, is_unmodified, build_304_response, data_reply, polled_reply,
  empty_reply,
}

-- The query, and the If-None-Match header where it is visible ASCII.
pub record ReadQuery : Type 0 where
  pub offset : Option Str
  pub live : Option Str
  pub if_none_match : Option Str

unfoldable pub resolve_offset : ReadQuery → Result Str
resolve_offset query = elim query.live [
  | some live ↦ elim query.offset [
    | some offset ↦ ok offset
    | none ↦ err (
        invalid_header (text "offset")
          (text "offset query parameter is required for live=" ++ (live ++ text " mode")))
  ]
  | none ↦ elim query.offset [ some offset ↦ ok offset | none ↦ ok (text "-1") ]
]

-- The rest of `read_catch_up`, after the read.
unfoldable pub catch_up_reply :
    Str → Option Str → Str → ℕ → Result ReadResult × InMemoryStorage → Reply
unfolding generate_etag is_unmodified build_304_response data_reply
catch_up_reply raw_offset if_none_match content_type last (err e, st) =
    without_body (of_error e) st last
catch_up_reply raw_offset if_none_match content_type last (ok r, st) =
    let etag = generate_etag raw_offset r in
    if is_unmodified etag if_none_match
    then without_body (build_304_response r) st last
    else data_reply r content_type etag st last

-- What ends the wait of a long poll, with the store as it is then and the readings of the clock.
pub data PollEnd : Type 0 where
  awake : InMemoryStorage → (ℕ → ℕ) → PollEnd
  cancelled : InMemoryStorage → PollEnd

unfoldable pub wake_reply : Str → Str → ℕ → Result ReadResult × InMemoryStorage → Reply
unfolding empty_reply polled_reply generate_etag
wake_reply raw_offset content_type last (err e, st) = without_body (of_error e) st last
wake_reply raw_offset content_type last (ok r, st) =
    if has_none r.messages
    then empty_reply r.next_offset (at_end r) st last
    else polled_reply r content_type (generate_etag raw_offset r) st last

unfoldable pub map_read :
    (Result ReadResult × InMemoryStorage → Reply)
    → Option (Result ReadResult × InMemoryStorage)
    → Option Reply
map_read f none = none
map_read f (some outcome) = some (f outcome)

unfoldable pub poll_read :
    Option (Result ReadResult × InMemoryStorage)
    → (Result ReadResult × InMemoryStorage → Option Reply)
    → Option Reply
poll_read none f = none
poll_read (some outcome) f = f outcome

module _ {V : Type 0} (platform : Platform V) where
  -- After the wait: `handle_long_poll_wake`, or the last snapshot.
  unfoldable pub after_wait : Str → Str → ReadResult → ℕ → PollEnd → Option Reply
  unfolding wake_reply map_read empty_reply
  after_wait name content_type r last (awake st clock) =
      map_read (wake_reply (as_str r.next_offset) content_type last)
        (read platform st name r.next_offset clock)
  after_wait name content_type r last (cancelled st) =
      some (empty_reply r.next_offset false st last)

  -- The rest of `read_long_poll`, after the read.
  unfoldable pub poll_reply :
      Str
      → Str
      → Option Str
      → Str
      → ℕ
      → PollEnd
      → Result ReadResult × InMemoryStorage
      → Option Reply
  unfolding generate_etag is_unmodified build_304_response polled_reply empty_reply after_wait
  poll_reply name raw_offset if_none_match content_type last wake (err e, st) =
      some (without_body (of_error e) st last)
  poll_reply name raw_offset if_none_match content_type last wake (ok r, st) =
      let etag = generate_etag raw_offset r in
      if is_unmodified etag if_none_match
      then some (without_body (build_304_response r) st last)
      else if has_none r.messages
      then if at_end r
        then some (empty_reply r.next_offset true st last)
        else after_wait name content_type r last wake
      else some (polled_reply r content_type etag st last)

  -- `subscribe_and_read`, then the rest of the long poll.
  unfoldable pub poll_subscribed :
      InMemoryStorage
      → Str
      → Offset
      → (ℕ → ℕ)
      → Option ℕ
      → (Result ReadResult × InMemoryStorage → Option Reply)
      → Option Reply
  unfolding poll_read
  poll_subscribed st name offset clock none f = f (err (not_found name), st)
  poll_subscribed st name offset clock (some channel) f =
      poll_read (read platform st name offset clock) f

  unfoldable pub read_catch_up :
      InMemoryStorage → Str → Offset → Str → Option Str → Str → (ℕ → ℕ) → ℕ → Option Reply
  unfolding catch_up_reply map_read
  read_catch_up st name offset raw_offset if_none_match content_type clock last =
      map_read (catch_up_reply raw_offset if_none_match content_type last)
        (read platform st name offset clock)

  -- `now` is the reading of `subscribe`.
  unfoldable pub read_long_poll :
      InMemoryStorage
      → Str
      → Offset
      → Str
      → Option Str
      → Str
      → ℕ
      → (ℕ → ℕ)
      → ℕ
      → PollEnd
      → Option Reply
  unfolding poll_subscribed poll_reply
  read_long_poll st name offset raw_offset if_none_match content_type now clock last wake =
      poll_subscribed st name offset clock (subscribe st name now)
        (poll_reply name raw_offset if_none_match content_type last wake)
