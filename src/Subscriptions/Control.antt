-- ===== src/Subscriptions/Control.antt =====
-- subscriptions/api.rs: claims, links, creation, and the transaction around a request.
use durable_streams_rust.Prelude.{
  starts_with, ℕ, ◌+◌, Bool, true, false, ◌||◌, Option, none, some, List, [], ◌∷◌, Str, text,
  str_eq, length, ltb, if◌then◌else◌, trim,
}
use durable_streams_rust.Prelude.Dict.{Dict, lookup, remove}
use durable_streams_rust.Prelude.Ordered.{put}
use durable_streams_rust.Protocol.Error
use durable_streams_rust.Protocol.Offset.{as_str}
use durable_streams_rust.Protocol.StreamName.{name_is_empty}
use durable_streams_rust.Storage.Types.{StreamMetadata}
use durable_streams_rust.Subscriptions.Api.{
  ApiError, ApiResult, err, ok, bad, conflict, internal, invalid_json, ok_or, ◌>>=◌, ◌>>◌,
}
use durable_streams_rust.Subscriptions.Model.{
  Configuration, Link, Wake, Subscription, Database, or_else, validate_path, config_matches,
  snapshots, pending,
}
use durable_streams_rust.Subscriptions.Tokens.{Primitives, token}
use durable_streams_rust.Subscriptions.Wakes.{first_offset, new_wake, with_wake}
use durable_streams_rust.Subscriptions.Completion.{Completion, Response, no_content, claimed}

pub data Method : Type 0 where
  get put_request post delete other_method : Method

pub record Request : Type 0 where
  pub method : Method
  -- The path behind `/__ds/`.
  pub control : Str
  pub authorization : Option Str
  pub body : Str
  pub scheme : Str
  pub authority : Option Str

-- The crates and the storage as the handlers see them during one request. `write` is the outcome
-- of `save_subscription_state`, `head` that of the storage's `head`, and `webhook_url` that of
-- `webhook_client`.
pub record Environment : Type 0 where
  pub primitives : Primitives
  pub parse_completion : Str → Option Completion
  pub parse_claim : Str → Option Str
  pub parse_membership : Str → Option (List Str)
  pub parse_configuration : Str → Option Configuration
  pub configuration_to_vec : Configuration → Option Str
  pub database_to_vec : Database → Option Str
  pub hash : Str → Str
  pub is_key : Str → Bool
  pub random : Option Str
  pub now : ℕ
  pub timestamp : Str
  pub list_streams : Error.Result (Dict StreamMetadata)
  pub head : Str → Error.Result StreamMetadata
  pub webhook_url : Str → ApiResult Str
  pub write : Str → Error.Result (Unit {0})

-- What the service keeps in memory, and what the storage holds of it.
pub record Service : Type 0 where
  pub database : Database
  pub persisted : Option Str

-- From<Error> for ApiError
abbrev pub from_storage {ℓ} : {T : Type ℓ} → Error.Result T → ApiResult T
from_storage (Error.err e) = err (internal (text "subscription storage operation failed"))
from_storage (Error.ok value) = ok value

-- The loop of `tails` over the listed streams.
unfoldable pub collect_tails : Dict StreamMetadata → Dict Str → Dict Str
collect_tails [] found = found
collect_tails ((name, meta) ∷ streams) found =
    collect_tails streams
      (if starts_with (text "__ds/") name then found else put name (as_str meta.next_offset) found)

unfoldable pub tails : Environment → ApiResult (Dict Str)
tails env = do streams ← from_storage env.list_streams; ok (collect_tails streams [])

unfoldable pub check_worker : Str → ApiResult (Unit {0})
check_worker worker =
    if name_is_empty (trim worker) || ltb 256 (length worker)
    then err (bad (text "INVALID_WORKER") (text "worker must be a non-empty name"))
    else ok tt

unfoldable pub no_work : ApiError
no_work = conflict (text "NO_PENDING_WORK") (text "subscription has no pending work")

unfoldable pub already_claimed : Str → ℕ → ApiError
already_claimed holder generation =
    record (conflict (text "ALREADY_CLAIMED") (text "another worker holds this subscription")) {
      extra = some (holder, generation);
    }

unfoldable pub check_holder : Wake → ApiResult (Unit {0})
check_holder wake = elim wake.holder [
  | none ↦ ok tt
  | some holder ↦ err (already_claimed holder wake.generation)
]

module _ (p : Primitives) where
  -- The wake to claim, and the subscription that has it.
  unfoldable pub claimable_wake :
      Subscription
      → Option Wake
      → Str
      → Str
      → Dict Str
      → ℕ
      → Option Str
      → ApiResult (Wake × Subscription)
  claimable_wake sub (some wake) id key tails now random = do check_holder wake; ok (wake, sub)
  claimable_wake sub none id key tails now random = do
    (if pending sub tails then ok tt else err no_work)
    wake ← new_wake p sub id key tails now random
    ok (wake, with_wake sub wake now)

  -- The rest of a claim, once there is a wake.
  unfoldable pub take_wake :
      Subscription → Wake → Str → Str → Str → Dict Str → ℕ → ApiResult (Response × Subscription)
  take_wake sub wake worker id key tails now = do
    t ← token p key (record { subscription = id; generation = wake.generation; wake_id = wake.id })
    ok (
      claimed wake.id wake.generation t (snapshots sub tails) sub.config.lease_ttl_ms,
      record sub {
        failed = false;
        wake = some (record wake {
          token = some t;
          holder = some worker;
          lease_until = some (now + sub.config.lease_ttl_ms);
          delivered = true;
        });
      },
    )

  unfoldable pub claim_subscription :
      (Str → Option Str)
      → Subscription
      → Str
      → Str
      → Str
      → Dict Str
      → ℕ
      → Option Str
      → ApiResult (Response × Subscription)
  claim_subscription parse sub id key body tails now random = do
    worker ← ok_or invalid_json (parse body)
    check_worker worker
    found ← claimable_wake sub sub.wake id key tails now random
    take_wake found.1 found.0 worker id key tails now

-- `and_modify(…).or_insert_with(…)`
unfoldable pub link_explicitly : Str → Dict Str → Dict Link → Dict Link
link_explicitly path tails links = elim (lookup path links) [
  | none ↦
      put path (record { explicit = true; acked_offset = or_else first_offset (lookup path tails) })
        links
  | some link ↦ put path (record link { explicit = true }) links
]

abbrev pub option_str_is : Option Str → Str → Bool
option_str_is none s = false
option_str_is (some t) s = str_eq t s

unfoldable pub add_paths : Configuration → Dict Str → List Str → Dict Link → ApiResult (Dict Link)
add_paths c tails [] links = ok links
add_paths c tails (path ∷ paths) links = do
  validate_path path
  (if option_str_is c.wake_stream path
      then err (bad (text "INVALID_PATH") (text "cannot link the wake stream"))
      else ok tt)
  add_paths c tails paths (link_explicitly path tails links)

unfoldable pub add_streams :
    (Str → Option (List Str)) → Subscription → Str → Dict Str → ApiResult (Response × Subscription)
add_streams parse sub body tails = do
  paths ← ok_or invalid_json (parse body)
  links ← add_paths sub.config tails paths sub.links
  ok (no_content, record sub { links = links })

-- `DELETE …/streams/{path}`
unfoldable pub unlink_found : Subscription → Str → Option Link → Subscription
unlink_found sub path none = sub
unlink_found sub path (some link) = record sub {
  links = put path (record link { explicit = false }) sub.links;
}

unfoldable pub remove_stream : Subscription → Str → ApiResult (Response × Subscription)
unfolding unlink_found
remove_stream sub path = do
  validate_path path
  ok (
    no_content,
    if config_matches sub.config path
        then unlink_found sub path (lookup path sub.links)
        else record sub { links = remove path sub.links },
  )
