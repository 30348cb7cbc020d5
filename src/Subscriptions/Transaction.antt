-- ===== src/Subscriptions/Transaction.antt =====
-- subscriptions/api.rs and mod.rs: a request of the control API, from its body to the saved state.
use durable_streams_rust.Prelude.{
  strip_prefix, ℕ, Bool, true, false, not, ◌&&◌, ◌||◌, Option, none, some, List, [], ◌∷◌, ◌++◌, Str,
  text, str_eq, length, leb, ◌==◌, if◌then◌else◌,
}
use durable_streams_rust.Prelude.Dict.{Dict, lookup}
use durable_streams_rust.Prelude.Ordered.{put}
use durable_streams_rust.Protocol.Error
use durable_streams_rust.Protocol.StreamName.{name_is_empty}
use durable_streams_rust.Storage.Types.{StreamMetadata}
use durable_streams_rust.Subscriptions.Api.{
  ApiResult, err, ok, bad, conflict, missing, internal, invalid_json, ok_or, ◌>>=◌, ◌>>◌,
}
use durable_streams_rust.Subscriptions.Model.{
  Configuration, Webhook, Link, Subscription, Database, is_webhook, contains, or_else, validate,
  config_matches,
}
use durable_streams_rust.Subscriptions.Tokens.{split_once}
use durable_streams_rust.Subscriptions.Wakes.{first_offset, refresh}
use durable_streams_rust.Subscriptions.Completion.{
  Response, no_content, described, created, key_set, complete,
}
use durable_streams_rust.Subscriptions.Control.{
  Method, get, put_request, post, delete, other_method, Request, Environment, Service, from_storage,
  tails, claim_subscription, add_streams, remove_stream,
}

-- Service::save. What is in memory is replaced only after the write, if one is needed.
unfoldable pub write_changed : Environment → Service → Str → Str → ApiResult (Option Str)
write_changed env service old bytes =
    if str_eq old bytes
    then ok service.persisted
    else do from_storage (env.write bytes); ok (some bytes)

unfoldable pub save : Environment → Service → Database → ApiResult Service
save env service next = do
  bytes ← ok_or invalid_json (env.database_to_vec next)
  old ← ok_or invalid_json (env.database_to_vec service.database)
  persisted ← write_changed env service old bytes
  ok (record { database = next; persisted = persisted })

-- The URL of a webhook is resolved and replaced by its normal form.
unfoldable pub resolve_webhook :
    Environment → Configuration → Option Webhook → ApiResult Configuration
resolve_webhook env c none = ok c
resolve_webhook env c (some webhook) = do
  url ← env.webhook_url webhook.url
  ok (record c { webhook = some (record { url = url }) })

unfoldable pub validated_configuration : Environment → Str → ApiResult Configuration
validated_configuration env body = do
  c ← ok_or invalid_json (env.parse_configuration body)
  validate c
  resolve_webhook env c c.webhook

unfoldable pub check_metadata : Error.Result StreamMetadata → ApiResult (Unit {0})
check_metadata (Error.err e) =
    err (bad (text "INVALID_WAKE_STREAM") (text "wake stream must be created explicitly"))
check_metadata (Error.ok meta) =
    if not (str_eq meta.config.content_type (text "application/json")) || meta.closed
    then err (bad (text "INVALID_WAKE_STREAM") (text "wake stream must be open application/json"))
    else ok tt

unfoldable pub check_wake_stream : Environment → Option Str → ApiResult (Unit {0})
check_wake_stream env none = ok tt
check_wake_stream env (some wake_stream) = check_metadata (env.head wake_stream)

-- The links of a new subscription: those of the pattern, then those named.
unfoldable pub matching_links : Configuration → Dict Str → Dict Link → Dict Link
matching_links c [] links = links
matching_links c ((path, tail) ∷ streams) links = matching_links c streams (
    if config_matches c path
    then put path (record { explicit = false; acked_offset = tail }) links
    else links)

unfoldable pub named_links : List Str → Dict Str → Dict Link → Dict Link
named_links [] streams links = links
named_links (path ∷ paths) streams links = named_links paths streams (
    put path (record { explicit = true; acked_offset = or_else first_offset (lookup path streams) })
      links)

unfoldable pub same_configuration : Subscription → Str → ApiResult (Unit {0})
same_configuration existing hash =
    if existing.deleted || not (str_eq existing.config_hash hash)
    then err (
        conflict (text "CONFIG_MISMATCH")
          (text "subscription ID already has a different configuration"))
    else ok tt

unfoldable pub new_subscription :
    Environment → Configuration → Str → Request → Str → Dict Str → Subscription
new_subscription env c hash request authority streams = record {
  config = c;
  config_hash = hash;
  links = named_links c.streams streams (matching_links c streams []);
  created_at = env.timestamp;
  origin = request.scheme ++ text "://" ++ authority;
  generation = 0;
  wake = none;
  deleted = false;
  next_attempt_at = env.now;
  attempts = 0;
  failed = false;
}

unfoldable pub create_new :
    Environment
    → Database
    → Str
    → Configuration
    → Str
    → Request
    → Dict Str
    → ApiResult (Response × Database)
create_new env db id c hash request streams = do
  check_wake_stream env c.wake_stream
  authority ← ok_or (bad (text "INVALID_ORIGIN") (text "request host required")) request.authority
  (let sub = new_subscription env c hash request authority streams in
      ok (created sub, record db { subscriptions = put id sub db.subscriptions }))

unfoldable pub create_or_match :
    Environment
    → Database
    → Str
    → Configuration
    → Str
    → Request
    → Dict Str
    → Option Subscription
    → ApiResult (Response × Database)
create_or_match env db id c hash request streams none = create_new env db id c hash request streams
create_or_match env db id c hash request streams (some existing) = do
  same_configuration existing hash
  ok (described existing, db)

-- crypto::jwk fails on a key that is not one.
unfoldable pub check_key : Environment → Str → ApiResult (Unit {0})
check_key env key =
    if env.is_key key then ok tt else err (internal (text "invalid persisted signing key"))

unfoldable pub create_subscription :
    Environment
    → Database
    → Str
    → Configuration
    → Request
    → Dict Str
    → ApiResult (Response × Database)
create_subscription env db id c request streams = do
  check_key env db.signing_key
  bytes ← ok_or invalid_json (env.configuration_to_vec c)
  create_or_match env db id c (env.hash bytes) request streams (lookup id db.subscriptions)

-- `control.splitn(3, '/')`: the first part, and those behind it if there are any.
unfoldable pub cut : Str → Str × Option Str
cut s = elim (split_once b'/' s) [ none ↦ (s, none) | some parts ↦ (parts.0, some parts.1) ]

unfoldable pub is_id_byte : ℕ → Bool
is_id_byte b =
    (leb b'a' b && leb b b'z')
    || (leb b'A' b && leb b b'Z')
    || (leb b'0' b && leb b b'9')
    || b == b'-'
    || b == b'_'
    || b == b'.'

abbrev pub all_bytes : (ℕ → Bool) → Str → Bool
all_bytes p [] = true
all_bytes p (b ∷ s) = p b && all_bytes p s

unfoldable pub is_id : Str → Bool
is_id id = not (name_is_empty id) && leb (length id) 128 && all_bytes is_id_byte id

-- The id and the action.
unfoldable pub parse_control : Str → ApiResult (Str × Str)
unfolding is_id
parse_control control =
    let first = cut control in
    if not (str_eq first.0 (text "subscriptions")) then err missing else do
      rest ← ok_or missing first.1
      (let second = cut rest in
          if is_id second.0 then ok (second.0, or_else [] second.1) else err missing)

unfoldable pub one_of : List Str → Str → Bool
one_of names action = contains names action

unfoldable pub delete_action : Subscription → Str → Option Str → ApiResult (Response × Subscription)
delete_action sub action (some path) = remove_stream sub path
delete_action sub action none =
    if name_is_empty action
    then ok (no_content, record sub { deleted = true; wake = none })
    else err missing

unfoldable pub post_action :
    Environment
    → Subscription
    → Str
    → Str
    → Request
    → Str
    → Dict Str
    → ApiResult (Response × Subscription)
post_action env sub id key request action streams =
    if str_eq action (text "streams")
    then add_streams env.parse_membership sub request.body streams
    else if str_eq action (text "claim") && not (is_webhook sub.config.kind)
    then claim_subscription env.primitives env.parse_claim sub id key request.body streams env.now
        env.random
    else if one_of (text "callback" ∷ text "ack" ∷ text "release" ∷ []) action
    then complete env.primitives env.parse_completion sub id key request.authorization request.body
        action streams env.now
    else err missing

-- The match on the method and the action.
unfoldable pub act :
    Environment
    → Subscription
    → Str
    → Str
    → Request
    → Str
    → Dict Str
    → ApiResult (Response × Subscription)
act env sub id key request action streams = elim request.method [
  | get ↦ if name_is_empty action then ok (described sub, sub) else err missing
  | delete ↦ delete_action sub action (strip_prefix (text "streams/") action)
  | post ↦ post_action env sub id key request action streams
  | put_request ↦ err missing
  | other_method ↦ err missing
]

unfoldable pub live_subscription : Option Subscription → ApiResult Subscription
live_subscription none = err missing
live_subscription (some sub) = if sub.deleted then err missing else ok sub

-- What a request makes of the refreshed database.
unfoldable pub on_subscription :
    Environment → Database → Str → Request → Str → Dict Str → ApiResult (Response × Database)
on_subscription env db id request action streams = do
  sub ← live_subscription (lookup id db.subscriptions)
  result ← act env sub id db.signing_key request action streams
  ok (result.0, record db { subscriptions = put id result.1 db.subscriptions })

abbrev pub is_put : Method → Bool
is_put put_request = true
is_put _ = false

abbrev pub is_get : Method → Bool
is_get get = true
is_get _ = false

unfoldable pub handle_request :
    Environment
    → Database
    → Option Configuration
    → Str
    → Str
    → Request
    → Dict Str
    → ApiResult (Response × Database)
handle_request env db (some c) id action request streams =
    if is_put request.method && name_is_empty action
    then create_subscription env db id c request streams
    else on_subscription env db id request action streams
handle_request env db none id action request streams =
    on_subscription env db id request action streams

unfoldable pub transact :
    Environment → Service → Option Configuration → Request → ApiResult (Response × Service)
transact env service configuration request = do
  parts ← parse_control request.control
  streams ← tails env
  result ←
      handle_request env (refresh service.database streams env.now) configuration parts.0 parts.1
        request streams
  saved ← save env service result.1
  ok (result.0, saved)

-- control_transaction. The configuration is that of a PUT.
unfoldable pub control_transaction :
    Environment → Service → Option Configuration → Request → ApiResult (Response × Service)
control_transaction env service configuration request = do
  check_key env service.database.signing_key
  (if str_eq request.control (text "jwks.json") && is_get request.method
      then ok (key_set, service)
      else transact env service configuration request)

-- A failure leaves the service as it was.
unfoldable pub settle : Service → ApiResult (Response × Service) → ApiResult Response × Service
settle service (err e) = (err e, service)
settle service (ok result) = (ok result.0, result.1)

unfoldable pub configured : Environment → Request → ApiResult (Option Configuration)
configured env request =
    if is_put request.method
    then (do c ← validated_configuration env request.body; ok (some c))
    else ok none

-- `control`: the configuration is validated before the transaction.
unfoldable pub control : Environment → Service → Request → ApiResult Response × Service
unfolding settle
control env service request = settle service (do
  configuration ← configured env request
  control_transaction env service configuration request)
