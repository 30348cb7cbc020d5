-- ===== src/Subscriptions/Completion.antt =====
-- subscriptions/api.rs: the completion of a wake by its callback, an acknowledgement or a release.
use durable_streams_rust.Prelude.{
  strip_prefix, ℕ, ◌+◌, Bool, true, false, not, ◌&&◌, ◌||◌, Option, none, some, List, [], ◌∷◌, Str,
  text, str_eq, leb, ◌==◌, if◌then◌else◌,
}
use durable_streams_rust.Prelude.Dict.{Dict, lookup}
use durable_streams_rust.Prelude.Ordered.{put}
use durable_streams_rust.Protocol.Error
use durable_streams_rust.Protocol.Offset.{Offset, from_str, is_start, is_now}
use durable_streams_rust.Storage.Types.{bool_eq}
use durable_streams_rust.Subscriptions.Api.{
  ApiResult, err, ok, bad, fenced, invalid_json, ok_or, ◌>>=◌, ◌>>◌,
}
use durable_streams_rust.Subscriptions.Model.{
  Link, Snapshot, Wake, Subscription, is_webhook, str_gt, str_max, pending,
}
use durable_streams_rust.Subscriptions.Tokens.{Claims, Primitives, verify}

pub record Ack : Type 0 where
  pub stream : Str
  pub offset : Str

pub record Completion : Type 0 where
  pub wake_id : Str
  pub generation : ℕ
  pub acks : List Ack
  pub done : Bool

-- What a response of the control API carries.
pub data Response : Type 0 where
  no_content : Response
  -- next_wake
  acknowledged : Bool → Response
  -- wake_id, generation, token, streams, lease_ttl_ms
  claimed : Str → ℕ → Str → List Snapshot → ℕ → Response
  -- The subscription's description, with status 200 or 201.
  described created : Subscription → Response
  -- The public key of the server.
  key_set : Response

unfoldable pub bearer : Option Str → Option Str
bearer none = none
bearer (some header) = strip_prefix (text "Bearer ") header

abbrev pub option_str_eq : Option Str → Str → Bool
option_str_eq none s = false
option_str_eq (some t) s = str_eq t s

-- `lease_until.is_none_or(|until| until <= now)`
unfoldable pub no_lease : Option ℕ → ℕ → Bool
no_lease none now = true
no_lease (some until) now = leb until now

unfoldable pub is_fenced : Subscription → Wake → Str → Str → Str → Claims → Completion → ℕ → Bool
is_fenced sub wake id action tok claims completion now =
    not (str_eq claims.subscription id)
    || not (claims.generation == wake.generation)
    || not (str_eq claims.wake_id wake.id)
    || not (str_eq completion.wake_id wake.id)
    || not (completion.generation == wake.generation)
    || no_lease wake.lease_until now
    || not (option_str_eq wake.token tok)
    || not (bool_eq (str_eq action (text "callback")) (is_webhook sub.config.kind))

-- `offset.parse::<Offset>()`, whose failure becomes `INVALID_ACK`.
abbrev pub parsed : Error.Result Offset → ApiResult Offset
parsed (Error.err e) = err (bad (text "INVALID_ACK") (text "invalid offset"))
parsed (Error.ok o) = ok o

-- `tails.get(…).is_none_or(|tail| &ack.offset > tail)`
unfoldable pub beyond : Str → Option Str → Bool
beyond offset none = true
beyond offset (some tail) = str_gt offset tail

unfoldable pub check_ack : Dict Link → Dict Str → Ack → ApiResult (Unit {0})
check_ack links tails ack = do
  link ← ok_or (bad (text "INVALID_ACK") (text "stream is not linked")) (lookup ack.stream links)
  offset ← parsed (from_str ack.offset)
  (if is_start offset
        || is_now offset
        || str_gt link.acked_offset ack.offset
        || beyond ack.offset (lookup ack.stream tails)
      then err (
          bad (text "INVALID_ACK")
            (text "acknowledgement must not regress or exceed the stream tail"))
      else ok tt)

unfoldable pub check_acks : Dict Link → Dict Str → List Ack → ApiResult (Unit {0})
check_acks links tails [] = ok tt
check_acks links tails (ack ∷ acks) = do check_ack links tails ack; check_acks links tails acks

-- `link.acked_offset = link.acked_offset.max(offset)`, if the path is linked.
unfoldable pub raise : Str → Str → Dict Link → Option Link → Dict Link
raise path offset links none = links
raise path offset links (some link) =
    put path (record link { acked_offset = str_max link.acked_offset offset }) links

unfoldable pub apply_acks : List Ack → Dict Link → Dict Link
apply_acks [] links = links
apply_acks (ack ∷ acks) links =
    apply_acks acks (raise ack.stream ack.offset links (lookup ack.stream links))

-- The wake with a new deadline.
unfoldable pub extend : ℕ → Option Wake → Option Wake
extend until none = none
extend until (some wake) = some (record wake { lease_until = some until })

-- The updates after all checks.
unfoldable pub apply_completion :
    Subscription → Str → Completion → Dict Str → ℕ → Response × Subscription
apply_completion sub action completion tails now =
    let release = str_eq action (text "release") in
    let links = if release then sub.links else apply_acks completion.acks sub.links in
    let sub' =
      if completion.done || release
      then record sub { links = links; wake = none; failed = false; next_attempt_at = now }
      else record sub { links = links; wake = extend (now + sub.config.lease_ttl_ms) sub.wake } in
    (if release then no_content else acknowledged (completion.done && pending sub' tails), sub')

module _ (p : Primitives) (parse : Str → Option Completion) where
  -- `authorization` is the header's value as text, and `parse` the derived deserialisation.
  unfoldable pub complete :
      Subscription
      → Str
      → Str
      → Option Str
      → Str
      → Str
      → Dict Str
      → ℕ
      → ApiResult (Response × Subscription)
  complete sub id key authorization body action tails now = do
    completion ← ok_or invalid_json (parse body)
    tok ← ok_or fenced (bearer authorization)
    claims ← verify p key tok
    wake ← ok_or fenced sub.wake
    (if is_fenced sub wake id action tok claims completion now then err fenced else ok tt)
    check_acks sub.links tails completion.acks
    ok (apply_completion sub action completion tails now)
