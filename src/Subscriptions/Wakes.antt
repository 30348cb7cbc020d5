-- ===== src/Subscriptions/Wakes.antt =====
-- subscriptions/mod.rs: new links, expired leases, and the issue of a wake.
use durable_streams_rust.Prelude.{
  ℕ, suc, ◌+◌, Bool, false, not, ◌&&◌, Option, none, some, [], ◌∷◌, Str, text, ltb, leb,
  if◌then◌else◌, u64_mod,
}
use durable_streams_rust.Prelude.Dict.{Dict, lookup}
use durable_streams_rust.Prelude.Ordered.{put}
use durable_streams_rust.Protocol.Offset
use durable_streams_rust.Protocol.Offset.{as_str}
use durable_streams_rust.Storage.Types.{is_some}
use durable_streams_rust.Subscriptions.Api.{ApiResult, err, ok, internal, ok_or, ◌>>=◌}
use durable_streams_rust.Subscriptions.Model.{
  Configuration, Link, Wake, Subscription, Database, is_webhook, config_matches, snapshots,
}
use durable_streams_rust.Subscriptions.Tokens.{Primitives, token}

-- `Offset::new(0, 0).to_string()`
unfoldable pub first_offset : Str
first_offset = as_str (Offset.new 0 0)

-- `entry(path).or_insert_with(…)`
unfoldable pub or_insert : Str → Link → Dict Link → Dict Link
or_insert path link links = if is_some (lookup path links) then links else put path link links

-- The loop over the keys of the tails.
unfoldable pub link_matching : Configuration → Dict Str → Dict Link → Dict Link
unfolding or_insert
link_matching c [] links = links
link_matching c ((path, tail) ∷ tails) links = link_matching c tails (
    if config_matches c path
    then or_insert path (record { explicit = false; acked_offset = first_offset }) links
    else links)

unfoldable pub lease_ended : Option Wake → ℕ → Bool
lease_ended none now = false
lease_ended (some w) now = elim w.lease_until [ none ↦ false | some until ↦ leb until now ]

unfoldable pub refresh_subscription : Dict Str → ℕ → Subscription → Subscription
refresh_subscription tails now sub =
    let linked = record sub { links = link_matching sub.config tails sub.links } in
    if sub.deleted
    then sub
    else if lease_ended sub.wake now && not sub.failed
    then record linked { wake = none; next_attempt_at = now }
    else linked

unfoldable pub refresh_all : Dict Str → ℕ → Dict Subscription → Dict Subscription
refresh_all tails now [] = []
refresh_all tails now ((id, sub) ∷ subs) =
    (id, refresh_subscription tails now sub) ∷ refresh_all tails now subs

unfoldable pub refresh : Database → Dict Str → ℕ → Database
refresh db tails now = record db { subscriptions = refresh_all tails now db.subscriptions }

-- `checked_add(1)`
unfoldable pub next_generation : ℕ → ApiResult ℕ
next_generation g =
    if ltb (suc g) u64_mod then ok (suc g) else err (internal (text "generation exhausted"))

-- The subscription after `issue_wake`.
unfoldable pub with_wake : Subscription → Wake → ℕ → Subscription
with_wake sub wake now = record sub {
  generation = wake.generation;
  wake = some wake;
  attempts = 0;
  failed = false;
  next_attempt_at = now;
}

module _ (p : Primitives) where
  -- The token of a webhook's wake.
  unfoldable pub wake_token : Subscription → Str → Str → ℕ → Str → ApiResult (Option Str)
  wake_token sub id key generation wake_id =
      if is_webhook sub.config.kind
      then (do
        t ← token p key (record { subscription = id; generation = generation; wake_id = wake_id })
        ok (some t))
      else ok none

  -- The wake that `issue_wake` stores. `random` is the outcome of `crypto::random_id`.
  unfoldable pub new_wake : Subscription → Str → Str → Dict Str → ℕ → Option Str → ApiResult Wake
  new_wake sub id key tails now random = do
    generation ← next_generation sub.generation
    wake_id ← ok_or (internal (text "random source unavailable")) random
    t ← wake_token sub id key generation wake_id
    ok (record {
      id = wake_id;
      generation = generation;
      streams = snapshots sub tails;
      token = t;
      holder = none;
      lease_until =
          if is_webhook sub.config.kind then some (now + sub.config.lease_ttl_ms) else none;
      delivered = false;
    })

  unfoldable pub issue_wake :
      Subscription → Str → Str → Dict Str → ℕ → Option Str → ApiResult Subscription
  issue_wake sub id key tails now random = do
    wake ← new_wake sub id key tails now random
    ok (with_wake sub wake now)
