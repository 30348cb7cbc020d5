-- ===== src/Subscriptions/Worker.antt =====
-- subscriptions/worker.rs: `tick`, which issues wakes, publishes them, and prepares deliveries.
use durable_streams_rust.Prelude.{
  ℕ, ◌+◌, Bool, true, false, not, ◌&&◌, ◌||◌, Option, none, some, List, [], ◌∷◌, Str, str_eq,
  length, ltb, ◌==◌, if◌then◌else◌,
}
use durable_streams_rust.Prelude.Dict.{Dict, lookup}
use durable_streams_rust.Prelude.Ordered.{put}
use durable_streams_rust.Subscriptions.Api.{ApiResult, err, ok, ◌>>=◌, ◌>>◌}
use durable_streams_rust.Subscriptions.Model.{
  Webhook, Snapshot, Wake, Subscription, Database, is_webhook, any, or_else, pending,
}
use durable_streams_rust.Subscriptions.Wakes.{refresh, issue_wake}
use durable_streams_rust.Subscriptions.Control.{Environment, Service, tails}
use durable_streams_rust.Subscriptions.Transaction.{check_key, save}

abbrev pub max_deliveries : ℕ
max_deliveries = 16

-- The body and its signature are those that `signed_body` gives.
pub record Job : Type 0 where
  pub id : Str
  pub generation : ℕ
  pub url : Str
  pub body : Str
  pub signature : Str

-- A wake to append to its stream: subscription, generation, wake stream, and the path with work.
pub record Publication : Type 0 where
  pub id : Str
  pub generation : ℕ
  pub stream : Str
  pub path : Str

-- What one round leaves to be done.
pub record Work : Type 0 where
  pub jobs : List Job
  pub pull : List Publication

-- `random` is the outcome of `random_id` for a subscription, `signed_body` the request of a
-- delivery, and `published` whether the storage's `append` of a wake succeeds.
pub record WorkerEnvironment : Type 0 where
  pub env : Environment
  pub random : Str → Option Str
  pub signed_body : Str → Subscription → Wake → ApiResult (Str × Str)
  pub published : Publication → Bool

abbrev pub Active : Type 0
Active = List (Str × ℕ)

unfoldable pub is_running : Active → Str → ℕ → Bool
is_running active id generation = any (λ (k : Str × ℕ). str_eq k.0 id && k.1 == generation) active

unfoldable pub first_pending : List Snapshot → Option Str
first_pending [] = none
first_pending (s ∷ streams) =
    let rest = first_pending streams in if s.has_pending then some s.path else rest

url_of : Option Webhook → Str
url_of none = []
url_of (some webhook) = webhook.url

module _ (w : WorkerEnvironment) where
  unfoldable pub issue_if_pending :
      Str → Str → Dict Str → Subscription → Option Wake → ApiResult Subscription
  issue_if_pending id key streams sub (some wake) = ok sub
  issue_if_pending id key streams sub none =
      if pending sub streams
      then issue_wake w.env.primitives sub id key streams w.env.now (w.random id)
      else ok sub

  unfoldable pub publish_pending : Str → Subscription → Wake → Work → Option Str → Work
  publish_pending id sub wake work none = work
  publish_pending id sub wake work (some path) = record work {
    pull =
        record {
          id = id;
          generation = wake.generation;
          stream = or_else [] sub.config.wake_stream;
          path = path;
        }
        ∷ work.pull;
  }

  -- A retry deadline is stored before the request is sent.
  unfoldable pub start_delivery : Str → Subscription → Wake → Work → ApiResult (Work × Subscription)
  unfolding url_of
  start_delivery id sub wake work = do
    signed ← w.signed_body id sub wake
    ok (
      record work {
        jobs =
            record {
              id = id;
              generation = wake.generation;
              url = url_of sub.config.webhook;
              body = signed.0;
              signature = signed.1;
            }
            ∷ work.jobs;
      },
      record sub {
        wake = some (record wake { lease_until = some (w.env.now + sub.config.lease_ttl_ms) });
        failed = false;
        next_attempt_at = w.env.now + 6000;
      },
    )

  unfoldable pub dispatch_wake :
      Active → Str → Work → Subscription → Option Wake → ApiResult (Work × Subscription)
  dispatch_wake active id work sub none = ok (work, sub)
  dispatch_wake active id work sub (some wake) =
      if wake.delivered || ltb w.env.now sub.next_attempt_at || is_running active id wake.generation
      then ok (work, sub)
      else if not (is_webhook sub.config.kind)
      then ok (publish_pending id sub wake work (first_pending wake.streams), sub)
      else if ltb (length active + length work.jobs) max_deliveries
      then start_delivery id sub wake work
      else ok (work, sub)

  -- The body of the loop over the subscriptions. The lists of work are kept in reverse.
  unfoldable pub tick_subscription :
      Active → Str → Dict Str → Str → Work → Subscription → ApiResult (Work × Subscription)
  tick_subscription active key streams id work sub = if sub.deleted then ok (work, sub) else do
    issued ← issue_if_pending id key streams sub sub.wake
    dispatch_wake active id work issued issued.wake

  unfoldable pub tick_all :
      Active → Str → Dict Str → Work → Dict Subscription → ApiResult (Work × Dict Subscription)
  tick_all active key streams work [] = ok (work, [])
  tick_all active key streams work ((id, sub) ∷ subs) = do
    result ← tick_subscription active key streams id work sub
    rest ← tick_all active key streams result.0 subs
    ok (rest.0, (id, result.1) ∷ rest.1)

  unfoldable pub deliver_wake : ℕ → Option Wake → Option Wake
  deliver_wake generation none = none
  deliver_wake generation (some wake) =
      some (if wake.generation == generation then record wake { delivered = true } else wake)

  -- The outcome of one publication.
  unfoldable pub mark_published : Publication → Subscription → Subscription
  mark_published p sub =
      if w.published p
      then record sub { wake = deliver_wake p.generation sub.wake; failed = false }
      else record sub { failed = true; next_attempt_at = w.env.now + 1000 }

  unfoldable pub mark_found :
      Publication → Dict Subscription → Option Subscription → Dict Subscription
  mark_found p subs none = subs
  mark_found p subs (some sub) = put p.id (mark_published p sub) subs

  -- In the order of publication, which is the reverse of the list.
  unfoldable pub publish_all : List Publication → Dict Subscription → Dict Subscription
  publish_all [] subs = subs
  publish_all (p ∷ pull) subs =
      let earlier = publish_all pull subs in mark_found p earlier (lookup p.id earlier)

  unfoldable pub tick_database : Active → Database → Dict Str → ApiResult (Work × Database)
  tick_database active db streams = do
    check_key w.env db.signing_key
    result ←
        tick_all active db.signing_key streams (record { jobs = []; pull = [] }) db.subscriptions
    ok (result.0, record db { subscriptions = result.1 })

  -- The second save, after the publications.
  unfoldable pub save_published :
      Work → Database → ApiResult Service → Service → ApiResult (List Job) × Service
  save_published work db (err e) before = (err e, before)
  save_published work db (ok saved) before =
      elim (save w.env saved
        (record db { subscriptions = publish_all work.pull db.subscriptions })) [
          | err e ↦ (err e, saved)
          | ok final ↦ (ok work.jobs, final)
        ]

  unfoldable pub tick_saved : Service → ApiResult (Work × Database) → ApiResult (List Job) × Service
  tick_saved service (err e) = (err e, service)
  tick_saved service (ok result) =
      save_published result.0 result.1 (save w.env service result.1) service

  abbrev pub all_deleted : Dict Subscription → Bool
  all_deleted [] = true
  all_deleted ((id, sub) ∷ subs) = sub.deleted && all_deleted subs

  unfoldable pub tick : Active → Service → ApiResult (List Job) × Service
  unfolding tick_saved save_published
  tick active service =
      if all_deleted service.database.subscriptions
      then (ok [], service)
      else tick_saved service (do
        streams ← tails w.env
        tick_database active (refresh service.database streams w.env.now) streams)
