-- ===== src/Subscriptions/Outcome.antt =====
-- subscriptions/worker.rs: `finish`, which records the outcome of a delivery.
use durable_streams_rust.Prelude.{
  ℕ, suc, ◌+◌, ◌-◌, ◌*◌, ◌/◌, ◌^◌, Bool, true, false, not, ◌||◌, Option, none, some, List, [], ◌∷◌,
  Str, text, leb, ◌==◌, if◌then◌else◌, u32_mod,
}
use Prim.Native.Nat.{min}
use durable_streams_rust.Prelude.Dict.{Dict, lookup}
use durable_streams_rust.Prelude.Ordered.{put}
use durable_streams_rust.Subscriptions.Api.{ApiResult, err, ok, internal, ok_or, ◌>>=◌}
use durable_streams_rust.Subscriptions.Model.{Link, Snapshot, Wake, Subscription}
use durable_streams_rust.Subscriptions.Tokens.{jitter_above}
use durable_streams_rust.Subscriptions.Wakes.{lease_ended}
use durable_streams_rust.Subscriptions.Completion.{raise}
use durable_streams_rust.Subscriptions.Control.{Environment, Service}
use durable_streams_rust.Subscriptions.Transaction.{save}

-- `1000 * 2^min(attempts, 6)`, at most a minute.
unfoldable pub retry_delay : ℕ → ℕ
retry_delay attempts = min (1000 * 2 ^ min attempts 6) 60000

-- `now + delay + delay * jitter / 1000`, where the division of a negative number drops its
-- fraction too; `above` is the jitter with 200 added.
unfoldable pub retry_at : ℕ → ℕ → ℕ → ℕ
retry_at now delay above =
    if leb 200 above
    then now + delay + delay * (above - 200) / 1000
    else now + delay - delay * (200 - above) / 1000

-- `attempts.saturating_add(1)`
unfoldable pub next_attempts : ℕ → ℕ
next_attempts attempts = min (suc attempts) (u32_mod - 1)

-- The cursors that a delivery answered with `done` moves: those of the wake's streams.
unfoldable pub acknowledge_all : List Snapshot → Dict Link → Dict Link
acknowledge_all [] links = links
acknowledge_all (s ∷ streams) links =
    acknowledge_all streams (raise s.path s.tail_offset links (lookup s.path links))

-- A delivery that was answered; `finished` is the answer's `done`.
unfoldable pub succeed : Subscription → Wake → Bool → ℕ → Subscription
succeed sub wake finished now =
    if finished
    then record sub {
      links = acknowledge_all wake.streams sub.links;
      wake = none;
      failed = false;
      attempts = 0;
      next_attempt_at = now;
    }
    else record sub { wake = some (record wake { delivered = true }); failed = false; attempts = 0 }

-- A delivery that failed. `random` holds the bytes of the jitter.
unfoldable pub retry_later : Subscription → Option ℕ → ℕ → ApiResult Subscription
retry_later sub random now = do
  raw ← ok_or (internal (text "random source unavailable")) random
  ok (record sub {
    failed = true;
    attempts = next_attempts sub.attempts;
    next_attempt_at = retry_at now (retry_delay sub.attempts) (jitter_above raw);
  })

unfoldable pub finish_wake :
    Subscription → Wake → ApiResult Bool → Option ℕ → ℕ → ApiResult Subscription
finish_wake sub wake (ok finished) random now = ok (succeed sub wake finished now)
finish_wake sub wake (err e) random now = retry_later sub random now

module _ (env : Environment) where
  -- The wake of a live subscription, if the outcome is about it and its lease runs on.
  unfoldable pub finish_current :
      Service
      → Str
      → ℕ
      → ApiResult Bool
      → Option ℕ
      → ℕ
      → Subscription
      → Option Wake
      → ApiResult Service
  finish_current service id generation result random later sub none = ok service
  finish_current service id generation result random later sub (some wake) =
      if sub.deleted || not (wake.generation == generation) || lease_ended sub.wake env.now
      then ok service
      else do
        sub' ← finish_wake sub wake result random later
        save env service
            (record service.database { subscriptions = put id sub' service.database.subscriptions })

  unfoldable pub finish_found :
      Service → Str → ℕ → ApiResult Bool → Option ℕ → ℕ → Option Subscription → ApiResult Service
  finish_found service id generation result random later none = ok service
  finish_found service id generation result random later (some sub) =
      finish_current service id generation result random later sub sub.wake

  -- `later` is the second reading of the clock. Every failure leaves the service as it was.
  unfoldable pub finish : Service → Str → ℕ → ApiResult Bool → Option ℕ → ℕ → ApiResult Service
  unfolding finish_found
  finish service id generation result random later =
      finish_found service id generation result random later
        (lookup id service.database.subscriptions)
