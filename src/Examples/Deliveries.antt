-- ===== src/Examples/Deliveries.antt =====
-- The theorems on subscriptions at a pull subscription of one stream.
use durable_streams_rust.Prelude.{
  strip_prefix, ℕ, Bool, ◌-◌, u32_mod, ◌≡◌, ◌≤◌, ◌*◌, ◌/◌, str_eq, ◌+◌, refl, true, false, none,
  some, [], ◌∷◌, Str, text, arith, Option,
}
use Prim.Native.Nat.{min}
use durable_streams_rust.Prelude.Dict.{Dict, lookup, AllValues-lookup}
use durable_streams_rust.Protocol.Error
use durable_streams_rust.Storage.Types.{bool_eq}
use durable_streams_rust.Subscriptions.Api.{ApiError, ApiResult, err, ok, Every}
use durable_streams_rust.Subscriptions.Model.{pull_wake, Configuration, Wake, Subscription}
use durable_streams_rust.Subscriptions.Tokens.{Primitives, verify, split_once}
use durable_streams_rust.Subscriptions.Completion.{
  Completion, Response, complete, apply_completion, bearer, is_fenced, no_lease, check_acks,
}
use durable_streams_rust.Subscriptions.Control.{Environment, Service, Request, tails, collect_tails}
use durable_streams_rust.Subscriptions.Transaction.{control, check_key, save, write_changed}
use durable_streams_rust.Subscriptions.Worker.{
  WorkerEnvironment, Active, tick, tick_database, tick_all, tick_subscription, issue_if_pending,
  dispatch_wake, publish_all,
}
use durable_streams_rust.Subscriptions.Wakes.{
  refresh, refresh_all, refresh_subscription, lease_ended, link_matching,
}
use durable_streams_rust.Subscriptions.Outcome.{retry_delay, retry_later, finish}
use durable_streams_rust.Subscriptions.Generations.{HasCurrentWake}
use durable_streams_rust.Subscriptions.Generations.Runs.{
  Run, AllCurrent, idle, then_step, ticked, Remains, Run-Remains, Run-AllCurrent,
}
use durable_streams_rust.Subscriptions.Fencing.{
  Carries, IsAccepted, complete-IsAccepted, Run-fences,
}
use durable_streams_rust.Subscriptions.Cursors.{LinksChange, complete-LinksChange}
use durable_streams_rust.Subscriptions.Durability.{IsDurable, transactions-IsDurable}
use durable_streams_rust.Subscriptions.Backoff.{retry_later_bounds}

-- A signature that is its text, and claims that every token carries.
abbrev lenient : Primitives
lenient = record {
  sign = λ key bytes. some bytes;
  verifies = λ key bytes sig. some true;
  encode = λ bytes. bytes;
  decode = λ s. some s;
  claims_to_vec = λ claims. some (text "claims");
  claims_from_slice =
      λ bytes. some (record { subscription = text "s"; generation = 2; wake_id = text "w" });
}

abbrev completion : Completion
completion = record {
  wake_id = text "w";
  generation = 2;
  acks = record { stream = text "a"; offset = text "0000000000000001_0000000000000003" } ∷ [];
  done = true;
}

abbrev stale_completion : Completion
stale_completion = record completion { generation = 1 }

abbrev world : Environment
world = record {
  primitives = lenient;
  parse_completion = λ body. some completion;
  parse_claim = λ body. some body;
  parse_membership = λ body. some (body ∷ []);
  parse_configuration = λ body. none;
  configuration_to_vec = λ c. some [];
  database_to_vec = λ db. some (text "db");
  hash = λ bytes. bytes;
  is_key = λ key. true;
  random = some (text "w");
  now = 5000;
  timestamp = text "now";
  list_streams = Error.ok [];
  head = λ name. Error.err (Error.not_found name);
  webhook_url = λ url. ok url;
  write = λ bytes. Error.ok tt;
}

abbrev worker : WorkerEnvironment
worker = record {
  env = world;
  random = λ id. some (text "w");
  signed_body = λ id sub wake. ok ([], []);
  published = λ p. true;
}

abbrev jobs_config : Configuration
jobs_config = record {
  kind = pull_wake;
  pattern = none;
  streams = text "a" ∷ [];
  webhook = none;
  wake_stream = some (text "wakes");
  lease_ttl_ms = 1000;
  description = none;
}

abbrev jobs_wake : Wake
jobs_wake = record {
  id = text "w";
  generation = 2;
  streams = [];
  token = some (text "claims.claims");
  holder = some (text "worker");
  lease_until = some 6000;
  delivered = true;
}

abbrev jobs : Subscription
jobs = record {
  config = jobs_config;
  config_hash = [];
  links =
      (
        text "a",
        record { explicit = true; acked_offset = text "0000000000000000_0000000000000000" },
      )
      ∷ [];
  created_at = [];
  origin = [];
  generation = 2;
  wake = some jobs_wake;
  deleted = false;
  next_attempt_at = 0;
  attempts = 0;
  failed = false;
}

abbrev service : Service
service = record {
  database = record { version = 1; signing_key = []; subscriptions = (text "s", jobs) ∷ [] };
  persisted = some (text "db");
}

abbrev one_tail : Dict Str
one_tail = (text "a", text "0000000000000001_0000000000000003") ∷ []

service-AllCurrent : AllCurrent service
unfolding AllCurrent
service-AllCurrent id sub found =
    AllValues-lookup (λ (s : Subscription). HasCurrentWake s) id service.database.subscriptions
      (refl, tt) found

service-IsDurable : IsDurable world service
unfolding IsDurable
service-IsDurable = (text "db", refl, refl)

IsDurable-example :
    ((request : Request) → IsDurable world (control world service request).1)
    × ((active : Active) → IsDurable world (tick worker active service).1)
    × ((id : Str) (generation : ℕ) (result : ApiResult Bool) (random : Option ℕ) (later : ℕ)
        → Every (IsDurable world) (finish world service id generation result random later))
IsDurable-example = transactions-IsDurable worker service service-IsDurable

-- A round of the worker: nothing is due.
abbrev later_service : Service
later_service = (tick worker [] service).1

one_round : Run service later_service
one_round = then_step (idle service) (ticked worker [] service)

jobs_found : lookup (text "s") service.database.subscriptions ≡ some jobs
unfolding lookup str_eq
jobs_found = refl

jobs_later : lookup (text "s") later_service.database.subscriptions ≡ some jobs
unfolding lookup tick tails collect_tails tick_database check_key tick_all refresh refresh_all
    tick_subscription refresh_subscription lease_ended issue_if_pending dispatch_wake save
    write_changed str_eq publish_all link_matching
jobs_later = refl

run_fences_example :
    (e : ApiError) × (complete lenient
        (λ body. some stale_completion)
        jobs
        (text "s")
        []
        none
        []
        (text "ack")
        one_tail
        5000
      ≡ err e)
run_fences_example =
    Run-fences (text "s") jobs jobs lenient (λ body. some stale_completion) [] none [] (text "ack")
      one_tail 5000 stale_completion one_round service-AllCurrent jobs_found jobs_later refl
      (omega arith)

run-Remains_example : Remains jobs (lookup (text "s") later_service.database.subscriptions)
run-Remains_example = Run-Remains (text "s") jobs one_round jobs_found

run_current_example : AllCurrent later_service
run_current_example = Run-AllCurrent one_round service-AllCurrent

abbrev bearer_token : Option Str
bearer_token = some (text "Bearer claims.claims")

abbrev plain_completion : Completion
plain_completion = record completion { acks = [] }

-- The completion of the claimed wake is accepted.
accepted_run :
    complete lenient
      (λ body. some plain_completion)
      jobs
      (text "s")
      []
      bearer_token
      []
      (text "ack")
      one_tail
      5000
    ≡ ok (apply_completion jobs (text "ack") plain_completion one_tail 5000)
unfolding complete bearer verify is_fenced strip_prefix split_once str_eq no_lease bool_eq
    check_acks
accepted_run = refl

accepted_example :
    Every
      (λ (r : Response × Subscription).
        (c : Completion) × (tok : Str) × Carries
          (λ body. some plain_completion)
          bearer_token
          []
          c
          tok
        × IsAccepted lenient jobs (text "s") [] tok c 5000)
      (complete lenient
        (λ body. some plain_completion)
        jobs
        (text "s")
        []
        bearer_token
        []
        (text "ack")
        one_tail
        5000)
accepted_example =
    complete-IsAccepted lenient (λ body. some plain_completion) jobs (text "s") [] bearer_token []
      (text "ack") one_tail 5000

cursors_example :
    Every
      (λ (r : Response × Subscription). LinksChange one_tail jobs.links r.1.links)
      (complete lenient
        (λ body. some completion)
        jobs
        (text "s")
        []
        bearer_token
        []
        (text "ack")
        one_tail
        5000)
cursors_example =
    complete-LinksChange lenient (λ body. some completion) jobs (text "s") [] bearer_token []
      (text "ack") one_tail 5000

retry_example :
    (new : Subscription) × (retry_later jobs (some 40000) 5000 ≡ ok new)
    × (new.failed ≡ true)
    × (new.attempts ≡ min 1 (u32_mod - 1))
    × (retry_delay new.attempts ≡ min (2 * retry_delay 0) 60000)
    × (5000 + retry_delay 0 ≤ new.next_attempt_at + retry_delay 0 / 5)
    × (new.next_attempt_at ≤ 5000 + retry_delay 0 + retry_delay 0 / 5)
    × (5000 + 800 ≤ new.next_attempt_at)
    × (new.next_attempt_at ≤ 5000 + 72000)
retry_example = retry_later_bounds jobs 40000 5000 (omega arith)
