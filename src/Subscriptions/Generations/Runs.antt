-- ===== src/Subscriptions/Generations/Runs.antt =====
-- The service over time: requests, rounds of the worker, and outcomes of deliveries, in any order.
use durable_streams_rust.Prelude.{ℕ, ◌≡◌, ◌≤◌, refl, subst, Bool, true, Option, none, some, Str}
use durable_streams_rust.Prelude.Dict.{lookup}
use durable_streams_rust.Subscriptions.Api.{ApiResult, ok, Every-ok}
use durable_streams_rust.Subscriptions.Model.{Subscription}
use durable_streams_rust.Subscriptions.Completion.{}
use durable_streams_rust.Subscriptions.Control.{Environment, Service, Request}
use durable_streams_rust.Subscriptions.Transaction.{control}
use durable_streams_rust.Subscriptions.Worker.{WorkerEnvironment, Active, tick}
use durable_streams_rust.Subscriptions.Outcome.{finish}
use durable_streams_rust.Subscriptions.Generations.{
  HasCurrentWake, Change, Advances-refl, Advances-trans,
}
use durable_streams_rust.Subscriptions.Generations.Transactions.{control-Outgrows}
use durable_streams_rust.Subscriptions.Generations.Rounds.{tick-Outgrows}
use durable_streams_rust.Subscriptions.Generations.Outcomes.{Later, finish-Later}

-- One transaction of the service, under whatever the crates and the storage do.
pub data Step : Service → Service → Type 0 where
  requested :
      (env : Environment) (request : Request) (s : Service) → Step s (control env s request).1
  ticked : (w : WorkerEnvironment) (active : Active) (s : Service) → Step s (tick w active s).1
  finished :
      (env : Environment) (id : Str) (generation : ℕ) (result : ApiResult Bool) (random : Option ℕ)
      (later : ℕ) (s s' : Service)
      → finish env s id generation result random later ≡ ok s'
      → Step s s'

-- Any number of transactions.
pub data Run : Service → Service → Type 0 where
  idle : (s : Service) → Run s s
  then_step : {s t u : Service} → Run s t → Step t u → Run s u

Step-Advances : {s t : Service} → Step s t → Later s t
Step-Advances (requested env request s) = control-Outgrows env s request
Step-Advances (ticked w active s) = tick-Outgrows w active s
Step-Advances (finished env id generation result random later s s' h) =
    Every-ok (Later s) h (finish-Later env s id generation result random later)

Run-Advances : {s t : Service} → Run s t → Later s t
Run-Advances (idle s) = Advances-refl s.database.subscriptions
Run-Advances (then_step {s} {t} {u} run step) =
    Advances-trans s.database.subscriptions t.database.subscriptions u.database.subscriptions
      (Run-Advances run) (Step-Advances step)

-- Every stored wake is of its subscription's generation.
unfoldable pub AllCurrent : Service → Type 0
AllCurrent s =
    (id : Str) (sub : Subscription)
    → lookup id s.database.subscriptions ≡ some sub
    → HasCurrentWake sub

current_after :
    (old : Option Subscription) (new : Subscription)
    → Change old (some new)
    → ((sub : Subscription) → old ≡ some sub → HasCurrentWake sub)
    → HasCurrentWake new
current_after none new f h = f
current_after (some sub) new f h = f.1 (h sub refl)

-- Over any run of the service, a wake that is stored is of the generation of its subscription,
-- if this holds at the start.
pub Run-AllCurrent : {s t : Service} → Run s t → AllCurrent s → AllCurrent t
unfolding AllCurrent
Run-AllCurrent {s} {t} run h id sub found =
    current_after (lookup id s.database.subscriptions) sub
      (subst (λ o. Change (lookup id s.database.subscriptions) o) found (Run-Advances run id))
      (h id)

-- What a later state holds of a subscription.
unfoldable pub Remains : Subscription → Option Subscription → Type 0
Remains old new =
    (sub : Subscription) × (new ≡ some sub)
    × (old.generation ≤ sub.generation)
    × (old.deleted ≡ true → sub.deleted ≡ true)

remains : (old : Subscription) (new : Option Subscription) → Change (some old) new → Remains old new
unfolding Remains
remains old none f = absurd f
remains old (some sub) f = (sub, refl, f.0, f.2)

-- Over any run of the service, a subscription stays in the database, its generation does not fall,
-- and if it was deleted it stays deleted.
pub Run-Remains :
    {s t : Service} (id : Str) (sub : Subscription)
    → Run s t
    → lookup id s.database.subscriptions ≡ some sub
    → Remains sub (lookup id t.database.subscriptions)
Run-Remains {s} {t} id sub run found =
    remains sub (lookup id t.database.subscriptions)
      (subst (λ o. Change o (lookup id t.database.subscriptions)) found (Run-Advances run id))
