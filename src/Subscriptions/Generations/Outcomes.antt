-- ===== src/Subscriptions/Generations/Outcomes.antt =====
-- The outcome of a delivery advances the database.
use durable_streams_rust.Prelude.{
  ℕ, ◌≡◌, refl, sym, subst, Bool, true, false, not, ◌||◌, Option, none, some, Str, arith, ◌==◌,
}
use durable_streams_rust.Prelude.Dict.{lookup}
use durable_streams_rust.Subscriptions.Api.{
  ApiResult, err, ok, Every, Every->>=, Every-if, Every-ok, ok_or,
}
use durable_streams_rust.Subscriptions.Model.{Wake, Subscription}
use durable_streams_rust.Subscriptions.Wakes.{lease_ended}
use durable_streams_rust.Subscriptions.Control.{Environment, Service}
use durable_streams_rust.Subscriptions.Outcome.{
  succeed, retry_later, finish_wake, finish_current, finish_found, finish,
}
use durable_streams_rust.Subscriptions.Generations.{
  HasCurrent, Follows, Change, Advances, Advances-refl, Advances-put,
}
use durable_streams_rust.Subscriptions.Generations.Transactions.{saved-Advances}

succeed-Follows :
    (sub : Subscription) (wake : Wake) (finished : Bool) (now : ℕ)
    → sub.wake ≡ some wake
    → Follows sub (succeed sub wake finished now)
unfolding succeed
succeed-Follows sub wake true now e = (omega arith, λ h. tt, λ h. h)
succeed-Follows sub wake false now e =
    (omega arith, λ h. subst (λ o. HasCurrent o sub.generation) e h, λ h. h)

finish_wake-Follows :
    (sub : Subscription) (wake : Wake) (result : ApiResult Bool) (random : Option ℕ) (now : ℕ)
    → sub.wake ≡ some wake
    → Every (Follows sub) (finish_wake sub wake result random now)
unfolding finish_wake retry_later
finish_wake-Follows sub wake (ok finished) random now e = succeed-Follows sub wake finished now e
finish_wake-Follows sub wake (err reason) random now e =
    Every->>= (Follows sub) (ok_or _ random) _ (λ raw drawn. (omega arith, λ h. h, λ h. h))

abbrev pub Later : Service → Service → Type 0
Later before after = Advances before.database.subscriptions after.database.subscriptions

module _ (env : Environment) where
  finish_current-Later :
      (service : Service) (id : Str) (generation : ℕ) (result : ApiResult Bool) (random : Option ℕ)
      (later : ℕ) (sub : Subscription) (wake : Option Wake)
      → lookup id service.database.subscriptions ≡ some sub
      → sub.wake ≡ wake
      → Every
          (Later service)
          (finish_current env service id generation result random later sub wake)
  unfolding finish_current
  finish_current-Later service id generation result random later sub none found e =
      Advances-refl service.database.subscriptions
  finish_current-Later service id generation result random later sub (some wake) found e =
      let P = Later service in
      let subs = service.database.subscriptions in
      Every-if P
        (sub.deleted || not (wake.generation == generation) || lease_ended sub.wake env.now) _ _
        (λ stale. Advances-refl subs)
        (λ current. Every->>= P (finish_wake sub wake result random later) _ (λ new done.
          saved-Advances env service subs _ (
            Advances-put id new subs (
              subst (λ o. Change o (some new)) (sym found)
                (Every-ok (Follows sub) done
                  (finish_wake-Follows sub wake result random later e))))))

  finish_found-Later :
      (service : Service) (id : Str) (generation : ℕ) (result : ApiResult Bool) (random : Option ℕ)
      (later : ℕ) (found : Option Subscription)
      → lookup id service.database.subscriptions ≡ found
      → Every (Later service) (finish_found env service id generation result random later found)
  unfolding finish_found
  finish_found-Later service id generation result random later none e =
      Advances-refl service.database.subscriptions
  finish_found-Later service id generation result random later (some sub) e =
      finish_current-Later service id generation result random later sub sub.wake e refl

  pub finish-Later :
      (service : Service) (id : Str) (generation : ℕ) (result : ApiResult Bool) (random : Option ℕ)
      (later : ℕ)
      → Every (Later service) (finish env service id generation result random later)
  unfolding finish
  finish-Later service id generation result random later =
      finish_found-Later service id generation result random later
        (lookup id service.database.subscriptions) refl
