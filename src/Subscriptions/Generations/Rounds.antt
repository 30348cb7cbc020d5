-- ===== src/Subscriptions/Generations/Rounds.antt =====
-- Every round of the worker, and every outcome of a delivery, advances the database.
use durable_streams_rust.Prelude.{
  ℕ, ◌≡◌, ◌+◌, refl, sym, subst, Bool, true, false, not, ◌||◌, Option, none, some, List, [], ◌∷◌,
  Str, str_eq, if◌then◌else◌, arith, ltb, length, ◌==◌,
}
use durable_streams_rust.Prelude.Dict.{Dict, lookup}
use durable_streams_rust.Subscriptions.Api.{
  ApiResult, err, ok, Every, Every->>=, Every->>, Every-if, Every-ok, Every-weaken,
}
use durable_streams_rust.Subscriptions.Model.{Wake, Subscription, Database, is_webhook, pending}
use durable_streams_rust.Subscriptions.Wakes.{refresh, new_wake, issue_wake}
use durable_streams_rust.Subscriptions.Control.{Service, tails}
use durable_streams_rust.Subscriptions.Transaction.{check_key}
use durable_streams_rust.Subscriptions.Worker.{
  Job, Publication, Work, WorkerEnvironment, Active, is_running, issue_if_pending, start_delivery,
  dispatch_wake, tick_subscription, tick_all, deliver_wake, mark_published, mark_found, publish_all,
  tick_database, save_published, tick_saved, all_deleted, tick, max_deliveries,
}
use durable_streams_rust.Subscriptions.Generations.{
  HasCurrent, Follows, Change, Advances, Follows-refl, Follows-trans, Advances-refl, Advances-trans,
  Advances-put, Change-entry,
}
use durable_streams_rust.Subscriptions.Generations.Requests.{
  IsNext, new_wake-IsNext, with_wake-Follows, refresh_all-Advances,
}
use durable_streams_rust.Subscriptions.Generations.Transactions.{Outgrows, saved-Advances}

module _ (w : WorkerEnvironment) where
  issue_if_pending-Follows :
      (id key : Str) (streams : Dict Str) (sub : Subscription) (wake : Option Wake)
      → Every (Follows sub) (issue_if_pending w id key streams sub wake)
  unfolding issue_if_pending issue_wake
  issue_if_pending-Follows id key streams sub (some wake) = Follows-refl sub
  issue_if_pending-Follows id key streams sub none =
      Every-if (Follows sub) (pending sub streams) _ _
        (λ e.
          Every->>= (Follows sub)
            (new_wake w.env.primitives sub id key streams w.env.now (w.random id)) _
            (λ wake made. with_wake-Follows sub wake w.env.now (
              Every-ok (IsNext sub) made
                (new_wake-IsNext w.env.primitives sub id key streams w.env.now (w.random id)))))
        (λ e. Follows-refl sub)

  abbrev Keeps : Subscription → Work × Subscription → Type 0
  Keeps sub result = Follows sub result.1

  dispatch_wake-Keeps :
      (active : Active) (id : Str) (work : Work) (sub : Subscription) (wake : Option Wake)
      → sub.wake ≡ wake
      → Every (Keeps sub) (dispatch_wake w active id work sub wake)
  unfolding dispatch_wake start_delivery
  dispatch_wake-Keeps active id work sub none e = Follows-refl sub
  dispatch_wake-Keeps active id work sub (some wake) e =
      Every-if (Keeps sub)
        (wake.delivered
          || ltb w.env.now sub.next_attempt_at
          || is_running active id wake.generation)
        _ _ (λ busy. Follows-refl sub)
        (λ due.
          Every-if (Keeps sub) (not (is_webhook sub.config.kind)) _ _ (λ pull. Follows-refl sub)
            (λ push.
              Every-if (Keeps sub) (ltb (length active + length work.jobs) max_deliveries) _ _
                (λ room. Every->>= (Keeps sub) (w.signed_body id sub wake) _ (λ signed made.
                  (omega arith, λ h. subst (λ o. HasCurrent o sub.generation) e h, λ h. h)))
                (λ full. Follows-refl sub)))

  tick_subscription-Keeps :
      (active : Active) (key : Str) (streams : Dict Str) (id : Str) (work : Work)
      (sub : Subscription)
      → Every (Keeps sub) (tick_subscription w active key streams id work sub)
  unfolding tick_subscription
  tick_subscription-Keeps active key streams id work sub =
      Every-if (Keeps sub) sub.deleted _ _ (λ e. Follows-refl sub)
        (λ e.
          Every->>= (Keeps sub) (issue_if_pending w id key streams sub sub.wake) _ (λ issued done.
            Every-weaken (Keeps issued) (Keeps sub)
              (dispatch_wake w active id work issued issued.wake)
              (λ result f.
                Follows-trans sub issued result.1
                  (Every-ok (Follows sub) done
                    (issue_if_pending-Follows id key streams sub sub.wake))
                  f)
              (dispatch_wake-Keeps active id work issued issued.wake refl)))

  abbrev Moves : Dict Subscription → Work × Dict Subscription → Type 0
  Moves subs result = Advances subs result.1

  tick_all-Moves :
      (active : Active) (key : Str) (streams : Dict Str) (work : Work) (subs : Dict Subscription)
      → Every (Moves subs) (tick_all w active key streams work subs)
  unfolding tick_all lookup
  tick_all-Moves active key streams work [] = λ id. tt
  tick_all-Moves active key streams work ((id, sub) ∷ subs) =
      let P = Moves ((id, sub) ∷ subs) in
      Every->>= P (tick_subscription w active key streams id work sub) _ (λ result ticked.
        Every->>= P (tick_all w active key streams result.0 subs) _ (λ rest went other.
          Change-entry (str_eq id other) sub result.1 (lookup other subs) (lookup other rest.1)
            (Every-ok (Keeps sub) ticked (tick_subscription-Keeps active key streams id work sub))
            (Every-ok (Moves subs) went (tick_all-Moves active key streams result.0 subs) other)))

  HasCurrent-deliver_wake :
      (generation : ℕ) (wake : Option Wake) (g : ℕ)
      → HasCurrent wake g
      → HasCurrent (deliver_wake w generation wake) g
  unfolding deliver_wake
  HasCurrent-deliver_wake generation none g h = tt
  HasCurrent-deliver_wake generation (some wake) g h =
      delivered_or_not (wake.generation == generation)
    where
      delivered_or_not :
          (b : Bool) → HasCurrent (some (if b then record wake { delivered = true } else wake)) g
      delivered_or_not true = h
      delivered_or_not false = h

  mark_published-Follows :
      (p : Publication) (sub : Subscription) → Follows sub (mark_published w p sub)
  unfolding mark_published
  mark_published-Follows p sub = outcome (w.published p)
    where
      outcome :
          (b : Bool)
          → Follows sub (
              if b
              then record sub { wake = deliver_wake w p.generation sub.wake; failed = false }
              else record sub { failed = true; next_attempt_at = w.env.now + 1000 })
      outcome true =
          (omega arith, λ h. HasCurrent-deliver_wake p.generation sub.wake sub.generation h, λ h. h)
      outcome false = (omega arith, λ h. h, λ h. h)

  mark_found-Advances :
      (p : Publication) (subs : Dict Subscription) (found : Option Subscription)
      → lookup p.id subs ≡ found
      → Advances subs (mark_found w p subs found)
  unfolding mark_found
  mark_found-Advances p subs none e = Advances-refl subs
  mark_found-Advances p subs (some sub) e =
      let new = mark_published w p sub in
      Advances-put p.id new subs
        (subst (λ o. Change o (some new)) (sym e) (mark_published-Follows p sub))

  publish_all-Advances :
      (pull : List Publication) (subs : Dict Subscription) → Advances subs (publish_all w pull subs)
  unfolding publish_all
  publish_all-Advances [] subs = Advances-refl subs
  publish_all-Advances (p ∷ pull) subs =
      let earlier = publish_all w pull subs in
      Advances-trans subs earlier (mark_found w p earlier (lookup p.id earlier))
        (publish_all-Advances pull subs) (mark_found-Advances p earlier (lookup p.id earlier) refl)

  abbrev Round : Dict Subscription → Work × Database → Type 0
  Round subs result = Advances subs result.1.subscriptions

  tick_database-Round :
      (active : Active) (db : Database) (streams : Dict Str)
      → Every (Round db.subscriptions) (tick_database w active db streams)
  unfolding tick_database
  tick_database-Round active db streams =
      let P = Round db.subscriptions in
      Every->> P (check_key w.env db.signing_key) _ (λ key.
        Every->>= P
          (tick_all w active db.signing_key streams (record { jobs = []; pull = [] })
            db.subscriptions)
          _
          (λ result ticked. Every-ok (Moves db.subscriptions) ticked (
            tick_all-Moves active db.signing_key streams (record { jobs = []; pull = [] })
              db.subscriptions)))

  final_save :
      (before : Service) (work : Work) (db : Database) (saved : Service) (r : ApiResult Service)
      → Advances before.database.subscriptions saved.database.subscriptions
      → Every (λ (s : Service). Advances before.database.subscriptions s.database.subscriptions) r
      → Outgrows {T = ApiResult (List Job)} before
          (elim r [ err e ↦ (err e, saved) | ok final ↦ (ok work.jobs, final) ])
  final_save before work db saved (err e) f h = f
  final_save before work db saved (ok final) f h = h

  save_published-Outgrows :
      (work : Work) (db : Database) (r : ApiResult Service) (before : Service)
      → Advances before.database.subscriptions db.subscriptions
      → Every (λ (s : Service). Advances before.database.subscriptions s.database.subscriptions) r
      → Outgrows before (save_published w work db r before)
  unfolding save_published
  save_published-Outgrows work db (err e) before f h = Advances-refl before.database.subscriptions
  save_published-Outgrows work db (ok saved) before f h =
      let subs = before.database.subscriptions in
      let published = publish_all w work.pull db.subscriptions in
      final_save before work db saved _ h (
        saved-Advances w.env saved subs (record db { subscriptions = published })
          (Advances-trans subs db.subscriptions published f
            (publish_all-Advances work.pull db.subscriptions)))

  tick_saved-Outgrows :
      (service : Service) (r : ApiResult (Work × Database))
      → Every (Round service.database.subscriptions) r
      → Outgrows service (tick_saved w service r)
  unfolding tick_saved
  tick_saved-Outgrows service (err e) h = Advances-refl service.database.subscriptions
  tick_saved-Outgrows service (ok result) h =
      save_published-Outgrows result.0 result.1 _ service h
        (saved-Advances w.env service service.database.subscriptions result.1 h)

  tick_choice :
      (b : Bool) (service : Service) (x : ApiResult (List Job) × Service)
      → Outgrows service x
      → Outgrows service (if b then (ok [], service) else x)
  tick_choice true service x h = Advances-refl service.database.subscriptions
  tick_choice false service x h = h

  pub tick-Outgrows :
      (active : Active) (service : Service) → Outgrows service (tick w active service)
  unfolding tick refresh
  tick-Outgrows active service =
      let subs = service.database.subscriptions in
      tick_choice (all_deleted w subs) service _ (
        tick_saved-Outgrows service _ (
          Every->>= (Round subs) (tails w.env) _ (λ streams listed.
            let db = refresh service.database streams w.env.now in
            Every-weaken (Round db.subscriptions) (Round subs) (tick_database w active db streams)
              (λ result.
                Advances-trans subs db.subscriptions result.1.subscriptions
                  (refresh_all-Advances streams w.env.now subs))
              (tick_database-Round active db streams))))
