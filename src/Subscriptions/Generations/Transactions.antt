-- ===== src/Subscriptions/Generations/Transactions.antt =====
-- A request of the control API advances the database.
use durable_streams_rust.Prelude.{
  ◌≡◌, refl, sym, subst, not, ◌&&◌, Option, none, some, [], ◌∷◌, Str, str_eq, arith, text,
}
use durable_streams_rust.Prelude.Dict.{Dict, lookup}
use durable_streams_rust.Protocol.StreamName.{name_is_empty}
use durable_streams_rust.Subscriptions.Api.{
  ApiResult, err, ok, Every, Every->>=, Every->>, Every-if, Every-ok, ok_or, missing, invalid_json,
}
use durable_streams_rust.Subscriptions.Model.{Subscription, Database, Configuration, is_webhook}
use durable_streams_rust.Subscriptions.Wakes.{refresh}
use durable_streams_rust.Subscriptions.Completion.{Response}
use durable_streams_rust.Subscriptions.Control.{
  Request, Environment, Service, Method, get, put_request, post, delete, other_method, tails,
}
use durable_streams_rust.Subscriptions.Transaction.{
  write_changed, save, check_wake_stream, new_subscription, create_new, create_or_match,
  same_configuration, check_key, create_subscription, parse_control, one_of, delete_action,
  post_action, act, live_subscription, on_subscription, handle_request, transact,
  control_transaction, settle, configured, control, is_put, is_get,
}
use durable_streams_rust.Subscriptions.Generations.{
  Change, Advances, Follows-refl, Advances-refl, Advances-trans, Advances-put,
}
use durable_streams_rust.Subscriptions.Generations.Requests.{
  Ends, refresh_all-Advances, claim_subscription-Ends, complete-Ends, add_streams-Ends,
  remove_stream-Ends,
}

module _ (env : Environment) where
  delete_action-Ends :
      (sub : Subscription) (action : Str) (path : Option Str)
      → Every (Ends sub) (delete_action sub action path)
  unfolding delete_action
  delete_action-Ends sub action (some path) = remove_stream-Ends sub path
  delete_action-Ends sub action none =
      Every-if (Ends sub) (name_is_empty action) _ _ (λ e. (omega arith, λ h. tt, λ h. refl))
        (λ e. tt)

  post_action-Ends :
      (sub : Subscription) (id key : Str) (request : Request) (action : Str) (streams : Dict Str)
      → Every (Ends sub) (post_action env sub id key request action streams)
  unfolding post_action
  post_action-Ends sub id key request action streams =
      Every-if (Ends sub) (str_eq action (text "streams")) _ _
        (λ e. add_streams-Ends env.parse_membership sub request.body streams)
        (λ e.
          Every-if (Ends sub) (str_eq action (text "claim") && not (is_webhook sub.config.kind)) _ _
            (λ e.
              claim_subscription-Ends env.primitives env.parse_claim sub id key request.body streams
                env.now env.random)
            (λ e.
              Every-if (Ends sub)
                (one_of (text "callback" ∷ text "ack" ∷ text "release" ∷ []) action) _ _
                (λ e.
                  complete-Ends env.primitives env.parse_completion sub id key request.authorization
                    request.body action streams env.now)
                (λ e. tt)))

  method_cases :
      (m : Method) (sub : Subscription) (x y z : ApiResult (Response × Subscription))
      → Every (Ends sub) x
      → Every (Ends sub) y
      → Every (Ends sub) z
      → Every (Ends sub) (elim m [
        | get ↦ x
        | delete ↦ y
        | post ↦ z
        | put_request ↦ err missing
        | other_method ↦ err missing
      ])
  method_cases get sub x y z hx hy hz = hx
  method_cases delete sub x y z hx hy hz = hy
  method_cases post sub x y z hx hy hz = hz
  method_cases put_request sub x y z hx hy hz = tt
  method_cases other_method sub x y z hx hy hz = tt

  act-Ends :
      (sub : Subscription) (id key : Str) (request : Request) (action : Str) (streams : Dict Str)
      → Every (Ends sub) (act env sub id key request action streams)
  unfolding act
  act-Ends sub id key request action streams =
      method_cases request.method sub _ _ _
        (Every-if (Ends sub) (name_is_empty action) _ _ (λ e. Follows-refl sub) (λ e. tt))
        (delete_action-Ends sub action _) (post_action-Ends sub id key request action streams)

  -- The outcome of a request on a database.
  abbrev Grows : Dict Subscription → Response × Database → Type 0
  Grows subs result = Advances subs result.1.subscriptions

  live_subscription-eq :
      (o : Option Subscription) → Every (λ (sub : Subscription). o ≡ some sub) (live_subscription o)
  unfolding live_subscription
  live_subscription-eq none = tt
  live_subscription-eq (some sub) =
      Every-if (λ (s : Subscription). some sub ≡ some s) sub.deleted _ _ (λ e. tt) (λ e. refl)

  on_subscription-Grows :
      (db : Database) (id : Str) (request : Request) (action : Str) (streams : Dict Str)
      → Every (Grows db.subscriptions) (on_subscription env db id request action streams)
  unfolding on_subscription
  on_subscription-Grows db id request action streams =
      Every->>= (Grows db.subscriptions) (live_subscription (lookup id db.subscriptions)) _
        (λ sub live.
          Every->>= (Grows db.subscriptions) (act env sub id db.signing_key request action streams)
            _
            (λ result acted. Advances-put id result.1 db.subscriptions (
              subst (λ o. Change o (some result.1))
                (sym (
                  Every-ok (λ (s : Subscription). lookup id db.subscriptions ≡ some s) live
                    (live_subscription-eq (lookup id db.subscriptions))))
                (Every-ok (Ends sub) acted
                  (act-Ends sub id db.signing_key request action streams)))))

  create_or_match-Grows :
      (db : Database) (id : Str) (c : Configuration) (hash : Str) (request : Request)
      (streams : Dict Str) (o : Option Subscription)
      → lookup id db.subscriptions ≡ o
      → Every (Grows db.subscriptions) (create_or_match env db id c hash request streams o)
  unfolding create_or_match create_new new_subscription
  create_or_match-Grows db id c hash request streams none e =
      Every->> (Grows db.subscriptions) (check_wake_stream env c.wake_stream) _ (λ checked.
        Every->>= (Grows db.subscriptions) (ok_or _ request.authority) _ (λ authority given.
          let new = new_subscription env c hash request authority streams in
          Advances-put id new db.subscriptions (subst (λ o. Change o (some new)) (sym e) tt)))
  create_or_match-Grows db id c hash request streams (some existing) e =
      Every->> (Grows db.subscriptions) (same_configuration existing hash) _
        (λ same. Advances-refl db.subscriptions)

  create_subscription-Grows :
      (db : Database) (id : Str) (c : Configuration) (request : Request) (streams : Dict Str)
      → Every (Grows db.subscriptions) (create_subscription env db id c request streams)
  unfolding create_subscription
  create_subscription-Grows db id c request streams =
      Every->> (Grows db.subscriptions) (check_key env db.signing_key) _ (λ key.
        Every->>= (Grows db.subscriptions) (ok_or invalid_json (env.configuration_to_vec c)) _
          (λ bytes encoded.
            create_or_match-Grows db id c (env.hash bytes) request streams
              (lookup id db.subscriptions) refl))

  handle_request-Grows :
      (db : Database) (c : Option Configuration) (id action : Str) (request : Request)
      (streams : Dict Str)
      → Every (Grows db.subscriptions) (handle_request env db c id action request streams)
  unfolding handle_request
  handle_request-Grows db none id action request streams =
      on_subscription-Grows db id request action streams
  handle_request-Grows db (some c) id action request streams =
      Every-if (Grows db.subscriptions) (is_put request.method && name_is_empty action) _ _
        (λ e. create_subscription-Grows db id c request streams)
        (λ e. on_subscription-Grows db id request action streams)

-- What a request leaves behind.
abbrev pub Outgrows {ℓ} : {T : Type ℓ} → Service → T × Service → Type 0
Outgrows before result = Advances before.database.subscriptions result.1.database.subscriptions

pub saved-Advances :
    (env : Environment) (service : Service) (subs : Dict Subscription) (next : Database)
    → Advances subs next.subscriptions
    → Every (λ (s : Service). Advances subs s.database.subscriptions) (save env service next)
unfolding save
saved-Advances env service subs next h =
    let P = λ (s : Service). Advances subs s.database.subscriptions in
    Every->>= P (ok_or invalid_json (env.database_to_vec next)) _ (λ bytes e.
      Every->>= P (ok_or invalid_json (env.database_to_vec service.database)) _
        (λ old e'. Every->>= P (write_changed env service old bytes) _ (λ stored e''. h)))

module _ (env : Environment) where
  transact-Outgrows :
      (service : Service) (c : Option Configuration) (request : Request)
      → Every (Outgrows service) (transact env service c request)
  unfolding transact refresh
  transact-Outgrows service c request =
      let subs = service.database.subscriptions in
      Every->>= (Outgrows service) (parse_control request.control) _ (λ parts parsed.
        Every->>= (Outgrows service) (tails env) _ (λ streams listed.
          let db = refresh service.database streams env.now in
          Every->>= (Outgrows service) (handle_request env db c parts.0 parts.1 request streams) _
            (λ result handled.
              Every->>= (Outgrows service) (save env service result.1) _ (λ saved written.
                Every-ok (λ (s : Service). Advances subs s.database.subscriptions) written
                  (saved-Advances env service subs result.1 (
                    Advances-trans subs db.subscriptions result.1.subscriptions
                      (refresh_all-Advances streams env.now subs)
                      (Every-ok (Grows env db.subscriptions) handled
                        (handle_request-Grows env db c parts.0 parts.1 request streams))))))))

  settle-Outgrows :
      (service : Service) (r : ApiResult (Response × Service))
      → Every (Outgrows service) r
      → Outgrows service (settle service r)
  unfolding settle
  settle-Outgrows service (err e) h = Advances-refl service.database.subscriptions
  settle-Outgrows service (ok result) h = h

  pub control-Outgrows :
      (service : Service) (request : Request) → Outgrows service (control env service request)
  unfolding control control_transaction
  control-Outgrows service request = settle-Outgrows service _ (
      Every->>= (Outgrows service) (configured env request) _ (λ c e.
        Every->> (Outgrows service) (check_key env service.database.signing_key) _ (λ key.
          Every-if (Outgrows service)
            (str_eq request.control (text "jwks.json") && is_get request.method) _ _
            (λ e. Advances-refl service.database.subscriptions)
            (λ e. transact-Outgrows service c request))))
