-- ===== src/Subscriptions/Durability.antt =====
-- What is in memory is what the storage holds.
use durable_streams_rust.Prelude.{
  ℕ, ◌≡◌, refl, sym, ap, ◌∙◌, Bool, true, false, not, ◌&&◌, ◌||◌, Option, none, some, List, [], Str,
  str_eq, str_eq_iff, if◌then◌else◌, text, ◌==◌,
}
use durable_streams_rust.Prelude.Dict.{lookup}
use durable_streams_rust.Subscriptions.Api.{
  ApiError, ApiResult, err, ok, Every, Every->>=, Every->>, Every-if, Every-ok, ok_or, invalid_json,
}
use durable_streams_rust.Subscriptions.Model.{Wake, Subscription, Database, Configuration}
use durable_streams_rust.Subscriptions.Wakes.{refresh, lease_ended}
use durable_streams_rust.Subscriptions.Completion.{Response}
use durable_streams_rust.Subscriptions.Control.{Request, Environment, Service, tails, from_storage}
use durable_streams_rust.Subscriptions.Transaction.{
  write_changed, save, check_key, parse_control, handle_request, transact, control_transaction,
  settle, configured, control, is_get,
}
use durable_streams_rust.Subscriptions.Worker.{
  Job, Work, WorkerEnvironment, Active, save_published, tick_saved, all_deleted, tick,
}
use durable_streams_rust.Subscriptions.Outcome.{finish_wake, finish_current, finish_found, finish}

-- The storage holds the encoding of the database in memory.
unfoldable pub IsDurable : Environment → Service → Type 0
IsDurable env s =
    (bytes : Str) × (env.database_to_vec s.database ≡ some bytes) × (s.persisted ≡ some bytes)

module _ (env : Environment) where
  abbrev Stored : Str → Option Str → Type 0
  Stored bytes persisted = persisted ≡ some bytes

  write_changed-Stored :
      (service : Service) (old bytes : Str)
      → service.persisted ≡ some old
      → Every (Stored bytes) (write_changed env service old bytes)
  unfolding write_changed
  write_changed-Stored service old bytes h =
      Every-if (Stored bytes) (str_eq old bytes) _ _
        (λ e. h ∙ ap (λ b. some b) ((str_eq_iff old bytes).0 e))
        (λ e. Every->> (Stored bytes) (from_storage (env.write bytes)) _ (λ written. refl))

  ok_or-some :
      {T : Type 0} (e : ApiError) (o : Option T) (value : T) → ok_or e o ≡ ok value → o ≡ some value
  ok_or-some e none value h = cc
  ok_or-some e (some t) value h = cc

  same_bytes : {x : Option Str} {a b : Str} → x ≡ some a → x ≡ some b → a ≡ b
  same_bytes e f = some_eq (sym e ∙ f)
    where
      some_eq : {a b : Str} → some a ≡ some b → a ≡ b
      some_eq h = cc

  save-IsDurable :
      (service : Service) (next : Database)
      → IsDurable env service
      → Every (IsDurable env) (save env service next)
  unfolding save IsDurable
  save-IsDurable service next h =
      let P = IsDurable env in
      Every->>= P (ok_or invalid_json (env.database_to_vec next)) _ (λ bytes e.
        Every->>= P (ok_or invalid_json (env.database_to_vec service.database)) _ (λ old e'.
          Every->>= P (write_changed env service old bytes) _ (λ persisted e''.
            let encoded = ok_or-some invalid_json (env.database_to_vec next) bytes e in
            let before = ok_or-some invalid_json (env.database_to_vec service.database) old e' in
            let held = h.2 ∙ ap (λ b. some b) (same_bytes h.1 before) in
            (
              bytes,
              encoded,
              Every-ok (Stored bytes) e'' (write_changed-Stored service old bytes held),
            ))))

  abbrev Leaves {ℓ} : {T : Type ℓ} → T × Service → Type 0
  Leaves result = IsDurable env result.1

  transact-IsDurable :
      (service : Service) (c : Option Configuration) (request : Request)
      → IsDurable env service
      → Every Leaves (transact env service c request)
  unfolding transact
  transact-IsDurable service c request h =
      Every->>= Leaves (parse_control request.control) _ (λ parts parsed.
        Every->>= Leaves (tails env) _ (λ streams listed.
          let db = refresh service.database streams env.now in
          Every->>= Leaves (handle_request env db c parts.0 parts.1 request streams) _
            (λ result handled. Every->>= Leaves (save env service result.1) _ (λ saved written.
              Every-ok (IsDurable env) written (save-IsDurable service result.1 h)))))

  settle-IsDurable :
      (service : Service) (r : ApiResult (Response × Service))
      → IsDurable env service
      → Every Leaves r
      → Leaves (settle service r)
  unfolding settle
  settle-IsDurable service (err e) h f = h
  settle-IsDurable service (ok result) h f = f

  control-IsDurable :
      (service : Service) (request : Request)
      → IsDurable env service
      → IsDurable env (control env service request).1
  unfolding control control_transaction
  control-IsDurable service request h = settle-IsDurable service _ h (
      Every->>= Leaves (configured env request) _ (λ c e.
        Every->> Leaves (check_key env service.database.signing_key) _ (λ key.
          Every-if Leaves (str_eq request.control (text "jwks.json") && is_get request.method) _ _
            (λ e. h) (λ e. transact-IsDurable service c request h))))

  finish_current-IsDurable :
      (service : Service) (id : Str) (generation : ℕ) (result : ApiResult Bool) (random : Option ℕ)
      (later : ℕ) (sub : Subscription) (wake : Option Wake)
      → IsDurable env service
      → Every
          (IsDurable env)
          (finish_current env service id generation result random later sub wake)
  unfolding finish_current
  finish_current-IsDurable service id generation result random later sub none h = h
  finish_current-IsDurable service id generation result random later sub (some wake) h =
      Every-if (IsDurable env)
        (sub.deleted || not (wake.generation == generation) || lease_ended sub.wake env.now) _ _
        (λ stale. h)
        (λ current.
          Every->>= (IsDurable env) (finish_wake sub wake result random later) _
            (λ new done. save-IsDurable service _ h))

  finish-IsDurable :
      (service : Service) (id : Str) (generation : ℕ) (result : ApiResult Bool) (random : Option ℕ)
      (later : ℕ)
      → IsDurable env service
      → Every (IsDurable env) (finish env service id generation result random later)
  unfolding finish finish_found
  finish-IsDurable service id generation result random later h =
      found (lookup id service.database.subscriptions)
    where
      found :
          (o : Option Subscription)
          → Every (IsDurable env) (finish_found env service id generation result random later o)
      found none = h
      found (some sub) =
          finish_current-IsDurable service id generation result random later sub sub.wake h

module _ (w : WorkerEnvironment) where
  final_save :
      (work : Work) (saved : Service) (r : ApiResult Service)
      → IsDurable w.env saved
      → Every (IsDurable w.env) r
      → Leaves w.env {T = ApiResult (List Job)}
          (elim r [ err e ↦ (err e, saved) | ok final ↦ (ok work.jobs, final) ])
  final_save work saved (err e) f h = f
  final_save work saved (ok final) f h = h

  save_published-IsDurable :
      (work : Work) (db : Database) (r : ApiResult Service) (before : Service)
      → IsDurable w.env before
      → Every (IsDurable w.env) r
      → Leaves w.env (save_published w work db r before)
  unfolding save_published
  save_published-IsDurable work db (err e) before f h = f
  save_published-IsDurable work db (ok saved) before f h =
      final_save work saved _ h (save-IsDurable w.env saved _ h)

  tick_saved-IsDurable :
      (service : Service) (r : ApiResult (Work × Database))
      → IsDurable w.env service
      → Leaves w.env (tick_saved w service r)
  unfolding tick_saved
  tick_saved-IsDurable service (err e) h = h
  tick_saved-IsDurable service (ok result) h =
      save_published-IsDurable result.0 result.1 _ service h
        (save-IsDurable w.env service result.1 h)

  tick_choice :
      (b : Bool) (service : Service) (x : ApiResult (List Job) × Service)
      → IsDurable w.env service
      → Leaves w.env x
      → Leaves w.env (if b then (ok [], service) else x)
  tick_choice true service x f h = f
  tick_choice false service x f h = h

  tick-IsDurable :
      (active : Active) (service : Service)
      → IsDurable w.env service
      → IsDurable w.env (tick w active service).1
  unfolding tick
  tick-IsDurable active service h =
      tick_choice (all_deleted w service.database.subscriptions) service _ h
        (tick_saved-IsDurable service _ h)

-- If the storage holds the encoding of the database in memory, then it does so after every request,
-- every round of the worker and every recorded outcome, whether the writes succeed or fail.
pub transactions-IsDurable :
    (w : WorkerEnvironment) (service : Service)
    → IsDurable w.env service
    → ((request : Request) → IsDurable w.env (control w.env service request).1)
      × ((active : Active) → IsDurable w.env (tick w active service).1)
      × ((id : Str) (generation : ℕ) (result : ApiResult Bool) (random : Option ℕ) (later : ℕ)
          → Every (IsDurable w.env) (finish w.env service id generation result random later))
transactions-IsDurable w service h = (
  λ request. control-IsDurable w.env service request h,
  λ active. tick-IsDurable w active service h,
  λ id generation result random later.
      finish-IsDurable w.env service id generation result random later h,
)
