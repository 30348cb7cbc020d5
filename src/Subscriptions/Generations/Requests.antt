-- ===== src/Subscriptions/Generations/Requests.antt =====
-- Every request of the control API advances the database.
use durable_streams_rust.Prelude.{
  ℕ, suc, ◌≡◌, refl, Bool, true, false, not, ◌&&◌, ◌||◌, Option, none, some, List, [], ◌∷◌, Str,
  str_eq, if◌then◌else◌, arith, ltb, text, u64_mod,
}
use durable_streams_rust.Prelude.Dict.{Dict, lookup}
use durable_streams_rust.Subscriptions.Api.{
  err, ok, Every, Every->>=, Every->>, Every-if, Every-ok, ok_or, invalid_json, fenced,
}
use durable_streams_rust.Subscriptions.Model.{
  Wake, Subscription, pending, Link, validate_path, config_matches,
}
use durable_streams_rust.Subscriptions.Tokens.{Primitives, token, verify}
use durable_streams_rust.Subscriptions.Wakes.{
  lease_ended, refresh_subscription, refresh_all, next_generation, wake_token, new_wake, with_wake,
}
use durable_streams_rust.Subscriptions.Completion.{
  Response, Completion, extend, apply_completion, complete, bearer, is_fenced, check_acks,
}
use durable_streams_rust.Subscriptions.Control.{
  claimable_wake, take_wake, check_holder, check_worker, no_work, add_paths, claim_subscription,
  add_streams, unlink_found, remove_stream,
}
use durable_streams_rust.Subscriptions.Generations.{
  HasCurrent, HasCurrentWake, Follows, Advances, Follows-refl, Change-entry,
}

-- The loop of `refresh`.
module _ (streams : Dict Str) (now : ℕ) where
  refresh_choice :
      (sub linked ended : Subscription) (b c : Bool)
      → Follows sub linked
      → Follows sub ended
      → Follows sub (if b then sub else if c then ended else linked)
  refresh_choice sub linked ended true c f g = Follows-refl sub
  refresh_choice sub linked ended false true f g = g
  refresh_choice sub linked ended false false f g = f

  refresh_subscription-Follows :
      (sub : Subscription) → Follows sub (refresh_subscription streams now sub)
  unfolding refresh_subscription
  refresh_subscription-Follows sub =
      refresh_choice sub _ _ sub.deleted (lease_ended sub.wake now && not sub.failed)
        (omega arith, λ h. h, λ h. h) (omega arith, λ h. tt, λ h. h)

  pub refresh_all-Advances :
      (subs : Dict Subscription) → Advances subs (refresh_all streams now subs)
  unfolding refresh_all lookup
  refresh_all-Advances [] id = tt
  refresh_all-Advances ((key, sub) ∷ subs) id =
      Change-entry (str_eq key id) sub (refresh_subscription streams now sub) (lookup id subs)
        (lookup id (refresh_all streams now subs)) (refresh_subscription-Follows sub)
        (refresh_all-Advances subs id)

next_generation-suc : (g : ℕ) → Every (λ (g' : ℕ). g' ≡ suc g) (next_generation g)
unfolding next_generation
next_generation-suc g =
    Every-if (λ (g' : ℕ). g' ≡ suc g) (ltb (suc g) u64_mod) _ _ (λ h. refl) (λ h. tt)

-- A new wake is of the next generation.
abbrev pub IsNext : Subscription → Wake → Type 0
IsNext sub wake = wake.generation ≡ suc sub.generation

module _ (p : Primitives) where
  pub new_wake-IsNext :
      (sub : Subscription) (id key : Str) (streams : Dict Str) (now : ℕ) (random : Option Str)
      → Every (IsNext sub) (new_wake p sub id key streams now random)
  unfolding new_wake
  new_wake-IsNext sub id key streams now random =
      Every->>= (IsNext sub) (next_generation sub.generation) _ (λ g next.
        Every->>= (IsNext sub) (ok_or _ random) _ (λ w picked.
          Every->>= (IsNext sub) (wake_token p sub id key g w) _ (λ t signed.
            Every-ok (λ (g' : ℕ). g' ≡ suc sub.generation) next
              (next_generation-suc sub.generation))))

pub with_wake-Follows :
    (sub : Subscription) (wake : Wake) (now : ℕ)
    → wake.generation ≡ suc sub.generation
    → Follows sub (with_wake sub wake now)
unfolding with_wake
with_wake-Follows sub wake now h = (omega (arith, h), λ c. refl, λ d. d)

-- The outcome of an operation on one subscription.
abbrev pub Ends : Subscription → Response × Subscription → Type 0
Ends sub result = Follows sub result.1

module _ (p : Primitives) where
  -- The wake to be claimed is current in its subscription.
  abbrev IsClaimable : Subscription → Wake × Subscription → Type 0
  IsClaimable sub found =
      Follows sub found.1 × (HasCurrentWake sub → found.0.generation ≡ found.1.generation)

  claimable_wake-IsClaimable :
      (sub : Subscription) (found : Option Wake) (id key : Str) (streams : Dict Str) (now : ℕ)
      (random : Option Str)
      → (HasCurrentWake sub → HasCurrent found sub.generation)
      → Every (IsClaimable sub) (claimable_wake p sub found id key streams now random)
  unfolding claimable_wake with_wake
  claimable_wake-IsClaimable sub (some wake) id key streams now random current =
      Every->> (IsClaimable sub) (check_holder wake) _ (λ free. (Follows-refl sub, current))
  claimable_wake-IsClaimable sub none id key streams now random current =
      Every->> (IsClaimable sub) (if pending sub streams then ok tt else err no_work) _ (λ work.
        Every->>= (IsClaimable sub) (new_wake p sub id key streams now random) _ (λ wake made. (
          with_wake-Follows sub wake now
              (Every-ok (IsNext sub) made (new_wake-IsNext p sub id key streams now random)),
          λ c. refl,
        )))

  take_wake-Ends :
      (sub : Subscription) (wake : Wake) (worker id key : Str) (streams : Dict Str) (now : ℕ)
      (origin : Subscription)
      → IsClaimable origin (wake, sub)
      → Every (Ends origin) (take_wake p sub wake worker id key streams now)
  unfolding take_wake
  take_wake-Ends sub wake worker id key streams now origin h =
      Every->>= (Ends origin) (token p key _) _ (λ t signed. (h.0.0, λ c. h.1 c, h.0.2))

  pub claim_subscription-Ends :
      (parse : Str → Option Str) (sub : Subscription) (id key body : Str) (streams : Dict Str)
      (now : ℕ) (random : Option Str)
      → Every (Ends sub) (claim_subscription p parse sub id key body streams now random)
  unfolding claim_subscription
  claim_subscription-Ends parse sub id key body streams now random =
      Every->>= (Ends sub) (ok_or invalid_json (parse body)) _ (λ worker parsed.
        Every->> (Ends sub) (check_worker worker) _ (λ named.
          Every->>= (Ends sub) (claimable_wake p sub sub.wake id key streams now random) _
            (λ found got. take_wake-Ends found.1 found.0 worker id key streams now sub (
              Every-ok (IsClaimable sub) got
                (claimable_wake-IsClaimable sub sub.wake id key streams now random (λ c. c))))))

-- The other operations leave the generation alone.
HasCurrent-extend :
    (until : ℕ) (wake : Option Wake) (g : ℕ) → HasCurrent wake g → HasCurrent (extend until wake) g
unfolding extend
HasCurrent-extend until none g h = tt
HasCurrent-extend until (some wake) g h = h

choose_wake :
    (b : Bool) (sub ended kept : Subscription)
    → Follows sub ended
    → Follows sub kept
    → Follows sub (if b then ended else kept)
choose_wake true sub ended kept f g = f
choose_wake false sub ended kept f g = g

apply_completion-Ends :
    (sub : Subscription) (action : Str) (completion : Completion) (streams : Dict Str) (now : ℕ)
    → Ends sub (apply_completion sub action completion streams now)
unfolding apply_completion
apply_completion-Ends sub action completion streams now =
    choose_wake (completion.done || str_eq action (text "release")) sub _ _
      (omega arith, λ h. tt, λ h. h)
      (omega arith, λ h. HasCurrent-extend _ sub.wake sub.generation h, λ h. h)

pub complete-Ends :
    (p : Primitives) (parse : Str → Option Completion) (sub : Subscription) (id key : Str)
    (authorization : Option Str) (body action : Str) (streams : Dict Str) (now : ℕ)
    → Every (Ends sub) (complete p parse sub id key authorization body action streams now)
unfolding complete
complete-Ends p parse sub id key authorization body action streams now =
    Every->>= (Ends sub) (ok_or invalid_json (parse body)) _ (λ completion parsed.
      Every->>= (Ends sub) (ok_or fenced (bearer authorization)) _ (λ tok given.
        Every->>= (Ends sub) (verify p key tok) _ (λ claims signed.
          Every->>= (Ends sub) (ok_or fenced sub.wake) _ (λ wake found.
            Every->> (Ends sub)
              (if is_fenced sub wake id action tok claims completion now then err fenced else ok tt)
              _
              (λ current.
                Every->> (Ends sub) (check_acks sub.links streams completion.acks) _
                  (λ checked. apply_completion-Ends sub action completion streams now))))))

pub add_streams-Ends :
    (parse : Str → Option (List Str)) (sub : Subscription) (body : Str) (streams : Dict Str)
    → Every (Ends sub) (add_streams parse sub body streams)
unfolding add_streams
add_streams-Ends parse sub body streams =
    Every->>= (Ends sub) (ok_or invalid_json (parse body)) _ (λ paths parsed.
      Every->>= (Ends sub) (add_paths sub.config streams paths sub.links) _
        (λ links added. (omega arith, λ h. h, λ h. h)))

unlink_found-Follows :
    (sub : Subscription) (path : Str) (o : Option Link) → Follows sub (unlink_found sub path o)
unfolding unlink_found
unlink_found-Follows sub path none = Follows-refl sub
unlink_found-Follows sub path (some link) = (omega arith, λ h. h, λ h. h)

pub remove_stream-Ends :
    (sub : Subscription) (path : Str) → Every (Ends sub) (remove_stream sub path)
unfolding remove_stream
remove_stream-Ends sub path = Every->> (Ends sub) (validate_path path) _ (λ valid.
    choose_wake (config_matches sub.config path) sub _ _
      (unlink_found-Follows sub path (lookup path sub.links)) (omega arith, λ h. h, λ h. h))
