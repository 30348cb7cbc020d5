-- ===== src/Subscriptions/Fencing.antt =====
-- Which completions of a wake are accepted.
use durable_streams_rust.Prelude.{
  ℕ, ◌≡◌, ◌<◌, refl, sym, ap, ◌∙◌, subst, Bool, true, false, not, Option, none, some, Str,
  if◌then◌else◌, arith, ◌==◌, ==_iff, str_eq, str_eq_iff,
}
use durable_streams_rust.Prelude.Dict.{Dict, lookup}
use durable_streams_rust.Subscriptions.Api.{
  ApiError, ApiResult, err, ok, Every, Every->>=, Every->>, ok_or, fenced, invalid_json,
}
use durable_streams_rust.Subscriptions.Model.{Wake, Subscription}
use durable_streams_rust.Subscriptions.Tokens.{Claims, Primitives, verify}
use durable_streams_rust.Subscriptions.Completion.{
  Completion, Response, bearer, is_fenced, no_lease, check_acks, complete, option_str_eq,
}
use durable_streams_rust.Subscriptions.Control.{Service}
use durable_streams_rust.Subscriptions.Generations.{HasCurrent, HasCurrentWake}
use durable_streams_rust.Subscriptions.Generations.Runs.{
  Run, AllCurrent, Remains, Run-AllCurrent, Run-Remains,
}

-- A wake whose lease runs on, named by the request and by a token that the server signed for it.
unfoldable pub IsAccepted : Primitives → Subscription → Str → Str → Str → Completion → ℕ → Type 0
IsAccepted p sub id key tok completion now =
    (wake : Wake) × (claims : Claims) × (until : ℕ) × (sub.wake ≡ some wake)
    × (completion.generation ≡ wake.generation)
    × (completion.wake_id ≡ wake.id)
    × (wake.lease_until ≡ some until)
    × (now < until)
    × (wake.token ≡ some tok)
    × (verify p key tok ≡ ok claims)
    × (claims.subscription ≡ id)
    × (claims.generation ≡ wake.generation)
    × (claims.wake_id ≡ wake.id)

is_not-false : (b : Bool) → not b ≡ false → b ≡ true
is_not-false true h = refl
is_not-false false h = cc

same_text : (a b : Str) → not (str_eq a b) ≡ false → a ≡ b
same_text a b h = (str_eq_iff a b).0 (is_not-false (str_eq a b) h)

same_number : (a b : ℕ) → not (a == b) ≡ false → a ≡ b
same_number a b h = (==_iff a b).0 (is_not-false (a == b) h)

same_token : (o : Option Str) (s : Str) → not (option_str_eq o s) ≡ false → o ≡ some s
same_token none s h = cc
same_token (some t) s h = ap (λ u. some u) (same_text t s h)

running_lease :
    (o : Option ℕ) (now : ℕ)
    → no_lease o now ≡ false
    → (until : ℕ) × (o ≡ some until) × (now < until)
unfolding no_lease
running_lease none now h = cc
running_lease (some until) now h = (until, refl, ground arith)

module _ (p : Primitives) (sub : Subscription) (wake : Wake) (id key action tok : Str)
    (claims : Claims) (completion : Completion) (now : ℕ) where
  accepted :
      sub.wake ≡ some wake
      → verify p key tok ≡ ok claims
      → is_fenced sub wake id action tok claims completion now ≡ false
      → IsAccepted p sub id key tok completion now
  unfolding IsAccepted is_fenced
  accepted found signed h =
      let (until, lease, runs) = running_lease wake.lease_until now (ground arith) in
      (
        wake,
        claims,
        until,
        found,
        same_number completion.generation wake.generation (ground arith),
        same_text completion.wake_id wake.id (ground arith),
        lease,
        runs,
        same_token wake.token tok (ground arith),
        signed,
        same_text claims.subscription id (ground arith),
        same_number claims.generation wake.generation (ground arith),
        same_text claims.wake_id wake.id (ground arith),
      )

-- The result of `o.ok_or(e)?`.
ok_or-some :
    {T : Type 0} (e : ApiError) (o : Option T) (value : T) → ok_or e o ≡ ok value → o ≡ some value
ok_or-some e none value h = cc
ok_or-some e (some t) value h = cc

guard_passed :
    (b : Bool) (e : ApiError) → (if b then err e else ok (tt {0})) ≡ ok (tt {0}) → b ≡ false
guard_passed true e h = cc
guard_passed false e h = refl

-- What a request must carry.
unfoldable pub Carries : (Str → Option Completion) → Option Str → Str → Completion → Str → Type 0
Carries parse authorization body completion tok =
    (parse body ≡ some completion) × (bearer authorization ≡ some tok)

-- A completion is accepted only if its body and its token name the wake that the subscription has,
-- the token is the one stored with that wake and was signed for this subscription, wake and
-- generation, and the lease runs on.
pub complete-IsAccepted :
    (p : Primitives) (parse : Str → Option Completion) (sub : Subscription) (id key : Str)
    (authorization : Option Str) (body action : Str) (streams : Dict Str) (now : ℕ)
    → Every
        (λ (r : Response × Subscription).
          (completion : Completion) × (tok : Str) × Carries parse authorization body completion tok
          × IsAccepted p sub id key tok completion now)
        (complete p parse sub id key authorization body action streams now)
unfolding complete Carries
complete-IsAccepted p parse sub id key authorization body action streams now =
    let P = λ (r : Response × Subscription).
      (completion : Completion) × (tok : Str) × Carries parse authorization body completion tok
      × IsAccepted p sub id key tok completion now in
    Every->>= P (ok_or invalid_json (parse body)) _ (λ completion parsed.
      Every->>= P (ok_or fenced (bearer authorization)) _ (λ tok given.
        Every->>= P (verify p key tok) _ (λ claims signed.
          Every->>= P (ok_or fenced sub.wake) _ (λ wake found.
            let test = is_fenced sub wake id action tok claims completion now in
            Every->> P (if test then err fenced else ok tt) _ (λ current.
              Every->> P (check_acks sub.links streams completion.acks) _ (λ checked. (
                completion,
                tok,
                (
                  ok_or-some invalid_json (parse body) completion parsed,
                  ok_or-some fenced (bearer authorization) tok given,
                ),
                accepted p sub wake id key action tok claims completion now
                    (ok_or-some fenced sub.wake wake found) signed
                    (guard_passed test fenced current),
              )))))))

-- Of a current wake, the generation is the subscription's.
accepted_generation :
    (p : Primitives) (sub : Subscription) (id key tok : Str) (completion : Completion) (now : ℕ)
    → HasCurrentWake sub
    → IsAccepted p sub id key tok completion now
    → completion.generation ≡ sub.generation
unfolding IsAccepted
accepted_generation p sub id key tok completion now current h =
    h.4 ∙ subst (λ o. HasCurrent o sub.generation) h.3 current

some_eq : {T : Type 0} {a b : T} → some a ≡ some b → a ≡ b
some_eq h = cc

refused :
    {T : Type 0} (P : T → Type 0) (r : ApiResult T)
    → Every P r
    → ((value : T) → ¬ (P value))
    → (e : ApiError) × (r ≡ err e)
refused P (err e) h n = (e, refl)
refused P (ok value) h n = absurd (n value h)

-- Once a subscription has reached a generation, a completion that names an earlier one is refused
-- in every later state of the service, whatever was requested or delivered in between, if the
-- stored wakes were current at the start.
pub Run-fences :
    {s t : Service} (id : Str) (old sub : Subscription) (p : Primitives)
    (parse : Str → Option Completion) (key : Str) (authorization : Option Str) (body action : Str)
    (streams : Dict Str) (now : ℕ) (completion : Completion)
    → Run s t
    → AllCurrent s
    → lookup id s.database.subscriptions ≡ some old
    → lookup id t.database.subscriptions ≡ some sub
    → parse body ≡ some completion
    → completion.generation < old.generation
    → (e : ApiError) × (complete p parse sub id key authorization body action streams now ≡ err e)
unfolding Remains Carries AllCurrent
Run-fences {s} {t} id old sub p parse key authorization body action streams now completion run
      current before after parsed stale =
    refused _ (complete p parse sub id key authorization body action streams now)
      (complete-IsAccepted p parse sub id key authorization body action streams now)
      (λ r accept.
        let later = Run-Remains id old run before in
        let same_body = some_eq (sym accept.2.0 ∙ parsed) in
        let same_sub = some_eq (sym later.1 ∙ after) in
        let current_wake = Run-AllCurrent run current id sub after in
        let equal = accepted_generation p sub id key accept.1 accept.0 now current_wake accept.3 in
        let e1 = ap (λ (c : Completion). c.generation) same_body in
        let e2 = ap (λ (u : Subscription). u.generation) same_sub in
        omega (arith, e1, e2, equal, later.2, stale))
