-- ===== src/Subscriptions/Api.antt =====
-- subscriptions/mod.rs: the errors of the control API, and its `?` as a `do` block.
use durable_streams_rust.Prelude.{
  ℕ, Option, none, some, Str, text, Bool, true, false, if◌then◌else◌, ◌≡◌, refl, subst,
}

pub record ApiError : Type 0 where
  pub status : ℕ
  pub code : Str
  pub message : Str
  -- The holder and the generation of a refused claim.
  pub extra : Option (Str × ℕ)

unfoldable pub bad : Str → Str → ApiError
bad code message = record { status = 400; code = code; message = message; extra = none }

unfoldable pub internal : Str → ApiError
internal message = record {
  status = 503;
  code = text "UNAVAILABLE";
  message = message;
  extra = none;
}

unfoldable pub conflict : Str → Str → ApiError
conflict code message = record { status = 409; code = code; message = message; extra = none }

unfoldable pub fenced : ApiError
unfolding conflict
fenced = conflict (text "FENCED") (text "wake or lease is no longer current")

unfoldable pub missing : ApiError
missing = record {
  status = 404;
  code = text "NOT_FOUND";
  message = text "subscription not found";
  extra = none;
}

unfoldable pub invalid_json : ApiError
unfolding bad
invalid_json = bad (text "INVALID_JSON") (text "invalid JSON request")

pub data ApiResult {ℓ} (T : Type ℓ) : Type ℓ where
  err : ApiError → ApiResult T
  ok : T → ApiResult T

infixl 5 ◌>>=◌
abbrev pub ◌>>=◌ {ℓ κ} : {T : Type ℓ} {U : Type κ} → ApiResult T → (T → ApiResult U) → ApiResult U
err reason >>= rest = err reason
ok value >>= rest = rest value

infixl 5 ◌>>◌
abbrev pub ◌>>◌ {κ} : {U : Type κ} → ApiResult (Unit {0}) → ApiResult U → ApiResult U
err reason >> rest = err reason
ok passed >> rest = rest

-- `o.ok_or(reason)`
abbrev pub ok_or {ℓ} : {T : Type ℓ} → ApiError → Option T → ApiResult T
ok_or reason none = err reason
ok_or reason (some value) = ok value

-- Whatever a computation returns on success satisfies `P`.
abbrev pub Every {ℓ κ} : {T : Type ℓ} → (T → Type κ) → ApiResult T → Type κ
Every P (err reason) = Unit
Every P (ok value) = P value

module _ {ℓ κ μ} {T : Type ℓ} {U : Type κ} (P : U → Type μ) where
  pub Every->>= :
      (result : ApiResult T) (rest : T → ApiResult U)
      → ((value : T) → result ≡ ok value → Every P (rest value))
      → Every P (result >>= rest)
  Every->>= (err reason) rest h = tt
  Every->>= (ok value) rest h = h value refl

module _ {κ μ} {U : Type κ} (P : U → Type μ) where
  pub Every->> :
      (result : ApiResult (Unit {0})) (rest : ApiResult U)
      → (result ≡ ok tt → Every P rest)
      → Every P (result >> rest)
  Every->> (err reason) rest h = tt
  Every->> (ok passed) rest h = h refl

  pub Every-if :
      (b : Bool) (x y : ApiResult U)
      → (b ≡ true → Every P x)
      → (b ≡ false → Every P y)
      → Every P (if b then x else y)
  Every-if true x y f g = f refl
  Every-if false x y f g = g refl

  pub Every-ok : {result : ApiResult U} {value : U} → result ≡ ok value → Every P result → P value
  Every-ok h e = subst (λ r. Every P r) h e

module _ {ℓ κ μ} {T : Type ℓ} (P : T → Type κ) (Q : T → Type μ) where
  pub Every-weaken :
      (result : ApiResult T) → ((value : T) → P value → Q value) → Every P result → Every Q result
  Every-weaken (err reason) f h = tt
  Every-weaken (ok value) f h = f value h
