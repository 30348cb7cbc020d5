-- ===== src/Subscriptions/Tokens.antt =====
-- subscriptions/crypto.rs: the tokens of wakes. Signatures, Base64, JSON and random bytes come from
-- the crates that the file calls.
use durable_streams_rust.Prelude.{
  ℕ, ◌*◌, ◌/◌, ◌==◌, if◌then◌else◌, Bool, true, false, Option, none, some, [], ◌∷◌, ◌++◌, Str, text,
}
use durable_streams_rust.Subscriptions.Api.{
  ApiResult, err, ok, fenced, internal, invalid_json, ok_or, ◌>>=◌,
}

pub record Claims : Type 0 where
  pub subscription : Str
  pub generation : ℕ
  pub wake_id : Str

-- What the crates offer. `none` is their failure.
pub record Primitives : Type 0 where
  -- The signature by the pair of keys that the bytes hold.
  pub sign : Str → Str → Option Str
  -- Whether the public key of the pair verifies a signature of the data; `none` for invalid bytes.
  pub verifies : Str → Str → Str → Option Bool
  pub encode : Str → Str
  pub decode : Str → Option Str
  pub claims_to_vec : Claims → Option Str
  pub claims_from_slice : Str → Option Claims

-- `split_once` on a byte.
pub before_onto : ℕ → Option (Str × Str) → Option (Str × Str)
before_onto c none = none
before_onto c (some (a, b)) = some (c ∷ a, b)

unfoldable pub split_once : ℕ → Str → Option (Str × Str)
unfolding before_onto
split_once mark [] = none
split_once mark (c ∷ s) =
    let rest = split_once mark s in if c == mark then some ([], s) else before_onto c rest

module _ (p : Primitives) where
  unfoldable pub signature : Str → Str → ApiResult Str
  signature key data_bytes = do
    sig ← ok_or (internal (text "invalid persisted signing key")) (p.sign key data_bytes)
    ok (p.encode sig)

  unfoldable pub token : Str → Claims → ApiResult Str
  unfolding signature
  token key claims = do
    bytes ← ok_or invalid_json (p.claims_to_vec claims)
    sig ← signature key (p.encode bytes)
    ok (p.encode bytes ++ text "." ++ sig)

  verified : Option Bool → ApiResult (Unit {0})
  verified none = err (internal (text "invalid persisted signing key"))
  verified (some true) = ok tt
  verified (some false) = err fenced

  unfoldable pub verify : Str → Str → ApiResult Claims
  unfolding verified
  verify key tok = do
    parts ← ok_or fenced (split_once b'.' tok)
    sig ← ok_or fenced (p.decode parts.1)
    checked ← verified (p.verifies key parts.0 sig)
    bytes ← ok_or fenced (p.decode parts.0)
    ok_or fenced (p.claims_from_slice bytes)

-- The jitter of a retry over the two random bytes, with 200 added.
unfoldable pub jitter_above : ℕ → ℕ
jitter_above raw = raw * 400 / 65535
