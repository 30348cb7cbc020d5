-- ===== src/Protocol/Error.antt =====
-- protocol/error.rs: the domain errors, and `Result` with its `?` as a `do` block.
use durable_streams_rust.Prelude.{ℕ, Str, ◌≡◌, refl, Option}

pub data StorageFailureClass : Type 0 where
  unavailable_class insufficient_storage_class : StorageFailureClass

pub record StorageFailure : Type 0 where
  pub class : StorageFailureClass
  pub backend : Str
  pub operation : Str
  pub detail : Str
  pub retry_after_secs : Option ℕ

pub data Error : Type 0 where
  not_found : Str → Error
  config_mismatch : Error
  invalid_offset : Str → Error
  replacement_has_forks : Error
  -- expected, actual
  content_type_mismatch : Str → Str → Error
  stream_closed : Error
  -- expected, actual
  sequence_gap : ℕ → ℕ → Error
  -- current, received
  epoch_fenced : ℕ → ℕ → Error
  invalid_producer_state : Str → Error
  memory_limit_exceeded : Error
  stream_size_limit_exceeded : Error
  invalid_ttl : Str → Error
  conflicting_expiration : Error
  stream_expired : Error
  invalid_json : Str → Error
  empty_body : Error
  empty_array : Error
  -- header, reason
  invalid_header : Str → Str → Error
  invalid_stream_name : Str → Error
  -- last, received
  seq_ordering_violation : Str → Str → Error
  unavailable : StorageFailure → Error
  insufficient_storage : StorageFailure → Error
  stream_gone : Str → Error
  stream_path_blocked : Str → Error
  fork_offset_beyond_tail : Error
  fork_from_tombstone : Str → Error
  storage_error : Str → Error

-- error::Result
pub data Result {ℓ} (T : Type ℓ) : Type ℓ where
  err : Error → Result T
  ok : T → Result T

-- `result?` followed by the rest of a function. A failure leaves the function.
infixl 5 ◌>>=◌
abbrev pub ◌>>=◌ {ℓ κ} : {T : Type ℓ} {U : Type κ} → Result T → (T → Result U) → Result U
err reason >>= rest = err reason
ok value >>= rest = rest value

infixl 5 ◌>>◌
abbrev pub ◌>>◌ {κ} : {U : Type κ} → Result (Unit {0}) → Result U → Result U
err reason >> rest = err reason
ok passed >> rest = rest

-- What a successful chain passed through.
pub >>=-eq-ok {ℓ κ} :
    {T : Type ℓ} {U : Type κ} (result : Result T) (rest : T → Result U) {last : U}
    → (result >>= rest) ≡ ok last
    → (value : T) × (result ≡ ok value) × (rest value ≡ ok last)
>>=-eq-ok (err reason) rest h = cc
>>=-eq-ok (ok value) rest h = (value, refl, h)
