-- ===== src/Storage/Platform.antt =====
-- What the storage code calls and does not implement: chrono's calendar, serde_json, and the http
-- crate's check of a header value. Every definition that uses one of them takes this record.
-- An instant is a natural number, counted in nanoseconds from chrono's first instant; the code only
-- compares instants and moves them by seconds.
use durable_streams_rust.Prelude.{ℕ, Bool, Option, List, Str, ◌⊎◌}

pub record Platform (V : Type 0) : Type 0 where
  -- Duration::try_seconds, then DateTime::checked_add_signed
  pub add_seconds : ℕ → ℕ → Option ℕ
  -- DateTime - TimeDelta
  pub minus_seconds : ℕ → ℕ → ℕ
  -- serde_json::from_slice, with the text of its error
  pub from_slice : Str → Str ⊎ V
  -- the elements of a Value::Array
  pub as_array : V → Option (List V)
  -- serde_json::to_vec
  pub to_vec : V → Str
  -- HeaderValue::from_str is Ok
  pub is_header_value : Str → Bool
