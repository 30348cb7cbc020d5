-- ===== src/Storage/Types.antt =====
-- storage/mod.rs: the types that the storage backends share, and the resolution of options.
use durable_streams_rust.Prelude.{
  ℕ, ◌^◌, Bool, true, false, not, ◌&&◌, ◌||◌, Option, none, some, List, [], ◌∷◌, Str, text, str_eq,
  length, ltb, ◌==◌, if◌then◌else◌,
}
use durable_streams_rust.Protocol.Error.{Result, ok, err, invalid_header, invalid_ttl, ◌>>=◌}
use durable_streams_rust.Protocol.Offset
use durable_streams_rust.Protocol.Offset.{Offset}
use durable_streams_rust.Protocol.Headers.{normalize_content_type}
use durable_streams_rust.Storage.Platform.{Platform}

pub record StreamConfig : Type 0 where
  pub content_type : Str
  pub ttl_seconds : Option ℕ
  pub expires_at : Option ℕ
  pub created_closed : Bool

unfoldable pub bool_eq : Bool → Bool → Bool
bool_eq true b = b
bool_eq false b = not b

unfoldable pub option_eq : Option ℕ → Option ℕ → Bool
option_eq none none = true
option_eq none (some b) = false
option_eq (some a) none = false
option_eq (some a) (some b) = a == b

abbrev pub is_some {ℓ} : {A : Type ℓ} → Option A → Bool
is_some none = false
is_some (some a) = true

-- PartialEq for StreamConfig
unfoldable pub config_eq : StreamConfig → StreamConfig → Bool
unfolding bool_eq option_eq
config_eq a b =
    str_eq a.content_type b.content_type
    && option_eq a.ttl_seconds b.ttl_seconds
    && bool_eq a.created_closed b.created_closed
    && (if is_some a.ttl_seconds then true else option_eq a.expires_at b.expires_at)

pub data Expiry : Type 0 where
  never : Expiry
  sliding : ℕ → Expiry
  at_deadline : ℕ → Expiry

pub record StreamOptions : Type 0 where
  pub content_type : Str
  pub expiry : Expiry
  pub created_closed : Bool

-- StreamOptions::new
new_options : Str → StreamOptions
new_options content_type = record {
  content_type = content_type;
  expiry = never;
  created_closed = false;
}

with_expiry : Expiry → StreamOptions → StreamOptions
with_expiry expiry o = record o { expiry = expiry }

with_closed : Bool → StreamOptions → StreamOptions
with_closed closed o = record o { created_closed = closed }

stored_expiry : Option ℕ → Option ℕ → Expiry
stored_expiry (some ttl) expires_at = sliding ttl
stored_expiry none none = never
stored_expiry none (some deadline) = at_deadline deadline

unfoldable creation_options : StreamConfig → StreamOptions
unfolding new_options with_expiry with_closed stored_expiry
creation_options c =
    with_closed c.created_closed
      (with_expiry (stored_expiry c.ttl_seconds c.expires_at) (new_options c.content_type))

unfoldable pub is_empty : Str → Bool
is_empty [] = true
is_empty (c ∷ s) = false

module _ {V : Type 0} (platform : Platform V) where
  or_invalid_ttl : Option ℕ → Result ℕ
  or_invalid_ttl none = err (invalid_ttl (text "TTL exceeds the supported timestamp range"))
  or_invalid_ttl (some deadline) = ok deadline

  -- `i64::try_from(seconds)` fails from 2^63 on.
  unfoldable pub ttl_deadline : ℕ → ℕ → Result ℕ
  unfolding or_invalid_ttl
  ttl_deadline seconds now =
      or_invalid_ttl (if ltb seconds (2 ^ 63) then platform.add_seconds now seconds else none)

  unfoldable pub resolve_expiry : Expiry → ℕ → Result (Option ℕ × Option ℕ)
  unfolding ttl_deadline
  resolve_expiry never now = ok (none, none)
  resolve_expiry (sliding seconds) now = do
    deadline ← ttl_deadline seconds now
    ok (some seconds, some deadline)
  resolve_expiry (at_deadline deadline) now = ok (none, some deadline)

  -- StreamOptions::resolve
  unfoldable pub resolve : StreamOptions → ℕ → Result StreamConfig
  unfolding resolve_expiry is_empty
  resolve o now =
      let content_type = normalize_content_type o.content_type in
      if is_empty content_type || not (platform.is_header_value content_type)
      then err
          (invalid_header (text "Content-Type") (text "expected a non-empty HTTP header value"))
      else do
        times ← resolve_expiry o.expiry now
        ok (record {
          content_type = content_type;
          ttl_seconds = times.0;
          expires_at = times.1;
          created_closed = o.created_closed;
        })

pub record ForkInfo : Type 0 where
  pub source_name : Str
  pub fork_offset : Offset
  pub sub_offset : ℕ

-- The derived PartialEq of ForkInfo.
unfoldable pub fork_info_eq : ForkInfo → ForkInfo → Bool
fork_info_eq a b =
    str_eq a.source_name b.source_name
    && Offset.eq a.fork_offset b.fork_offset
    && a.sub_offset == b.sub_offset

pub record ForkOptions : Type 0 where
  pub sub_offset : ℕ
  pub inherit_content_type : Bool
  pub initial_body : Str

pub data StreamState : Type 0 where
  active tombstone : StreamState

abbrev pub is_tombstone : StreamState → Bool
is_tombstone active = false
is_tombstone tombstone = true

pub record Message : Type 0 where
  pub offset : Offset
  pub payload : Str
  pub byte_len : ℕ

-- Message::new; a length always fits 64 bits.
unfoldable pub new_message : Offset → Str → Message
new_message offset payload = record {
  offset = offset;
  payload = payload;
  byte_len = length payload;
}

pub record ReadResult : Type 0 where
  pub messages : List Str
  pub next_offset : Offset
  pub at_tail : Bool
  pub closed : Bool

pub data CreateStreamResult : Type 0 where
  created already_exists : CreateStreamResult

pub record ForkCreateSpec : Type 0 where
  pub sub_offset : ℕ
  pub source_name : Str
  pub fork_offset : Offset
  pub config : StreamConfig

pub record CreateWithDataResult : Type 0 where
  pub status : CreateStreamResult
  pub next_offset : Offset
  pub closed : Bool

pub record AppendResult : Type 0 where
  pub start_offset : Offset
  pub next_offset : Offset
  pub closed : Bool

pub data ProducerAppendResult : Type 0 where
  -- epoch, seq, next_offset, closed
  accepted : ℕ → ℕ → Offset → Bool → ProducerAppendResult
  duplicate : ℕ → ℕ → Offset → Bool → ProducerAppendResult

-- streams.rs
pub record StreamMetadata : Type 0 where
  pub config : StreamConfig
  pub next_offset : Offset
  pub closed : Bool
  pub total_bytes : ℕ
  pub message_count : ℕ
  pub created_at : ℕ
  pub updated_at : Option ℕ
