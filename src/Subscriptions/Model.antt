-- ===== src/Subscriptions/Model.antt =====
-- subscriptions/model.rs: configurations, links, wakes, and their validation.
use durable_streams_rust.Prelude.{
  ℕ, Bool, true, false, not, ◌&&◌, ◌||◌, Option, none, some, List, [], ◌∷◌, Str, text, str_eq,
  str_cmp, Ordering, length, ltb, leb, if◌then◌else◌, ◌==◌,
}
use durable_streams_rust.Prelude.Dict.{Dict, lookup}
use durable_streams_rust.Prelude.Split.{split}
use durable_streams_rust.Protocol.StreamName.{is_reserved, invalid_segment, name_is_empty}
use durable_streams_rust.Storage.Types.{is_some}
use durable_streams_rust.Subscriptions.Api.{ApiResult, err, ok, bad, ◌>>◌}
use durable_streams_rust.Subscriptions.Glob.{glob_matches}

pub data DeliveryType : Type 0 where
  webhook_delivery pull_wake : DeliveryType

abbrev pub is_webhook : DeliveryType → Bool
is_webhook webhook_delivery = true
is_webhook pull_wake = false

pub record Webhook : Type 0 where
  pub url : Str

-- A `BTreeSet<String>` is the list of its members in order.
pub record Configuration : Type 0 where
  pub kind : DeliveryType
  pub pattern : Option Str
  pub streams : List Str
  pub webhook : Option Webhook
  pub wake_stream : Option Str
  pub lease_ttl_ms : ℕ
  pub description : Option Str

-- `any`, `all` and `contains`.
abbrev pub any {ℓ} : {A : Type ℓ} → (A → Bool) → List A → Bool
any p [] = false
any p (x ∷ xs) = p x || any p xs

abbrev pub contains : List Str → Str → Bool
contains xs s = any (λ x. str_eq x s) xs

-- Configuration::matches
unfoldable pub config_matches : Configuration → Str → Bool
config_matches c path = elim c.pattern [ none ↦ false | some p ↦ glob_matches p path ]

-- `char::is_control` over UTF-8: the two ranges of ASCII, and U+0080 to U+009F in two bytes.
unfoldable pub has_control : Str → Bool
has_control [] = false
has_control (c ∷ []) = ltb c 32 || c == 127
has_control (c ∷ d ∷ s) =
    ltb c 32 || c == 127 || (c == 194 && leb 128 d && leb d 159) || has_control (d ∷ s)

unfoldable pub validate_path : Str → ApiResult (Unit {0})
validate_path path =
    if name_is_empty path
      || ltb 1024 (length path)
      || ltb 64 (length (split b'/' path))
      || is_some (invalid_segment path)
      || is_reserved path
      || has_control path
    then err (bad (text "INVALID_PATH") (text "expected an application stream-root-relative path"))
    else ok tt

unfoldable pub has_byte : ℕ → Str → Bool
has_byte b s = any (λ c. c == b) s

-- A segment with a star among other characters.
unfoldable pub is_partial_wildcard : Str → Bool
unfolding has_byte
is_partial_wildcard s = has_byte b'*' s && not (str_eq s (text "*")) && not (str_eq s (text "**"))

unfoldable pub validate_pattern : Option Str → ApiResult (Unit {0})
validate_pattern none = ok tt
validate_pattern (some pattern) = do
  validate_path pattern
  (if any is_partial_wildcard (split b'/' pattern)
      then err (bad (text "INVALID_CONFIG") (text "wildcards must occupy a complete path segment"))
      else ok tt)

unfoldable pub validate_paths : List Str → ApiResult (Unit {0})
validate_paths [] = ok tt
validate_paths (path ∷ paths) = do validate_path path; validate_paths paths

-- `match self.kind`
unfoldable pub validate_kind : Configuration → ApiResult (Unit {0})
validate_kind c = elim c.kind [
  | webhook_delivery ↦
      if not (is_some c.webhook) || is_some c.wake_stream
      then err (bad (text "INVALID_CONFIG") (text "webhook delivery requires only webhook.url"))
      else ok tt
  | pull_wake ↦
      if not (is_some c.wake_stream) || is_some c.webhook
      then err (bad (text "INVALID_CONFIG") (text "pull-wake delivery requires only wake_stream"))
      else ok tt
]

unfoldable pub validate_wake_stream : Configuration → Option Str → ApiResult (Unit {0})
validate_wake_stream c none = ok tt
validate_wake_stream c (some path) = do
  validate_path path
  (if config_matches c path || contains c.streams path
      then err
          (bad (text "INVALID_CONFIG") (text "a subscription cannot consume its own wake stream"))
      else ok tt)

no_streams : List Str → Bool
no_streams [] = true
no_streams (s ∷ ss) = false

-- Configuration::validate
unfoldable pub validate : Configuration → ApiResult (Unit {0})
unfolding no_streams
validate c =
    if not (is_some c.pattern) && no_streams c.streams
    then err (bad (text "INVALID_CONFIG") (text "pattern or streams is required"))
    else if not (leb 1000 c.lease_ttl_ms && leb c.lease_ttl_ms 600000)
    then err (bad (text "INVALID_CONFIG") (text "lease_ttl_ms must be between 1000 and 600000"))
    else do
      validate_pattern c.pattern
      validate_paths c.streams
      validate_kind c
      validate_wake_stream c c.wake_stream

pub record Link : Type 0 where
  pub explicit : Bool
  pub acked_offset : Str

pub record Snapshot : Type 0 where
  pub path : Str
  pub link_type : Str
  pub acked_offset : Str
  pub tail_offset : Str
  pub has_pending : Bool

-- Times are milliseconds since 1970; `i64` holds them with room for the additions below.
pub record Wake : Type 0 where
  pub id : Str
  pub generation : ℕ
  pub streams : List Snapshot
  pub token : Option Str
  pub holder : Option Str
  pub lease_until : Option ℕ
  pub delivered : Bool

pub record Subscription : Type 0 where
  pub config : Configuration
  pub config_hash : Str
  pub links : Dict Link
  pub created_at : Str
  pub origin : Str
  pub generation : ℕ
  pub wake : Option Wake
  pub deleted : Bool
  pub next_attempt_at : ℕ
  pub attempts : ℕ
  pub failed : Bool

pub record Database : Type 0 where
  pub version : ℕ
  pub signing_key : Str
  pub subscriptions : Dict Subscription

-- `a > b` and `max` of two offsets' texts.
abbrev pub str_gt : Str → Str → Bool
str_gt a b = elim (str_cmp a b) [ Ordering.gt ↦ true | _ ↦ false ]

abbrev pub str_max : Str → Str → Str
str_max a b = if str_gt a b then a else b

abbrev pub or_else {ℓ} : {A : Type ℓ} → A → Option A → A
or_else d none = d
or_else d (some a) = a

unfoldable pub snapshot : Dict Str → Str → Link → Snapshot
snapshot tails path link =
    let tail = or_else link.acked_offset (lookup path tails) in
    record {
      path = path;
      link_type = if link.explicit then text "explicit" else text "glob";
      acked_offset = link.acked_offset;
      tail_offset = tail;
      has_pending = str_gt tail link.acked_offset;
    }

-- Subscription::snapshots
unfoldable pub snapshots_of : Dict Str → Dict Link → List Snapshot
snapshots_of tails [] = []
snapshots_of tails ((path, link) ∷ links) = snapshot tails path link ∷ snapshots_of tails links

unfoldable pub snapshots : Subscription → Dict Str → List Snapshot
snapshots sub tails = snapshots_of tails sub.links

unfoldable pub pending : Subscription → Dict Str → Bool
pending sub tails = any (λ (s : Snapshot). s.has_pending) (snapshots sub tails)
