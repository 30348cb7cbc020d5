-- ===== src/Storage/Fork.antt =====
-- storage/fork.rs: creation over an existing path, deletion, and reads along a chain of forks.
pub mod Ranges
use durable_streams_rust.Prelude.{
  ℕ, zero, suc, ◌-◌, Bool, false, not, ◌&&◌, Option, none, some, List, [], ◌∷◌, ◌++◌, Str, text,
  length, take, drop, max, ltb, ◌==◌, if◌then◌else◌, Ordering,
}
use durable_streams_rust.Protocol.Error.{
  Error, Result, ok, err, config_mismatch, stream_path_blocked, stream_gone,
  fork_offset_beyond_tail, invalid_header, replacement_has_forks, ◌>>=◌, ◌>>◌,
}
use durable_streams_rust.Protocol.Offset.{Offset, is_start, cmp, offset_lt, offset_min}
use durable_streams_rust.Protocol.Json.{is_json_content_type, extract_messages}
use durable_streams_rust.Storage.Platform.{Platform}
use durable_streams_rust.Storage.Types.{
  StreamConfig, StreamState, is_tombstone, ForkInfo, ForkCreateSpec, ForkOptions, Message,
  config_eq, fork_info_eq, ttl_deadline,
}
use durable_streams_rust.Storage.Access.{
  is_stream_expired, check_fork_source_access, validate_content_type,
}

module _ {V : Type 0} (platform : Platform V) where
  -- Only one of the two calls of `Utc::now()` is made.
  resolve_source_ttl : StreamConfig → Option ℕ → ℕ → Result (Option ℕ × Option ℕ)
  resolve_source_ttl source none now = ok (none, source.expires_at)
  resolve_source_ttl source (some ttl) now = do
    deadline ← ttl_deadline platform ttl now
    ok (some ttl, some deadline)

  unfoldable resolve_fork_ttl :
      StreamConfig → Option ℕ → Option ℕ → ℕ → Result (Option ℕ × Option ℕ)
  unfolding resolve_source_ttl
  resolve_fork_ttl source (some ttl) fork_expires_at now = do
    deadline ← ttl_deadline platform ttl now
    ok (some ttl, some deadline)
  resolve_fork_ttl source none (some deadline) now = ok (none, some deadline)
  resolve_fork_ttl source none none now = resolve_source_ttl source source.ttl_seconds now

  unfoldable build_fork_config : StreamConfig → StreamConfig → ℕ → Result StreamConfig
  unfolding resolve_fork_ttl
  build_fork_config source requested now = do
    times ← resolve_fork_ttl source requested.ttl_seconds requested.expires_at now
    ok (record {
      content_type = source.content_type;
      ttl_seconds = times.0;
      expires_at = times.1;
      created_closed = requested.created_closed;
    })

  unfoldable build_fork_create_spec :
      Str → StreamConfig → StreamConfig → Offset → ℕ → Result ForkCreateSpec
  unfolding build_fork_config
  build_fork_create_spec source_name source requested fork_offset now = do
    config ← build_fork_config source requested now
    ok (record {
      sub_offset = 0;
      source_name = source_name;
      fork_offset = fork_offset;
      config = config;
    })

unfoldable resolve_fork_offset : Option Offset → Offset → Result Offset
resolve_fork_offset none source_next_offset = ok source_next_offset
resolve_fork_offset (some offset) source_next_offset = elim (cmp offset source_next_offset) [
  | Ordering.gt ↦ err fork_offset_beyond_tail
  | _ ↦ ok offset
]

pub data ExistingCreateDisposition : Type 0 where
  remove_expired already_exists : ExistingCreateDisposition
  conflict : Error → ExistingCreateDisposition

unfoldable pub existing_path_disposition :
    Str → StreamConfig → StreamState → ℕ → ℕ → Option ExistingCreateDisposition
existing_path_disposition name config state ref_count now =
    if is_stream_expired config now
    then (if ltb 0 ref_count
        then some (conflict (stream_path_blocked name))
        else some remove_expired)
    else if is_tombstone state
    then some (conflict (stream_path_blocked name))
    else none

unfoldable pub or_identity : Option ExistingCreateDisposition → Bool → ExistingCreateDisposition
or_identity (some disposition) same = disposition
or_identity none same = if same then already_exists else conflict config_mismatch

unfoldable pub evaluate_root_create :
    Str → StreamConfig → StreamState → ℕ → StreamConfig → ℕ → ExistingCreateDisposition
unfolding existing_path_disposition or_identity
evaluate_root_create name existing state ref_count requested now =
    or_identity (existing_path_disposition name existing state ref_count now)
      (config_eq existing requested)

same_lineage : Option ForkInfo → ForkInfo → Bool
same_lineage none expected = false
same_lineage (some info) expected = fork_info_eq info expected

unfoldable pub evaluate_fork_create :
    Str
    → StreamConfig
    → Option ForkInfo
    → StreamState
    → ℕ
    → ForkCreateSpec
    → ℕ
    → ExistingCreateDisposition
unfolding existing_path_disposition or_identity same_lineage
evaluate_fork_create name existing fork_info state ref_count spec now =
    or_identity (existing_path_disposition name existing state ref_count now) (
      config_eq existing spec.config
      && same_lineage fork_info (record {
        source_name = spec.source_name;
        fork_offset = spec.fork_offset;
        sub_offset = spec.sub_offset;
      }))

module _ {V : Type 0} (platform : Platform V) where
  -- `now₀` is the instant of the access check, `now₁` that of the deadline.
  unfoldable pub prepare_fork_spec :
      Str
      → StreamConfig
      → StreamState
      → Offset
      → Option Offset
      → StreamConfig
      → ℕ
      → ℕ
      → Result (ForkCreateSpec × Offset)
  unfolding resolve_fork_offset build_fork_create_spec
  prepare_fork_spec source_name source source_state source_next_offset requested_offset requested
        now₀ now₁ =
      do
        check_fork_source_access source source_state source_name now₀
        resolved ← resolve_fork_offset requested_offset source_next_offset
        validate_content_type source.content_type requested.content_type
        spec ← build_fork_create_spec platform source_name source requested resolved now₁
        ok (spec, resolved)

pub data DeleteDisposition : Type 0 where
  to_tombstone hard_delete : DeleteDisposition

unfoldable pub evaluate_delete : Str → StreamState → ℕ → Result DeleteDisposition
evaluate_delete name state ref_count =
    if is_tombstone state
    then err (stream_gone name)
    else if ltb 0 ref_count
    then ok to_tombstone
    else ok hard_delete

unfoldable pub evaluate_expired_cleanup : ℕ → DeleteDisposition
evaluate_expired_cleanup ref_count = if ltb 0 ref_count then to_tombstone else hard_delete

pub record ReadSegment : Type 0 where
  pub name : Str
  pub read_up_to : Option Offset

-- The loop of `build_read_plan`, on fuel: `none` means that the fuel ran out. The chain is built
-- from its end, which is the order that `chain.reverse()` leaves: the root first.
unfoldable pub build_chain :
    ℕ
    → (Str → Result (Option ForkInfo))
    → Str
    → List (Str × Option Offset)
    → Option (Result (List (Str × Option Offset)))
build_chain zero lookup current chain = none
build_chain (suc fuel) lookup current chain = elim (lookup current) [
  | err e ↦ some (err e)
  | ok none ↦ some (ok ((current, none) ∷ chain))
  | ok (some info) ↦
      build_chain fuel lookup info.source_name ((current, some info.fork_offset) ∷ chain)
]

-- Each segment is read up to the offset at which the next one forks.
segments_of : List (Str × Option Offset) → List ReadSegment
segments_of [] = []
segments_of ((name, _) ∷ []) = record { name = name; read_up_to = none } ∷ []
segments_of ((name, _) ∷ (next, offset) ∷ rest) =
    record { name = name; read_up_to = offset } ∷ segments_of ((next, offset) ∷ rest)

tighten : Option Offset → Option Offset → Option Offset
tighten none bound = bound
tighten (some local) none = some local
tighten (some local) (some b) = some (offset_min b local)

-- The reverse pass: from the leaf on, no segment is read past a descendant's bound.
bound_pass : List ReadSegment → List ReadSegment × Option Offset
unfolding tighten
bound_pass [] = ([], none)
bound_pass (segment ∷ rest) =
    let (bounded, bound) = bound_pass rest in
    let bound' = tighten segment.read_up_to bound in
    (record segment { read_up_to = bound' } ∷ bounded, bound')

unfoldable pub plan_of : List (Str × Option Offset) → List ReadSegment
unfolding segments_of bound_pass
plan_of chain = (bound_pass (segments_of chain)).0

unfoldable pub build_read_plan :
    ℕ → (Str → Result (Option ForkInfo)) → Str → Option (Result (List ReadSegment))
build_read_plan fuel lookup name = elim (build_chain fuel lookup name []) [
  | none ↦ none
  | some (err e) ↦ some (err e)
  | some (ok chain) ↦ some (ok (plan_of chain))
]

-- `partition_point` of an ordered slice: how many messages lie before the bound.
unfoldable pub partition_point : Offset → List Message → ℕ
partition_point bound [] = 0
partition_point bound (m ∷ ms) =
    let rest = suc (partition_point bound ms) in if offset_lt m.offset bound then rest else 0

-- Start and end of the range.
unfoldable pub message_range : List Message → Offset → Option Offset → ℕ × ℕ
message_range messages from up_to =
    let first = if is_start from then 0 else partition_point from messages in
    let last : ℕ = elim up_to [
      | none ↦ length messages
      | some bound ↦ partition_point bound messages
    ] in
    (first, max last first)

-- `messages[range]`.
unfoldable pub slice {ℓ} : {A : Type ℓ} → ℕ × ℕ → List A → List A
slice (first, last) xs = take (last - first) (drop first xs)

invalid_sub_offset {ℓ} : {A : Type ℓ} → Result A
invalid_sub_offset = err (
    invalid_header (text "Stream-Fork-Sub-Offset")
      (text "sub-offset exceeds the available data after the anchor"))

prefix_of_first : ℕ → List Str → Result (List Str)
unfolding invalid_sub_offset
prefix_of_first count [] = invalid_sub_offset
prefix_of_first count (first ∷ rest) =
    if ltb (length first) count then invalid_sub_offset else ok (take count first ∷ [])

-- The partial prefix that a fork inherits.
unfoldable pub inherited_prefix : Bool → ℕ → List Str → Result (List Str)
unfolding prefix_of_first invalid_sub_offset
inherited_prefix json count source_messages =
    if not (ltb 0 count)
    then ok []
    else if json
    then (if ltb (length source_messages) count
        then invalid_sub_offset
        else ok (take count source_messages))
    else prefix_of_first count source_messages

unfoldable pub check_replace : ℕ → Option ForkInfo → Result (Unit {0})
check_replace ref_count (some info) = err replacement_has_forks
check_replace ref_count none = if not (ref_count == 0) then err replacement_has_forks else ok tt

module _ {V : Type 0} (platform : Platform V) where
  unfoldable pub initial_fork_messages : StreamConfig → ForkOptions → List Str → Result (List Str)
  initial_fork_messages config options source_messages = do
    inherited ←
        inherited_prefix (is_json_content_type config.content_type) options.sub_offset
          source_messages
    body ← extract_messages platform options.initial_body config.content_type
    ok (inherited ++ body)
