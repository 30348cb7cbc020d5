-- ===== src/Storage/Access.antt =====
-- storage/shared.rs and storage/fork.rs: who may see a stream, and the renewal of its deadline.
-- `now` is the instant that the call of `Utc::now()` in the body returns.
use durable_streams_rust.Prelude.{
  ℕ, Bool, true, false, not, ◌&&◌, none, some, Str, leb, if◌then◌else◌, eq_ignore_ascii_case,
}
use durable_streams_rust.Protocol.Error.{
  Result, ok, err, stream_gone, stream_expired, fork_from_tombstone, content_type_mismatch, ◌>>=◌,
}
use durable_streams_rust.Storage.Platform.{Platform}
use durable_streams_rust.Storage.Types.{StreamConfig, StreamState, is_tombstone, ttl_deadline}

unfoldable pub is_stream_expired : StreamConfig → ℕ → Bool
is_stream_expired c now = elim c.expires_at [ none ↦ false | some deadline ↦ leb deadline now ]

unfoldable pub is_stream_visible : StreamConfig → StreamState → ℕ → Bool
is_stream_visible c state now = not (is_stream_expired c now) && not (is_tombstone state)

unfoldable pub validate_content_type : Str → Str → Result (Unit {0})
validate_content_type stream_ct request_ct =
    if not (eq_ignore_ascii_case request_ct stream_ct)
    then err (content_type_mismatch stream_ct request_ct)
    else ok tt

unfoldable pub check_stream_access : StreamConfig → StreamState → Str → ℕ → Result (Unit {0})
check_stream_access c state name now =
    if is_tombstone state
    then err (stream_gone name)
    else if is_stream_expired c now
    then err stream_expired
    else ok tt

unfoldable pub check_fork_source_access : StreamConfig → StreamState → Str → ℕ → Result (Unit {0})
check_fork_source_access c state name now =
    if is_tombstone state
    then err (fork_from_tombstone name)
    else if is_stream_expired c now
    then err stream_expired
    else ok tt

module _ {V : Type 0} (platform : Platform V) where
  -- The new configuration, and whether it changed.
  unfoldable pub renew_ttl : StreamConfig → ℕ → Result (StreamConfig × Bool)
  renew_ttl c now = elim c.ttl_seconds [
    | none ↦ ok (c, false)
    | some ttl ↦ (do
      deadline ← ttl_deadline platform ttl now
      ok (record c { expires_at = some deadline }, true))
  ]
