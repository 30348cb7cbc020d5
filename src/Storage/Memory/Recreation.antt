-- ===== src/Storage/Memory/Recreation.antt =====
-- storage/memory.rs: creating a stream again with the options that it was created with.
use durable_streams_rust.Prelude.{
  ℕ, ◌≡◌, refl, sym, ap, ◌∙◌, subst, inl, inr, Bool, true, false, ◌||◌, if◌then◌else◌, Option, none,
  some, List, Str, str_eq_refl, ◌==◌, ==_iff, arith,
}
use durable_streams_rust.Protocol.Error.{ok, >>=-eq-ok}
use durable_streams_rust.Protocol.Headers.{normalize_content_type}
use durable_streams_rust.Storage.Platform.{Platform}
use durable_streams_rust.Storage.Types
use durable_streams_rust.Storage.Types.{
  StreamConfig, config_eq, bool_eq, option_eq, Expiry, never, sliding, at_deadline, StreamOptions,
  resolve_expiry, ttl_deadline, resolve, StreamState, active, created, CreateWithDataResult,
}
use durable_streams_rust.Storage.Access.{is_stream_expired}
use durable_streams_rust.Storage.Fork.{evaluate_root_create, existing_path_disposition, or_identity}
use durable_streams_rust.Storage.Memory.Entry.{
  StreamEntry, InMemoryStorage, get_stream, tail_offset,
}
use durable_streams_rust.Storage.Memory.Create.{
  create_as, create_over, create_resolved, create_stream_with_data,
}
use durable_streams_rust.Storage.Memory.Creation.{
  resolve-inverts, created≢already_exists, create_resolved-inverts,
}
use durable_streams_rust.Storage.Memory.Delivery.{}

-- Times that `PartialEq` for configurations takes for equal.
abbrev SameTimes : Option ℕ × Option ℕ → Option ℕ × Option ℕ → Type 0
SameTimes t u =
    (option_eq t.0 u.0 ≡ true) × ((if Types.is_some t.0 then true else option_eq t.1 u.1) ≡ true)

eq_refl : (n : ℕ) → (n == n) ≡ true
eq_refl n = (==_iff n n).1 refl

bool_eq_refl : (b : Bool) → bool_eq b b ≡ true
unfolding bool_eq
bool_eq_refl true = refl
bool_eq_refl false = refl

module _ {V : Type 0} (platform : Platform V) where
  resolve_expiry_same :
      (e : Expiry) (now now' : ℕ) (t u : Option ℕ × Option ℕ)
      → resolve_expiry platform e now ≡ ok t
      → resolve_expiry platform e now' ≡ ok u
      → SameTimes t u
  unfolding resolve_expiry option_eq
  resolve_expiry_same never now now' t u h h' =
      let a : (none, none) ≡ t = ground arith in
      let b : (none, none) ≡ u = ground arith in rw (← a, ← b) (refl, refl)
  resolve_expiry_same (sliding ttl) now now' t u h h' =
      let (d, e, last) = >>=-eq-ok (ttl_deadline platform ttl now) _ h in
      let (d', e', last') = >>=-eq-ok (ttl_deadline platform ttl now') _ h' in
      let a : (some ttl, some d) ≡ t = ground arith in
      let b : (some ttl, some d') ≡ u = ground arith in rw (← a, ← b) (eq_refl ttl, refl)
  resolve_expiry_same (at_deadline d) now now' t u h h' =
      let a : (none, some d) ≡ t = ground arith in
      let b : (none, some d) ≡ u = ground arith in rw (← a, ← b) (refl, eq_refl d)

  -- The same options give equal configurations, whenever they are resolved.
  resolve-config_eq :
      (o : StreamOptions) (now now' : ℕ) (c c' : StreamConfig)
      → resolve platform o now ≡ ok c
      → resolve platform o now' ≡ ok c'
      → config_eq c c' ≡ true
  unfolding config_eq
  resolve-config_eq o now now' c c' h h' =
      let (t, e, same) = resolve-inverts platform o now c h in
      let (t', e', same') = resolve-inverts platform o now' c' h' in
      let (ttls, deadlines) = resolve_expiry_same o.expiry now now' t t' e e' in
      rw
        (
          same,
          same',
          str_eq_refl (normalize_content_type o.content_type),
          ttls,
          bool_eq_refl o.created_closed,
        )
        deadlines

module _ (st : InMemoryStorage) (name : Str) (config : StreamConfig) (ms : List Str) (close : Bool)
    (clock : ℕ → ℕ) where
  -- A stored stream with an equal configuration stands, while it is neither expired nor deleted.
  create_over-stands :
      (s : StreamEntry)
      → is_stream_expired s.config (clock 1) ≡ false
      → s.state ≡ active
      → config_eq s.config config ≡ true
      → create_over st name (some s) config ms close clock ≡ (
        ok (record {
          status = Types.already_exists;
          next_offset = tail_offset s;
          closed = s.closed;
        }),
        st,
      )
  unfolding create_over evaluate_root_create existing_path_disposition or_identity create_as
  create_over-stands s fresh live same = rw (fresh, live, same) refl

-- Creating a stream again, with the options with which it was created and any data, while it has not
-- expired, reports that it exists, with the tail and the closed flag of the creation, and changes
-- nothing. The options resolve at the time of the second call.
pub create-create :
    {V : Type 0} (platform : Platform V) (st : InMemoryStorage) (name : Str) (o : StreamOptions)
    (ms ms' : List Str) (close close' : Bool) (clock clock' : ℕ → ℕ) (r : CreateWithDataResult)
    (st' : InMemoryStorage) (s : StreamEntry) (config : StreamConfig)
    → create_stream_with_data platform st name o ms close clock ≡ (ok r, st')
    → r.status ≡ created
    → get_stream st' name ≡ some s
    → resolve platform o (clock' 0) ≡ ok config
    → is_stream_expired s.config (clock' 1) ≡ false
    → create_stream_with_data platform st' name o ms' close' clock' ≡ (
      ok (record { status = Types.already_exists; next_offset = r.next_offset; closed = r.closed }),
      st',
    )
unfolding create_stream_with_data create_resolved
create-create platform st name o ms ms' close close' clock clock' r st' s config h status found
      resolved fresh =
    let (first, first_resolved, outcome) =
      create_resolved-inverts platform st name ms close clock (resolve platform o (clock 0)) h in
    elim outcome [
      | inl exists ↦ absurd (created≢already_exists (sym status ∙ exists))
      | inr (s₀, at, configs, live, ends, closes, _, _) ↦
          let same : s₀ ≡ s = cc in
          let equal : config_eq s.config config ≡ true =
            subst (λ (t : StreamConfig). config_eq t config ≡ true)
              (sym configs ∙ ap (λ (t : StreamEntry). t.config) same)
              (resolve-config_eq platform o (clock 0) (clock' 0) first config first_resolved
                resolved) in
          let active_now : s.state ≡ active =
            subst (λ (t : StreamEntry). t.state ≡ active) same live in
          rw (resolved, found, ends, closes, same)
            (create_over-stands st' name config ms' (close' || config.created_closed) clock' s fresh
              active_now equal)
    ]
