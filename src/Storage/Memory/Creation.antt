-- ===== src/Storage/Memory/Creation.antt =====
-- storage/memory.rs: what a creation stores.
use durable_streams_rust.Prelude.{
  ◌<◌, length, u64_mod, ℕ, ◌≡◌, ◌≢◌, refl, sym, ap, ◌∙◌, subst, ◌⊎◌, inl, inr, Bool, Bool-cases,
  true, false, ◌||◌, not, Option, none, some, List, [], ◌∷◌, Str, arith,
}
use durable_streams_rust.Protocol.Error.{Result, ok, err, >>=-eq-ok}
use durable_streams_rust.Protocol.Headers.{normalize_content_type}
use durable_streams_rust.Storage.Platform.{Platform}
use durable_streams_rust.Storage.Types
use durable_streams_rust.Storage.Types.{
  StreamConfig, config_eq, bool_eq, option_eq, Expiry, never, sliding, at_deadline, StreamOptions,
  resolve_expiry, ttl_deadline, resolve, StreamState, active, created, CreateWithDataResult,
}
use durable_streams_rust.Storage.Fork.{evaluate_root_create, existing_path_disposition, or_identity}
use durable_streams_rust.Storage.Fork
use durable_streams_rust.Storage.Memory.Entry.{
  StreamEntry, InMemoryStorage, get_stream, new_entry, tail_offset, push_message, push_messages,
}
use durable_streams_rust.Storage.Memory.Create.{
  publish, create_fresh, create_as, create_over, create_resolved, create_stream_with_data,
}
use durable_streams_rust.Storage.Memory.Delete.{remove_for_recreate}
use durable_streams_rust.Storage.Memory.Retry.{lookup-insert_self}
use durable_streams_rust.Storage.Memory.Commit.{bytes_of}
use durable_streams_rust.Storage.Memory.Layout.{IsLaidOut}
use durable_streams_rust.Storage.Memory.Delivery.{
  push_messages-IsLaidOut, closed-push_messages, Pushed, commit_messages-Pushed,
}

module _ {V : Type 0} (platform : Platform V) where
  pub resolve-inverts :
      (o : StreamOptions) (now : ℕ) (c : StreamConfig)
      → resolve platform o now ≡ ok c
      → (t : Option ℕ × Option ℕ) × (resolve_expiry platform o.expiry now ≡ ok t)
        × (c ≡ record {
          content_type = normalize_content_type o.content_type;
          ttl_seconds = t.0;
          expires_at = t.1;
          created_closed = o.created_closed;
        })
  unfolding resolve
  resolve-inverts o now c h =
      elim (Bool-cases (
        Types.is_empty (normalize_content_type o.content_type)
        || not (platform.is_header_value (normalize_content_type o.content_type)))) [
          | inl bad ↦ absurd (ground arith)
          | inr good ↦
              let (t, e, same) =
                >>=-eq-ok (resolve_expiry platform o.expiry now) _ (rw good at h) in
              (t, e, ground arith)
        ]

same_config-push_messages :
    (s : StreamEntry) (ms : List Str)
    → ((push_messages s ms).config ≡ s.config) × ((push_messages s ms).state ≡ s.state)
unfolding push_messages push_message
same_config-push_messages s [] = (refl, refl)
same_config-push_messages s (m ∷ ms) = same_config-push_messages (push_message s m) ms

-- A creation that made a stream stores it with the resolved configuration and the initial data, and
-- describes it.
abbrev pub Created :
    Str → StreamConfig → List Str → Bool → Result CreateWithDataResult × InMemoryStorage → Type 0
Created name config ms closed (err e, st) = Unit
Created name config ms closed (ok r, st) =
    (r.status ≡ Types.already_exists)
    ⊎ ((s : StreamEntry) × (get_stream st name ≡ some s)
        × (s.config ≡ config)
        × (s.state ≡ active)
        × (r.next_offset ≡ tail_offset s)
        × (r.closed ≡ s.closed)
        × (s.closed ≡ closed)
        × (length ms < u64_mod → bytes_of ms < u64_mod → IsLaidOut 0 0 s ms))

pub created≢already_exists : created ≢ Types.already_exists
created≢already_exists h = cc

module _ (name : Str) (config : StreamConfig) (ms : List Str) (now : ℕ) where
  filled :
      (s : StreamEntry)
      → s ≡ record (push_messages (new_entry config now) ms) { notify = s.notify }
      → length ms < u64_mod
      → bytes_of ms < u64_mod
      → IsLaidOut 0 0 s ms
  unfolding new_entry
  filled s pushed few small =
      let empty : IsLaidOut 0 0 (new_entry config now) [] = record {
        laid_out = refl;
        seq_end = refl;
        byte_end = refl;
      } in
      let whole : IsLaidOut 0 0 (push_messages (new_entry config now) ms) ms =
        push_messages-IsLaidOut 0 0 (new_entry config now) [] ms empty (omega arith)
          (omega arith) in
      record {
        laid_out = ap (λ (t : StreamEntry). t.messages) pushed ∙ whole.laid_out;
        seq_end = ap (λ (t : StreamEntry). t.next_read_seq) pushed ∙ whole.seq_end;
        byte_end = ap (λ (t : StreamEntry). t.next_byte_offset) pushed ∙ whole.byte_end;
      }

  publish-Created :
      (close : Bool) (r : Result StreamEntry × InMemoryStorage)
      → Pushed (new_entry config now) ms r
      → Created name config ms close (publish name close r)
  unfolding publish get_stream
  publish-Created close (err e, st) pushed = tt
  publish-Created close (ok s, st) pushed =
      let (same, state) = same_config-push_messages (new_entry config now) ms in
      let configs : s.config ≡ config =
        ap (λ (t : StreamEntry). t.config) pushed ∙ same ∙ (unfold new_entry in refl) in
      let states : s.state ≡ active =
        ap (λ (t : StreamEntry). t.state) pushed ∙ state ∙ (unfold new_entry in refl) in
      let opened : s.closed ≡ false =
        ap (λ (t : StreamEntry). t.closed) pushed
        ∙ closed-push_messages (new_entry config now) ms
        ∙ (unfold new_entry in refl) in
      go close configs states opened (filled s pushed)
    where
      go :
          (close : Bool)
          → s.config ≡ config
          → s.state ≡ active
          → s.closed ≡ false
          → (length ms < u64_mod → bytes_of ms < u64_mod → IsLaidOut 0 0 s ms)
          → Created name config ms close (publish name close (ok s, st))
      go true configs states opened laid = inr (
        _,
        lookup-insert_self name _ st.streams,
        configs,
        states,
        refl,
        refl,
        refl,
        λ few small.
            let whole = laid few small in
            record {
              laid_out = whole.laid_out;
              seq_end = whole.seq_end;
              byte_end = whole.byte_end;
            },
      )
      go false configs states opened laid =
          inr (_, lookup-insert_self name _ st.streams, configs, states, refl, refl, opened, laid)

  create_fresh-Created :
      (st : InMemoryStorage) (close : Bool)
      → Created name config ms close (create_fresh st name config ms close now)
  unfolding create_fresh
  create_fresh-Created st close =
      publish-Created close _ (commit_messages-Pushed st (new_entry config now) ms)

module _ (st : InMemoryStorage) (name : Str) (config : StreamConfig) (ms : List Str) (close : Bool)
    (clock : ℕ → ℕ) where
  create_as-Created :
      (s : StreamEntry) (d : Fork.ExistingCreateDisposition)
      → Created name config ms close (create_as st name s config ms close clock d)
  unfolding create_as
  create_as-Created s Fork.remove_expired =
      create_fresh-Created name config ms (clock 2) (remove_for_recreate st name) close
  create_as-Created s Fork.already_exists = inl refl
  create_as-Created s (Fork.conflict e) = tt

  create_over-Created :
      (o : Option StreamEntry)
      → Created name config ms close (create_over st name o config ms close clock)
  unfolding create_over
  create_over-Created none = create_fresh-Created name config ms (clock 2) st close
  create_over-Created (some s) = create_as-Created s _

pub create_resolved-inverts :
    {V : Type 0} (platform : Platform V) (st : InMemoryStorage) (name : Str) (ms : List Str)
    (close : Bool) (clock : ℕ → ℕ) (resolved : Result StreamConfig) {r : CreateWithDataResult}
    {st' : InMemoryStorage}
    → create_resolved platform st name ms close clock resolved ≡ (ok r, st')
    → (config : StreamConfig) × (resolved ≡ ok config)
      × Created name config ms (close || config.created_closed) (ok r, st')
unfolding create_resolved
create_resolved-inverts platform st name ms close clock (err e) h = absurd (ground arith)
create_resolved-inverts platform st name ms close clock (ok config) h = (
  config,
  refl,
  subst (Created name config ms (close || config.created_closed)) h (
      create_over-Created st name config ms (close || config.created_closed) clock
        (get_stream st name)),
)

-- A stream that a creation made holds exactly the initial data, in order, from the first offset on, is
-- closed exactly if the call or the options ask for it, and the result names its tail. The data are
-- counted by 64 bits.
pub create-IsLaidOut :
    {V : Type 0} (platform : Platform V) (st : InMemoryStorage) (name : Str) (o : StreamOptions)
    (ms : List Str) (close : Bool) (clock : ℕ → ℕ) (r : CreateWithDataResult)
    (st' : InMemoryStorage) (s : StreamEntry)
    → create_stream_with_data platform st name o ms close clock ≡ (ok r, st')
    → r.status ≡ created
    → get_stream st' name ≡ some s
    → length ms < u64_mod
    → bytes_of ms < u64_mod
    → IsLaidOut 0 0 s ms
      × (s.closed ≡ (close || o.created_closed))
      × (r.next_offset ≡ tail_offset s)
unfolding create_stream_with_data
create-IsLaidOut platform st name o ms close clock r st' s h status found few small =
    let (first, first_resolved, outcome) =
      create_resolved-inverts platform st name ms close clock (resolve platform o (clock 0)) h in
    let (_, _, fields) = resolve-inverts platform o (clock 0) first first_resolved in
    elim outcome [
      | inl exists ↦ absurd (created≢already_exists (sym status ∙ exists))
      | inr (s₀, at, _, _, ends, _, closed, laid) ↦
          let same : s₀ ≡ s = cc in
          subst
            (λ (t : StreamEntry).
              IsLaidOut 0 0 t ms
              × (t.closed ≡ (close || o.created_closed))
              × (r.next_offset ≡ tail_offset t))
            same
            (
              laid few small,
              closed ∙ ap (λ (c : StreamConfig). close || c.created_closed) fields,
              ends,
            )
    ]
