-- ===== src/Storage/Shared/Sequencing.antt =====
-- storage/shared.rs: which append of a producer `check_producer` lets through, and what a sequence
-- label must satisfy.
use durable_streams_rust.Prelude.{
  ℕ, ◌+◌, ◌≤◌, ◌<◌, ◌≡◌, ◌↔◌, ◌⊎◌, inl, inr, refl, sym, ap, subst, ◌∙◌, Bool, Bool-cases, true,
  false, Option, none, some, List, [], ◌∷◌, Str, str_eq, lt→ltb, u64_mod, arith, ltb,
}
use durable_streams_rust.Prelude.Dict.{Dict, lookup}
use durable_streams_rust.Protocol.Error.{Result, ok, err, ◌>>◌, >>=-eq-ok}
use durable_streams_rust.Protocol.Producer.{ProducerHeaders}
use durable_streams_rust.Storage.Platform.{Platform}
use durable_streams_rust.Storage.Types.{StreamConfig}
use durable_streams_rust.Storage.Access.{renew_ttl}
use durable_streams_rust.Storage.Shared.{
  ProducerState, accept, duplicate, check_producer, retain_after, ProducerAppendPrecheck,
  duplicate_of, check_messages_type, after_check, producer_sequence, precheck_accessed,
  apply_append_metadata,
}

-- The append that follows a producer's state: the first of an epoch, or the next of this epoch.
abbrev pub Follows : Option ProducerState → ProducerHeaders → Type 0
Follows none p = p.seq ≡ 0
Follows (some s) p =
    ((s.epoch < p.epoch) × (p.seq ≡ 0)) ⊎ ((p.epoch ≡ s.epoch) × (p.seq ≡ s.last_seq + 1))

-- An append that the producer's state already covers.
abbrev pub Covered : Option ProducerState → ProducerHeaders → ℕ → ℕ → Type 0
Covered none p epoch seq = ⊥
Covered (some s) p epoch seq =
    (p.epoch ≡ s.epoch) × (p.seq ≤ s.last_seq) × (epoch ≡ s.epoch) × (seq ≡ s.last_seq)

abbrev HasNextSeq : Option ProducerState → Type 0
HasNextSeq none = Unit
HasNextSeq (some s) = s.last_seq + 1 < u64_mod

-- A producer's append is accepted exactly when the stream is open and the append follows the
-- producer's state: the first append of an unknown producer or of a later epoch has sequence number 0,
-- and in the same epoch the numbers go up by one. The next sequence number fits 64 bits.
pub check_producer-accept_iff :
    (o : Option ProducerState) (p : ProducerHeaders) (closed : Bool)
    → HasNextSeq o
    → (check_producer o p closed ≡ ok accept) ↔ ((closed ≡ false) × Follows o p)
unfolding check_producer
check_producer-accept_iff none p closed h = ground arith
check_producer-accept_iff (some s) p closed h = ground arith

-- A producer's append is a duplicate exactly when the producer is known, in the same epoch, with a
-- sequence number that is not below that of the append, whether the stream is closed or not. The
-- answer carries the producer's last accepted epoch and sequence number.
pub check_producer-duplicate_iff :
    (o : Option ProducerState) (p : ProducerHeaders) (closed : Bool) (epoch seq : ℕ)
    → (check_producer o p closed ≡ ok (duplicate epoch seq)) ↔ Covered o p epoch seq
unfolding check_producer
check_producer-duplicate_iff none p closed epoch seq = ground arith
check_producer-duplicate_iff (some s) p closed epoch seq = ground arith

-- A record that is recent enough survives the pruning.
pub lookup-retain_after :
    (cutoff : ℕ) (k : Str) (m : Dict ProducerState) {r : ProducerState}
    → lookup k m ≡ some r
    → cutoff < r.updated_at
    → lookup k (retain_after cutoff m) ≡ some r
unfolding lookup retain_after
lookup-retain_after cutoff k [] h recent = cc
lookup-retain_after cutoff k ((id, s) ∷ m) {r} h recent = elim (Bool-cases (str_eq id k)) [
  | inl hit ↦
      let same : s ≡ r = ground arith in
      let kept : ltb cutoff s.updated_at ≡ true =
        subst (λ (t : ProducerState). ltb cutoff t.updated_at ≡ true) (sym same)
          (lt→ltb _ _ recent) in
      rw kept (rw hit (ap some same))
  | inr miss ↦ elim (Bool-cases (ltb cutoff s.updated_at)) [
    | inl kept ↦ rw kept (rw miss (lookup-retain_after cutoff k m (ground arith) recent))
    | inr old ↦ rw old (lookup-retain_after cutoff k m (ground arith) recent)
  ]
]

-- What a successful sequence has passed.
passed {ℓ} :
    {T : Type ℓ} (first : Result (Unit {0})) (rest : Result T) {last : T}
    → (first >> rest) ≡ ok last
    → first ≡ ok tt
passed (err reason) rest h = cc
passed (ok u) rest h = refl

module _ {V : Type 0} (platform : Platform V) where
  renew_ttl-content_type :
      (c : StreamConfig) (now : ℕ) {c' : StreamConfig} {changed : Bool}
      → renew_ttl platform c now ≡ ok (c', changed)
      → c'.content_type ≡ c.content_type
  unfolding renew_ttl
  renew_ttl-content_type c now h = ground arith

  pub apply_append_metadata-content_type :
      (c : StreamConfig) (last pending : Option Str) (now now₁ : ℕ)
      {next : StreamConfig × Option Str × Option ℕ × Bool}
      → apply_append_metadata platform c last pending now now₁ ≡ ok next
      → next.0.content_type ≡ c.content_type
  unfolding apply_append_metadata
  apply_append_metadata-content_type c last pending now now₁ {next} h =
      let (renewed, e, rest) = >>=-eq-ok (renew_ttl platform c now₁) _ h in
      let same : renewed.0 ≡ next.0 = ground arith in
      ap (λ (t : StreamConfig). t.content_type) (sym same) ∙ renew_ttl-content_type c now₁ e

  -- What the checks have seen when they succeed.
  pub accessed-typed :
      (config : StreamConfig) (closed : Bool) (last : Option Str) (producers : Dict ProducerState)
      (ct : Str) (p : ProducerHeaders) (ms : List Str) (seq : Option Str) (now : ℕ)
      (access : Result (Unit {0})) {x : ProducerAppendPrecheck}
      → (precheck_accessed platform config closed last producers ct p ms seq now access).0 ≡ ok x
      → check_messages_type ms config.content_type ct ≡ ok tt
  unfolding precheck_accessed producer_sequence
  accessed-typed config closed last producers ct p ms seq now (err e) h = cc
  accessed-typed config closed last producers ct p ms seq now (ok u) h = passed _ _ h

  -- A covered append is reported as a duplicate.
  pub sequence-Covered :
      (config : StreamConfig) (closed : Bool) (last : Option Str) (pruned : Dict ProducerState)
      (ct : Str) (p : ProducerHeaders) (ms : List Str) (seq : Option Str) (epoch seq' : ℕ)
      → check_messages_type ms config.content_type ct ≡ ok tt
      → Covered (lookup p.id pruned) p epoch seq'
      → producer_sequence platform config closed last pruned ct p ms seq
        ≡ ok (duplicate_of epoch seq')
  unfolding producer_sequence after_check
  sequence-Covered config closed last pruned ct p ms seq epoch seq' typed covered =
      rw (typed, (check_producer-duplicate_iff (lookup p.id pruned) p closed epoch seq').1 covered)
        refl
