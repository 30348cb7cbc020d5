-- ===== src/Protocol/Producer.antt =====
-- protocol/producer.rs: the headers of an idempotent producer.
use durable_streams_rust.Prelude.{
  ◌≡◌, ◌≢◌, subst, ◌≤◌, Option-cases, inl, inr, arith, ℕ, ◌&&◌, Option, none, some, [], ◌∷◌, ◌++◌,
  Str, text, length, get_or, ltb, ◌==◌, if◌then◌else◌,
}
use durable_streams_rust.Protocol.Error.{Result, ok, err, invalid_producer_state, ◌>>=◌, >>=-eq-ok}
use durable_streams_rust.Protocol.Headers.{parse_u64}

pub record ProducerHeaders : Type 0 where
  pub id : Str
  pub epoch : ℕ
  pub seq : ℕ

abbrev pub max_safe_integer : ℕ
max_safe_integer = 9_007_199_254_740_991

checked_int : Str → Str → Option ℕ → Result ℕ
checked_int value header_name none =
    err (
      invalid_producer_state
        (header_name ++ text " must be a non-negative integer, got: " ++ value))
checked_int value header_name (some n) =
    if ltb max_safe_integer n
    then err
        (invalid_producer_state (header_name ++ text " must not exceed 2^53-1, got: " ++ value))
    else ok n

unfoldable pub parse_non_negative_int : Str → Str → Result ℕ
unfolding checked_int parse_u64
parse_non_negative_int value header_name =
    if ltb 1 (length value) && get_or value 0 0 == b'0'
    then err (
        invalid_producer_state
          (header_name ++ text " must be a non-negative integer, got: " ++ value))
    else checked_int value header_name (parse_u64 value)

-- The match on the three headers; each argument is the header's value where it is present and
-- visible ASCII.
unfoldable pub parse_producer_headers :
    Option Str → Option Str → Option Str → Result (Option ProducerHeaders)
unfolding parse_non_negative_int
parse_producer_headers none none none = ok none
parse_producer_headers (some []) (some epoch_str) (some seq_str) =
    err (invalid_producer_state (text "Producer-Id must not be empty"))
parse_producer_headers (some (c ∷ id)) (some epoch_str) (some seq_str) = do
  epoch ← parse_non_negative_int epoch_str (text "Producer-Epoch")
  seq ← parse_non_negative_int seq_str (text "Producer-Seq")
  ok (some (record { id = c ∷ id; epoch = epoch; seq = seq }))
parse_producer_headers _ _ _ = err (
    invalid_producer_state
      (text "Producer-Id, Producer-Epoch, and Producer-Seq must all be provided together"))

parse_non_negative_int-le :
    (value header_name : Str) (n : ℕ)
    → parse_non_negative_int value header_name ≡ ok n
    → n ≤ max_safe_integer
unfolding parse_non_negative_int checked_int
parse_non_negative_int-le value header_name n h = elim (Option-cases (parse_u64 value)) [
  | inl bad ↦ absurd (ground arith)
  | inr (m, good) ↦ ground arith
]

-- Producer headers that parse are within JavaScript's safe integers, epoch and sequence number alike,
-- and name a producer.
pub parse_producer_headers_bounds :
    (id epoch seq : Option Str) (p : ProducerHeaders)
    → parse_producer_headers id epoch seq ≡ ok (some p)
    → (p.epoch ≤ max_safe_integer) × (p.seq ≤ max_safe_integer) × (p.id ≢ [])
unfolding parse_producer_headers
parse_producer_headers_bounds none none none p h = cc
parse_producer_headers_bounds none none (some q) p h = cc
parse_producer_headers_bounds none (some e) q p h = cc
parse_producer_headers_bounds (some []) none q p h = cc
parse_producer_headers_bounds (some []) (some e) none p h = cc
parse_producer_headers_bounds (some []) (some e) (some q) p h = cc
parse_producer_headers_bounds (some (c ∷ id)) none q p h = cc
parse_producer_headers_bounds (some (c ∷ id)) (some e) none p h = cc
parse_producer_headers_bounds (some (c ∷ id)) (some e) (some q) p h =
    let (epoch, epoch_ok, rest) =
      >>=-eq-ok (parse_non_negative_int e (text "Producer-Epoch")) _ h in
    let (seq, seq_ok, last) = >>=-eq-ok (parse_non_negative_int q (text "Producer-Seq")) _ rest in
    let same : record { id = c ∷ id; epoch = epoch; seq = seq } ≡ p = ground arith in
    subst
      (λ (r : ProducerHeaders).
        (r.epoch ≤ max_safe_integer) × (r.seq ≤ max_safe_integer) × (r.id ≢ []))
      same
      (
        parse_non_negative_int-le e (text "Producer-Epoch") epoch epoch_ok,
        parse_non_negative_int-le q (text "Producer-Seq") seq seq_ok,
        λ e. cc,
      )
