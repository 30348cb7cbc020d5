-- ===== src/Storage/Memory/Layout.antt =====
-- storage/memory.rs: where `commit_messages` lays messages out, and which of them a read finds.
use durable_streams_rust.Prelude.{
  ℕ, zero, suc, ◌+◌, ◌≤◌, ◌≡◌, refl, sym, ap, ◌∙◌, subst, false, none, List, [], ◌∷◌, ◌++◌, Str,
  length, take, drop, length-append, map, max, arith,
}
use durable_streams_rust.Protocol.Offset
use durable_streams_rust.Protocol.Offset.{Offset, offset_lt, is_start}
use durable_streams_rust.Protocol.Offset.Order.{lt-offset_lt, not-offset_lt}
use durable_streams_rust.Storage.Types.{Message, new_message}
use durable_streams_rust.Storage.Fork.{partition_point, message_range, slice}
use durable_streams_rust.Storage.Memory.Entry.{StreamEntry}
use durable_streams_rust.Storage.Memory.Chain.{payload_of, payloads_in}
use durable_streams_rust.Storage.Memory.Commit.{bytes_of}

-- Messages one after the other from an offset on: one sequence number each, and its bytes.
abbrev laid : ℕ → ℕ → List Str → List Message
laid a b [] = []
laid a b (m ∷ ms) = new_message (Offset.new a b) m ∷ laid (a + 1) (b + length m) ms

-- Messages that lie one after the other from a first offset on, and end at a sequence number and a
-- byte offset.
pub record IsLaid (a b : ℕ) (messages : List Message) (next_seq next_byte : ℕ) (payloads : List Str)
    : Type 0 where
  pub laid_out : messages ≡ laid a b payloads
  pub seq_end : next_seq ≡ a + length payloads
  pub byte_end : next_byte ≡ b + bytes_of payloads

-- A stream's messages carry these payloads, one after the other up to its tail.
abbrev pub IsLaidOut : ℕ → ℕ → StreamEntry → List Str → Type 0
IsLaidOut a b s payloads = IsLaid a b s.messages s.next_read_seq s.next_byte_offset payloads

pub laid-append :
    (xs ys : List Str) (a b : ℕ)
    → laid a b (xs ++ ys) ≡ laid a b xs ++ laid (a + length xs) (b + bytes_of xs) ys
laid-append [] ys a b = rw (unit a, unit b) refl
  where
    unit : (n : ℕ) → n + 0 ≡ n
    unit n = omega arith
laid-append (x ∷ xs) ys a b =
    let seqs : a + 1 + length xs ≡ a + suc (length xs) = omega arith in
    let bytes : b + length x + bytes_of xs ≡ b + (length x + bytes_of xs) = omega arith in
    ap (λ t. new_message (Offset.new a b) x ∷ t)
      (laid-append xs ys (a + 1) (b + length x) ∙ rw (seqs, bytes) refl)

pub bytes_of-append : (xs ys : List Str) → bytes_of (xs ++ ys) ≡ bytes_of xs + bytes_of ys
bytes_of-append [] ys = omega arith
bytes_of-append (x ∷ xs) ys = omega (arith, bytes_of-append xs ys)

offset-new_message : (o : Offset) (m : Str) → (new_message o m).offset ≡ o
unfolding new_message
offset-new_message o m = refl

partition_point-laid :
    (xs ys : List Str) (a b d : ℕ)
    → partition_point (Offset.new (a + length xs) d) (laid a b xs ++ laid (a + length xs) d ys)
      ≡ length xs
unfolding partition_point
partition_point-laid [] [] a b d = refl
partition_point-laid [] (y ∷ ys) a b d =
    rw
      (
        offset-new_message (Offset.new (a + 0) d) y,
        not-offset_lt (a + 0) d (a + 0) d (omega arith) (omega arith),
      )
      refl
partition_point-laid (x ∷ xs) ys a b d =
    let seqs : a + suc (length xs) ≡ a + 1 + length xs = omega arith in
    rw
      (
        offset-new_message (Offset.new a b) x,
        lt-offset_lt a b (a + suc (length xs)) d (omega arith),
      )
      (ap suc (
        subst
          (λ (n : ℕ).
            partition_point (Offset.new n d) (laid (a + 1) (b + length x) xs ++ laid n d ys)
            ≡ length xs)
          (sym seqs) (partition_point-laid xs ys (a + 1) (b + length x) d)))

length-laid : (xs : List Str) (a b : ℕ) → length (laid a b xs) ≡ length xs
length-laid [] a b = refl
length-laid (x ∷ xs) a b = ap suc (length-laid xs (a + 1) (b + length x))

payloads-laid : (xs : List Str) (a b : ℕ) → map payload_of (laid a b xs) ≡ xs
unfolding payload_of new_message
payloads-laid [] a b = refl
payloads-laid (x ∷ xs) a b = ap (λ t. x ∷ t) (payloads-laid xs (a + 1) (b + length x))

drop-append {ℓ} : {T : Type ℓ} (xs ys : List T) → drop (length xs) (xs ++ ys) ≡ ys
drop-append [] ys = refl
drop-append (x ∷ xs) ys = drop-append xs ys

take-all {ℓ} : {T : Type ℓ} (n : ℕ) (xs : List T) → length xs ≤ n → take n xs ≡ xs
take-all zero [] h = refl
take-all zero (x ∷ xs) h = absurd (omega arith)
take-all (suc n) [] h = refl
take-all (suc n) (x ∷ xs) h = ap (λ t. x ∷ t) (take-all n xs (omega arith))

-- The messages from a number of messages on.
slice-append {ℓ} :
    {T : Type ℓ} (n : ℕ) (xs ys : List T)
    → length xs ≡ n
    → slice (n, max (length (xs ++ ys)) n) (xs ++ ys) ≡ ys
unfolding slice
slice-append n xs ys e =
    let rest : drop n (xs ++ ys) ≡ ys =
      subst (λ (k : ℕ). drop k (xs ++ ys) ≡ ys) e (drop-append xs ys) in
    rw rest (take-all _ ys (omega (arith, length-append xs ys)))

is_start-new : (a b : ℕ) → is_start (Offset.new a b) ≡ false
unfolding is_start Offset.new
is_start-new a b = refl

-- A read from the boundary between two parts of a layout finds the second part.
pub payloads_in-laid :
    (xs ys : List Str) (a b : ℕ)
    → payloads_in (laid a b (xs ++ ys)) (Offset.new (a + length xs) (b + bytes_of xs)) none ≡ ys
unfolding payloads_in message_range
payloads_in-laid xs ys a b =
    let d = b + bytes_of xs in
    let front = laid a b xs in
    let back = laid (a + length xs) d ys in
    rw (laid-append xs ys a b, is_start-new (a + length xs) d, partition_point-laid xs ys a b d)
      (rw (slice-append (length xs) front back (length-laid xs a b))
        (payloads-laid ys (a + length xs) d))
