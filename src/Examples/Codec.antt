-- ===== src/Examples/Codec.antt =====
-- A codec that the laws of serde_json hold for: a byte n is written as n times `a` and a `b`.
use durable_streams_rust.Prelude.{
  ℕ, zero, suc, ◌+◌, ◌<◌, [], ◌∷◌, ◌≡◌, refl, ap, ◌∙◌, Str, Bool, true, false, none, some, Option,
  inr, ◌==◌, if◌then◌else◌, arith,
}
use durable_streams_rust.Prelude.Utf8.{is_utf8, is_utf8_cons, valid_after}
use durable_streams_rust.Protocol.Sse.{ControlPayload, SseCodec}
use durable_streams_rust.Client.Sse.{without_space}
use durable_streams_rust.Client.Sse.Lines.{IsText, IsByteOfLine}
use durable_streams_rust.Client.Sse.Collect.{ControlEvent, SseDecoder}
use durable_streams_rust.Client.Sse.Pairs.{ReadsBack, as_event, flag}

write_byte : ℕ → Str → Str
write_byte zero rest = b'b' ∷ rest
write_byte (suc n) rest = b'a' ∷ write_byte n rest

write : Str → Str → Str
unfolding write_byte
write [] rest = b'.' ∷ rest
write (c ∷ s) rest = write_byte c (write s rest)

-- The text that was written, and what follows it.
take_text : ℕ → Str → Str × Str
take_text n [] = ([], [])
take_text n (c ∷ s) = elim (c == b'a') [
  | true ↦ take_text (suc n) s
  | false ↦ elim (c == b'b') [ true ↦ (n ∷ (take_text 0 s).0, (take_text 0 s).1) | false ↦ ([], s) ]
]

take_text-write_byte :
    (c n : ℕ) (rest : Str)
    → take_text n (write_byte c rest) ≡ ((n + c) ∷ (take_text 0 rest).0, (take_text 0 rest).1)
unfolding take_text write_byte
take_text-write_byte zero n rest =
    ap (λ k. (k ∷ (take_text 0 rest).0, (take_text 0 rest).1)) (omega arith)
take_text-write_byte (suc c) n rest =
    take_text-write_byte c (suc n) rest
    ∙ ap (λ k. (k ∷ (take_text 0 rest).0, (take_text 0 rest).1)) (omega arith)

take_text-write : (s rest : Str) → take_text 0 (write s rest) ≡ (s, rest)
unfolding write
take_text-write [] rest = unfold take_text in refl
take_text-write (c ∷ s) rest =
    take_text-write_byte c 0 (write s rest)
    ∙ ap (λ (p : Str × Str). ((0 + c) ∷ p.0, p.1)) (take_text-write s rest)
    ∙ ap (λ k. (k ∷ s, rest)) (omega arith)

write_cursor : Option Str → Str → Str
write_cursor none rest = b'n' ∷ rest
write_cursor (some s) rest = b's' ∷ write s rest

write_flag : Option Bool → Str → Str
write_flag (some true) rest = b't' ∷ rest
write_flag _ rest = b'f' ∷ rest

take_cursor : Str → Option Str × Str
take_cursor [] = (none, [])
take_cursor (c ∷ s) = if c == b's' then (some (take_text 0 s).0, (take_text 0 s).1) else (none, s)

take_flag : Str → Bool × Str
take_flag [] = (false, [])
take_flag (c ∷ s) = (c == b't', s)

pub write_payload : ControlPayload → Str
write_payload p =
    write p.stream_next_offset
      (write_cursor p.stream_cursor (write_flag p.up_to_date (write_flag p.stream_closed [])))

pub read_payload : Str → ControlEvent
read_payload s =
    let (offset, s₁) = take_text 0 s in
    let (cursor, s₂) = take_cursor s₁ in
    let (current, s₃) = take_flag s₂ in
    record {
      stream_next_offset = offset;
      stream_cursor = cursor;
      up_to_date = current;
      stream_closed = (take_flag s₃).0;
    }

abbrev pub small_codec : SseCodec
small_codec = record { to_string = write_payload; encode = λ s. s }

abbrev pub small_decoder : SseDecoder
small_decoder = record { decode = λ s. inr s; from_str = λ s. inr (read_payload s) }

take_cursor-write_cursor :
    (o : Option Str) (rest : Str) → take_cursor (write_cursor o rest) ≡ (o, rest)
unfolding take_cursor write_cursor
take_cursor-write_cursor none rest = refl
take_cursor-write_cursor (some s) rest =
    ap (λ (p : Str × Str). (some p.0, p.1)) (take_text-write s rest)

take_flag-write_flag :
    (o : Option Bool) (rest : Str) → take_flag (write_flag o rest) ≡ (flag o, rest)
unfolding take_flag write_flag
take_flag-write_flag none rest = refl
take_flag-write_flag (some true) rest = refl
take_flag-write_flag (some false) rest = refl

read_payload-write_payload : (p : ControlPayload) → read_payload (write_payload p) ≡ as_event p
unfolding read_payload write_payload
read_payload-write_payload p =
    rw
      (
        take_text-write p.stream_next_offset,
        take_cursor-write_cursor p.stream_cursor,
        take_flag-write_flag p.up_to_date,
        take_flag-write_flag p.stream_closed,
      )
      refl

IsText-cons : (c : ℕ) (s : Str) → IsByteOfLine c → c < 128 → IsText s → IsText (c ∷ s)
IsText-cons c s byte low h = ((byte, h.0), is_utf8_cons c s low ∙ h.1)

write_byte-IsText : (c : ℕ) (rest : Str) → IsText rest → IsText (write_byte c rest)
unfolding write_byte
write_byte-IsText zero rest h = IsText-cons b'b' rest (refl, refl) (omega arith) h
write_byte-IsText (suc c) rest h =
    IsText-cons b'a' _ (refl, refl) (omega arith) (write_byte-IsText c rest h)

write-IsText : (s rest : Str) → IsText rest → IsText (write s rest)
unfolding write
write-IsText [] rest h = IsText-cons b'.' rest (refl, refl) (omega arith) h
write-IsText (c ∷ s) rest h = write_byte-IsText c (write s rest) (write-IsText s rest h)

write_cursor-IsText : (o : Option Str) (rest : Str) → IsText rest → IsText (write_cursor o rest)
unfolding write_cursor
write_cursor-IsText none rest h = IsText-cons b'n' rest (refl, refl) (omega arith) h
write_cursor-IsText (some s) rest h =
    IsText-cons b's' _ (refl, refl) (omega arith) (write-IsText s rest h)

write_flag-IsText : (o : Option Bool) (rest : Str) → IsText rest → IsText (write_flag o rest)
unfolding write_flag
write_flag-IsText none rest h = IsText-cons b'f' rest (refl, refl) (omega arith) h
write_flag-IsText (some true) rest h = IsText-cons b't' rest (refl, refl) (omega arith) h
write_flag-IsText (some false) rest h = IsText-cons b'f' rest (refl, refl) (omega arith) h

write-no_space : (s rest : Str) → without_space (write s rest) ≡ write s rest
unfolding write without_space write_byte
write-no_space [] rest = refl
write-no_space (zero ∷ s) rest = refl
write-no_space (suc c ∷ s) rest = refl

pub small_codec-ReadsBack : ReadsBack small_codec small_decoder
unfolding write_payload
small_codec-ReadsBack = record {
  one_line = λ p. write-IsText p.stream_next_offset _ (
      write_cursor-IsText p.stream_cursor _ (
        write_flag-IsText p.up_to_date _
          (write_flag-IsText p.stream_closed [] (tt, unfold is_utf8 valid_after in refl))));
  no_space = λ p. write-no_space p.stream_next_offset _;
  read_back = λ p. ap inr (read_payload-write_payload p);
}
