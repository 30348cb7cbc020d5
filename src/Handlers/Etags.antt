-- ===== src/Handlers/Etags.antt =====
-- The entity tags of reads.
use mathlib.Core.List.{append_cancel_left}
use durable_streams_rust.Prelude.{
  ℕ, List, [], ◌∷◌, ◌++◌, ◌≡◌, ◌↔◌, ◌⊎◌, refl, sym, ap, ◌∙◌, Str, arith, length, Bool, Bool-cases,
  inl, inr, true, false, some, none, str_eq, str_eq_iff, if◌then◌else◌,
}
use durable_streams_rust.Protocol.Error.{ok}
use durable_streams_rust.Protocol.Offset
use durable_streams_rust.Protocol.Offset.{as_str, encode_offset}
use durable_streams_rust.Protocol.Offset.Width.{length-encode_offset}
use durable_streams_rust.Storage.Types.{ReadResult}
use durable_streams_rust.Storage.Memory.Entry.{InMemoryStorage}
use durable_streams_rust.Handlers.Events.{at_end}
use durable_streams_rust.Handlers.Problem.{answer_status, closed_if, with_header, with_next_offset}
use durable_streams_rust.Handlers.Reads.{
  generate_etag, is_unmodified, build_304_response, build_data_response, data_reply, up_to_date,
  with_cursor,
}
use durable_streams_rust.Handlers.Get.{catch_up_reply}

-- Two texts of one length before two others.
same_parts : (a b s t : Str) → length a ≡ length b → a ++ s ≡ b ++ t → (a ≡ b) × (s ≡ t)
same_parts [] [] s t h e = (refl, e)
same_parts [] (y ∷ b) s t h e = absurd (omega arith)
same_parts (x ∷ a) [] s t h e = absurd (omega arith)
same_parts (x ∷ a) (y ∷ b) s t h e =
    let tail : a ++ s ≡ b ++ t = cc in
    let (p, q) = same_parts a b s t (omega arith) tail in ((cc), q)

abbrev tag_end : Bool → Str
tag_end closed = if closed then b':' ∷ b'c' ∷ b'"' ∷ [] else b'"' ∷ []

tag_end-eq : (a b : Bool) → tag_end a ≡ tag_end b → a ≡ b
tag_end-eq true true h = refl
tag_end-eq true false h = absurd (omega (arith, ap (λ (s : Str). length s) h))
tag_end-eq false true h = absurd (omega (arith, ap (λ (s : Str). length s) h))
tag_end-eq false false h = refl

-- A read that ends at this offset.
abbrev pub read_to : List Str → ℕ → ℕ → Bool → Bool → ReadResult
read_to messages a b at_tail closed = record {
  messages = messages;
  next_offset = Offset.new a b;
  at_tail = at_tail;
  closed = closed;
}

abbrev pub SameEnd : ReadResult → ReadResult → Type 0
SameEnd r r' = (as_str r.next_offset ≡ as_str r'.next_offset) × (at_end r ≡ at_end r')

generate_etag-eq :
    (raw : Str) (r r' : ReadResult)
    → length (as_str r.next_offset) ≡ length (as_str r'.next_offset)
    → (generate_etag raw r ≡ generate_etag raw r') ↔ SameEnd r r'
unfolding generate_etag
generate_etag-eq raw r r' same = (forth, back)
  where
    forth : generate_etag raw r ≡ generate_etag raw r' → SameEnd r r'
    forth e =
        let behind_quote : raw ++ (b':' ∷ (as_str r.next_offset ++ tag_end (at_end r)))
            ≡ raw ++ (b':' ∷ (as_str r'.next_offset ++ tag_end (at_end r'))) =
          cc in
        let behind_colon : as_str r.next_offset ++ tag_end (at_end r)
            ≡ as_str r'.next_offset ++ tag_end (at_end r') =
          cc (append_cancel_left raw _ _ behind_quote) in
        let (p, q) =
          same_parts (as_str r.next_offset) (as_str r'.next_offset) (tag_end (at_end r))
            (tag_end (at_end r')) same behind_colon in
        (p, tag_end-eq (at_end r) (at_end r') q)

    back : SameEnd r r' → generate_etag raw r ≡ generate_etag raw r'
    back (p, q) = λ i. b'"' ∷ (raw ++ (b':' ∷ (p i ++ tag_end (q i))))

data_status :
    (r : ReadResult) (content_type etag : Str)
    → answer_status (build_data_response r content_type etag none).0 ≡ 200
unfolding build_data_response answer_status with_header with_next_offset up_to_date with_cursor
    closed_if
data_status r content_type etag = elim (Bool-cases (at_end r)) [
  | inl e ↦ rw e refl
  | inr e ↦ rw e refl
]

module _ (raw content_type : Str) (last : ℕ) (st : InMemoryStorage) (etag : Str)
    (r : ReadResult) where
  abbrev status_of : ℕ
  status_of = answer_status (catch_up_reply raw (some etag) content_type last (ok r, st)).answer

  same_status : str_eq etag (generate_etag raw r) ≡ true → status_of ≡ 304
  unfolding catch_up_reply is_unmodified build_304_response answer_status up_to_date with_header
      with_next_offset
  same_status e = rw e refl

  other_status : str_eq etag (generate_etag raw r) ≡ false → status_of ≡ 200
  unfolding catch_up_reply is_unmodified data_reply
  other_status e = rw e (data_status r content_type (generate_etag raw r))

-- A client that repeats a read with the entity tag of an earlier one, from the same offset, is answered
-- 304 exactly when the new read ends where the earlier one did, and both or neither of them at the end
-- of a closed stream. Otherwise it is answered 200.
pub catch_up_reply-304_iff :
    (raw content_type : Str) (last : ℕ) (st : InMemoryStorage) (messages messages' : List Str)
    (a b a' b' : ℕ) (at_tail closed at_tail' closed' : Bool)
    → let r = read_to messages a b at_tail closed in
      let r' = read_to messages' a' b' at_tail' closed' in
      let status =
        answer_status
          (catch_up_reply raw (some (generate_etag raw r)) content_type last (ok r', st)).answer in
      ((status ≡ 304) ↔ SameEnd r r') × ((status ≡ 304) ⊎ (status ≡ 200))
unfolding as_str Offset.new
catch_up_reply-304_iff raw content_type last st messages messages' a b a' b' at_tail closed at_tail'
      closed' =
    let r : ReadResult = read_to messages a b at_tail closed in
    let r' : ReadResult = read_to messages' a' b' at_tail' closed' in
    let same : length (encode_offset a b) ≡ length (encode_offset a' b') =
      length-encode_offset a b ∙ sym (length-encode_offset a' b') in
    let ends = generate_etag-eq raw r r' same in
    let tags = str_eq_iff (generate_etag raw r) (generate_etag raw r') in
    elim (Bool-cases (str_eq (generate_etag raw r) (generate_etag raw r'))) [
      | inl e ↦
          let is_304 = same_status raw content_type last st (generate_etag raw r) r' e in
          ((λ _. ends.0 (tags.0 e), λ _. is_304), inl is_304)
      | inr e ↦
          let is_200 = other_status raw content_type last st (generate_etag raw r) r' e in
          ((λ h. absurd (omega (arith, h, is_200)), λ h. clash e (tags.1 (ends.1 h))), inr is_200)
    ]
  where
    clash : {A : Type 0} {b : Bool} → b ≡ false → b ≡ true → A
    clash e e' = cc
