-- ===== src/Handlers/Bodies.antt =====
-- handlers/get.rs: what the body of a read is made of.
use durable_streams_rust.Prelude.{
  ◌≡◌, refl, sym, ap, ◌∙◌, inl, inr, Bool-cases, true, List, [], ◌∷◌, ◌++◌, Str, if◌then◌else◌,
}
use mathlib.Core.List.{flatten, append_assoc}
use durable_streams_rust.Protocol.Json.{is_json_content_type, wrap_loop, wrap_read_iter}
use durable_streams_rust.Storage.Types.{ReadResult}
use durable_streams_rust.Handlers.Reads.{concatenated, build_body}

-- The messages with a comma between two.
abbrev pub separated : Str → List Str → Str
separated m [] = m
separated m (n ∷ ms) = m ++ (b',' ∷ separated n ms)

-- The body for messages: a JSON array of them, or their bytes in a row.
abbrev pub body_of : Str → Str → List Str → Str
body_of content_type m ms =
    if is_json_content_type content_type
    then b'[' ∷ (separated m ms ++ (b']' ∷ []))
    else flatten (m ∷ ms)

wrap_loop-separated :
    (m : Str) (ms : List Str) → m ++ wrap_loop true ms ≡ separated m ms ++ (b']' ∷ [])
unfolding wrap_loop
wrap_loop-separated m [] = refl
wrap_loop-separated m (n ∷ ms) =
    ap (λ t. m ++ (b',' ∷ t)) (wrap_loop-separated n ms)
    ∙ sym (append_assoc m (b',' ∷ separated n ms) (b']' ∷ []))

concatenated-flatten : (ms : List Str) → concatenated ms ≡ flatten ms
unfolding flatten
concatenated-flatten [] = refl
concatenated-flatten (m ∷ ms) = ap (λ t. m ++ t) (concatenated-flatten ms)

pub build_body-body_of :
    (content_type m : Str) (ms : List Str) (r : ReadResult)
    → r.messages ≡ m ∷ ms
    → build_body r content_type ≡ body_of content_type m ms
unfolding build_body wrap_read_iter wrap_loop
build_body-body_of content_type m ms r h = elim (Bool-cases (is_json_content_type content_type)) [
  | inl json ↦ rw (json, h) (ap (λ t. b'[' ∷ t) (wrap_loop-separated m ms))
  | inr plain ↦ rw (plain, h) (concatenated-flatten (m ∷ ms))
]
