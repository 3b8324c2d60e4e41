-- ===== src/Runtime/KillEnforcer/Bodies.antt =====
-- runtime/limits/kill-enforcer.ts: which bodies are accepted, and what is streamed of a response.
use railfog.Prelude.{
  ◌&&◌, leb→le, or_default, ltb-false→le, ℕ, ◌+◌, ◌≤◌, ◌≡◌, refl, ap, Bool, true, false, Option,
  none, some, List, [], ◌∷◌, ◌++◌, map, arith, ltb, leb, if◌then◌else◌, length, length-append,
  Bool-cases, inl, inr,
}
use railfog.Errors.{ErrorCode}
use railfog.Runtime.KillEnforcer.{
  Bytes, Enforcer, ContentLength, Read, Body, join, read_body, validate_request_body, Pulled, pull,
  wrapped, wrap_response_stream,
}

-- A stream that does not fail.
abbrev pub chunks_of : List Bytes → List Read
chunks_of = map (λ bytes. Read.chunk bytes)

append_one :
    (chunks : List Bytes) (bytes : Bytes) (rest : List Bytes)
    → (chunks ++ bytes ∷ []) ++ rest ≡ chunks ++ bytes ∷ rest
append_one [] bytes rest = refl
append_one (c ∷ chunks) bytes rest = ap (λ x. c ∷ x) (append_one chunks bytes rest)

append_none : (chunks : List Bytes) → chunks ++ [] ≡ chunks
append_none [] = refl
append_none (c ∷ chunks) = ap (λ x. c ∷ x) (append_none chunks)

read_body-from :
    (max_bytes total : ℕ) (chunks rest : List Bytes)
    → total ≤ max_bytes
    → read_body max_bytes total chunks (chunks_of rest) ≡ (
        if leb (total + length (join rest)) max_bytes
        then Body.accepted (join (chunks ++ rest))
        else Body.rejected ErrorCode.payload_too_large true)
unfolding read_body
read_body-from max_bytes total chunks [] within = ground (arith, append_none chunks)
read_body-from max_bytes total chunks (bytes ∷ rest) within =
    elim (Bool-cases (ltb max_bytes (total + length bytes))) [
      | inl over ↦ ground (arith, length-append bytes (join rest))
      | inr under ↦ ground (
        arith,
        length-append bytes (join rest),
        append_one chunks bytes rest,
        read_body-from max_bytes (total + length bytes) (chunks ++ bytes ∷ []) rest
            (ltb-false→le max_bytes (total + length bytes) under),
      )
    ]

abbrev pub declares : Option ℕ → Option ContentLength
declares none = none
declares (some bytes) = some (ContentLength.declared bytes)

-- A body that is streamed without failure is accepted whole, as the bytes of its chunks in order,
-- when a declared length and the bytes themselves are within the limit; else it is rejected as too
-- large, and the stream is cancelled.
pub validate_request_body-exact :
    (e : Enforcer) (declared : Option ℕ) (chunks : List Bytes)
    → validate_request_body e (declares declared) (some (chunks_of chunks)) ≡ (
        if leb (or_default declared 0) e.max_request_body_bytes
          && leb (length (join chunks)) e.max_request_body_bytes
        then Body.accepted (join chunks)
        else Body.rejected ErrorCode.payload_too_large true)
unfolding validate_request_body
validate_request_body-exact e none chunks =
    ground (arith, read_body-from e.max_request_body_bytes 0 [] chunks (omega arith))
validate_request_body-exact e (some bytes) chunks =
    ground (arith, read_body-from e.max_request_body_bytes 0 [] chunks (omega arith))

-- The longest prefix of the chunks whose bytes, after `emitted` others, are within the limit; and
-- whether it is all of them.
abbrev pub within_limit : (max_bytes emitted : ℕ) → List Bytes → List Bytes × Bool
within_limit max_bytes emitted [] = ([], true)
within_limit max_bytes emitted (bytes ∷ rest) =
    let (kept, whole) = within_limit max_bytes (emitted + length bytes) rest in
    if leb (emitted + length bytes) max_bytes then (bytes ∷ kept, whole) else ([], false)

within_limit-le :
    (max_bytes emitted : ℕ) (chunks : List Bytes)
    → emitted ≤ max_bytes
    → emitted + length (join (within_limit max_bytes emitted chunks).0) ≤ max_bytes
within_limit-le max_bytes emitted [] within = omega (arith, within)
within_limit-le max_bytes emitted (bytes ∷ rest) within =
    elim (Bool-cases (leb (emitted + length bytes) max_bytes)) [
      | inl fits ↦ rw fits (
          omega (
            arith,
            length-append bytes (join (within_limit max_bytes (emitted + length bytes) rest).0),
            within_limit-le max_bytes (emitted + length bytes) rest (leb→le _ _ fits),
          ))
      | inr over ↦ rw over (omega (arith, within))
    ]

ending : Bool → Pulled
ending whole = if whole then Pulled.closed else Pulled.errored ErrorCode.payload_too_large

wrapped-from :
    (max_bytes emitted : ℕ) (chunks : List Bytes)
    → wrapped max_bytes emitted (chunks_of chunks) ≡ (
      (within_limit max_bytes emitted chunks).0,
      ending (within_limit max_bytes emitted chunks).1,
    )
unfolding wrapped pull ending
wrapped-from max_bytes emitted [] = refl
wrapped-from max_bytes emitted (bytes ∷ rest) =
    ground (arith, wrapped-from max_bytes (emitted + length bytes) rest)

-- A response that is streamed without failure is passed on up to the last chunk before the limit; the
-- bytes passed on are within the limit; and the stream is closed if these are all the chunks, and
-- errors as too large if not.
pub wrap_response_stream-exact :
    (e : Enforcer) (chunks : List Bytes)
    → let (passed, whole) = within_limit e.max_streamed_bytes 0 chunks in
      (wrap_response_stream e (chunks_of chunks)
        ≡ (passed, if whole then Pulled.closed else Pulled.errored ErrorCode.payload_too_large))
      × (length (join passed) ≤ e.max_streamed_bytes)
unfolding wrap_response_stream ending
wrap_response_stream-exact e chunks = (
  wrapped-from e.max_streamed_bytes 0 chunks,
  omega (arith, within_limit-le e.max_streamed_bytes 0 chunks (omega arith)),
)
