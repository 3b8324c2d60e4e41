-- ===== src/Runtime/KillEnforcer.antt =====
-- runtime/limits/kill-enforcer.ts. A stream is the list of what its reads give: a chunk of bytes, or
-- a failure of the stream. The deadline's timer (`createAbortController`) is left out, and so are
-- options that are fractions.
pub mod Bodies
pub mod Examples
use railfog.Prelude.{
  ℕ, zero, suc, ◌+◌, ◌*◌, Bool, true, false, Option, none, some, List, [], ◌∷◌, ◌++◌, ltb, leb,
  if◌then◌else◌, or_default, length,
}
use railfog.Errors.{Result, ErrorCode, ok, err, ◌>>=◌, throw_if}

-- A number given as an option: none at all (NaN, or of another type), one below 0, or a whole one.
pub data Given : Type 0 where
  no_number below_zero : Given
  whole : (n : ℕ) → Given

abbrev pub Bytes : Type 0
Bytes = List ℕ

pub record Options : Type 0 where
  pub timeout_ms : Given
  pub cpu_ms : Given
  pub max_request_body_bytes : Option Given
  pub max_response_body_bytes : Option Given
  pub max_streamed_bytes : Option Given

pub record Enforcer : Type 0 where
  pub timeout_ms : ℕ
  pub cpu_ms : ℕ
  pub max_request_body_bytes : ℕ
  pub max_response_body_bytes : ℕ
  pub max_streamed_bytes : ℕ

-- The check of an option.
abbrev pub positive : Given → Result ℕ
positive (Given.whole (suc n)) = ok (suc n)
positive _ = err ErrorCode.validation_failed

abbrev pub positive_or : (default_bytes : ℕ) → Option Given → Result ℕ
positive_or default_bytes none = ok default_bytes
positive_or default_bytes (some given) = positive given

-- The constructor.
unfoldable pub new_enforcer : Options → Result Enforcer
new_enforcer options = do
  timeout_ms ← positive options.timeout_ms
  cpu_ms ← positive options.cpu_ms
  max_request ← positive_or 10_485_760 options.max_request_body_bytes
  max_response ← positive_or 10_485_760 options.max_response_body_bytes
  max_streamed ← positive_or 536_870_912 options.max_streamed_bytes
  ok (record {
    timeout_ms = timeout_ms;
    cpu_ms = cpu_ms;
    max_request_body_bytes = max_request;
    max_response_body_bytes = max_response;
    max_streamed_bytes = max_streamed;
  })

-- A `Content-Length`: a non-negative integer, or any other number.
pub data ContentLength : Type 0 where
  malformed : ContentLength
  declared : (bytes : ℕ) → ContentLength

pub data Read : Type 0 where
  chunk : (bytes : Bytes) → Read
  failed : Read

-- How the reading of a body ends, and whether it cancelled the stream.
pub data Body : Type 0 where
  accepted : (bytes : Bytes) → Body
  rejected : ErrorCode → (cancelled : Bool) → Body
  stream_failed : Body

abbrev pub join : List Bytes → Bytes
join [] = []
join (bytes ∷ chunks) = bytes ++ join chunks

-- The `while (true)`, with the chunks pushed so far, and the copying after it.
unfoldable pub read_body : (max_bytes total_bytes : ℕ) (chunks : List Bytes) → List Read → Body
read_body max_bytes total_bytes chunks [] = Body.accepted (join chunks)
read_body max_bytes total_bytes chunks (Read.failed ∷ reads) = Body.stream_failed
read_body max_bytes total_bytes chunks (Read.chunk bytes ∷ reads) =
    let total = total_bytes + length bytes in
    let rest = read_body max_bytes total (chunks ++ bytes ∷ []) reads in
    if ltb max_bytes total then Body.rejected ErrorCode.payload_too_large true else rest

abbrev read_stream : (max_bytes : ℕ) → Option (List Read) → Body
read_stream max_bytes none = Body.accepted []
read_stream max_bytes (some reads) = read_body max_bytes 0 [] reads

abbrev pub is_given : Option (List Read) → Bool
is_given none = false
is_given (some reads) = true

-- `validateRequestBody`, of a stream that nobody has locked.
unfoldable pub validate_request_body : Enforcer → Option ContentLength → Option (List Read) → Body
validate_request_body e none stream = read_stream e.max_request_body_bytes stream
validate_request_body e (some ContentLength.malformed) stream =
    Body.rejected ErrorCode.validation_failed false
validate_request_body e (some (ContentLength.declared bytes)) stream =
    if ltb e.max_request_body_bytes bytes
    then Body.rejected ErrorCode.payload_too_large (is_given stream)
    else read_stream e.max_request_body_bytes stream

-- What a `pull` of the wrapped response makes of the source's read; `none` is its end.
pub data Pulled : Type 0 where
  enqueued : Bytes → Pulled
  closed : Pulled
  errored : ErrorCode → Pulled
  source_failed : Pulled

unfoldable pub pull : (max_bytes emitted_bytes : ℕ) → Option Read → Pulled × ℕ
pull max_bytes emitted_bytes none = (Pulled.closed, emitted_bytes)
pull max_bytes emitted_bytes (some Read.failed) = (Pulled.source_failed, emitted_bytes)
pull max_bytes emitted_bytes (some (Read.chunk bytes)) =
    let emitted = emitted_bytes + length bytes in
    (
      if ltb max_bytes emitted
          then Pulled.errored ErrorCode.payload_too_large
          else Pulled.enqueued bytes,
      emitted,
    )

-- What a reader of the wrapped stream gets, up to its end: the chunks and how the stream ends.
unfoldable pub wrapped : (max_bytes emitted_bytes : ℕ) → List Read → List Bytes × Pulled
wrapped max_bytes emitted_bytes [] = ([], (pull max_bytes emitted_bytes none).0)
wrapped max_bytes emitted_bytes (read ∷ reads) =
    let (pulled, emitted) = pull max_bytes emitted_bytes (some read) in
    let (chunks, end) = wrapped max_bytes emitted reads in
    elim pulled [
      | Pulled.enqueued bytes ↦ (bytes ∷ chunks, end)
      | Pulled.closed ↦ ([], Pulled.closed)
      | Pulled.errored code ↦ ([], Pulled.errored code)
      | Pulled.source_failed ↦ ([], Pulled.source_failed)
    ]

unfoldable pub wrap_response_stream : Enforcer → List Read → List Bytes × Pulled
wrap_response_stream e reads = wrapped e.max_streamed_bytes 0 reads

unfoldable pub check_cpu_limit : Enforcer → Given → Result (Unit {0})
check_cpu_limit e Given.no_number = err ErrorCode.validation_failed
check_cpu_limit e Given.below_zero = err ErrorCode.validation_failed
check_cpu_limit e (Given.whole cpu_time_ms) = throw_if (leb e.cpu_ms cpu_time_ms) ErrorCode.timeout
