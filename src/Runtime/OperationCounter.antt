-- ===== src/Runtime/OperationCounter.antt =====
-- runtime/limits/operation-counter.ts. A string is the list of its UTF-16 code units, and the length
-- of its UTF-8 encoding counts a surrogate pair as four bytes and a lone surrogate as three.
pub mod Budgets
pub mod Logs
pub mod Examples
use railfog.Prelude.{
  is_digit, ℕ, zero, suc, ◌+◌, ◌-◌, ◌*◌, ◌/◌, Bool, true, false, not, ◌&&◌, Option, none, some,
  List, [], ◌∷◌, ◌++◌, Text, codes, ltb, leb, if◌then◌else◌, or_default, length, take, all,
}
use railfog.Errors.{Result, ErrorCode, ok, err}

pub record Limits : Type 0 where
  pub max_kv_ops : ℕ
  pub max_object_ops : ℕ
  pub max_queue_ops : ℕ
  pub max_log_bytes : ℕ
  pub max_call_depth : ℕ

abbrev pub default_limits : Limits
default_limits = record {
  max_kv_ops = 1_000;
  max_object_ops = 100;
  max_queue_ops = 100;
  max_log_bytes = 64_000;
  max_call_depth = 8;
}

pub record Tracker : Type 0 where
  pub kv_ops : ℕ
  pub object_ops : ℕ
  pub queue_ops : ℕ
  pub current_log_bytes : ℕ
  pub log_truncated : Bool

abbrev pub new_tracker : Tracker
new_tracker = record {
  kv_ops = 0;
  object_ops = 0;
  queue_ops = 0;
  current_log_bytes = 0;
  log_truncated = false;
}

unfoldable pub record_kv_op : Limits → Tracker → Result (Unit {0}) × Tracker
record_kv_op limits t =
    if leb limits.max_kv_ops t.kv_ops
    then (err ErrorCode.rate_limited, t)
    else (ok tt, record t { kv_ops = suc t.kv_ops })

unfoldable pub record_object_op : Limits → Tracker → Result (Unit {0}) × Tracker
record_object_op limits t =
    if leb limits.max_object_ops t.object_ops
    then (err ErrorCode.rate_limited, t)
    else (ok tt, record t { object_ops = suc t.object_ops })

unfoldable pub record_queue_op : Limits → Tracker → Result (Unit {0}) × Tracker
record_queue_op limits t =
    if leb limits.max_queue_ops t.queue_ops
    then (err ErrorCode.rate_limited, t)
    else (ok tt, record t { queue_ops = suc t.queue_ops })

abbrev pub is_high_surrogate : ℕ → Bool
is_high_surrogate c = leb 55_296 c && leb c 56_319

abbrev is_low_surrogate : ℕ → Bool
is_low_surrogate c = leb 56_320 c && leb c 57_343

abbrev unit_bytes : ℕ → ℕ
unit_bytes c = if ltb c 128 then 1 else (if ltb c 2_048 then 2 else 3)

abbrev starts_low : Text → Bool
starts_low [] = false
starts_low (c ∷ cs) = is_low_surrogate c

-- `new TextEncoder().encode(str).byteLength`: of a pair, the first unit counts 1 and the second 3.
unfoldable pub utf8_length : Text → ℕ
utf8_length [] = 0
utf8_length (c ∷ cs) =
    (if is_high_surrogate c && starts_low cs then 1 else unit_bytes c) + utf8_length cs

-- `str.charCodeAt(n)`, 0 out of range.
abbrev unit_at : Text → ℕ → ℕ
unit_at [] n = 0
unit_at (c ∷ cs) zero = c
unit_at (c ∷ cs) (suc n) = unit_at cs n

-- Where a slice that would end between the units of a pair ends.
abbrev pub slice_end : Text → ℕ → ℕ
slice_end candidate mid =
    if ltb 0 mid && ltb mid (length candidate)
    then (if is_high_surrogate (unit_at candidate (mid - 1)) then mid - 1 else mid)
    else mid

-- One turn of the `while (low <= high)`, with `high` counted one higher, as it may pass below 0;
-- `again` is the next turn.
unfoldable pub search_turn : (again : ℕ → ℕ → ℕ → ℕ) → Text → (max_bytes low high best : ℕ) → ℕ
search_turn again candidate max_bytes low high best =
    let mid = (low + (high - 1)) / 2 in
    let end = slice_end candidate mid in
    let fits = leb (utf8_length (take end candidate)) max_bytes in
    let right = again (mid + 1) high (if ltb best end then end else best) in
    let left = again low end best in if ltb low high then (if fits then right else left) else best

-- At most `fuel` turns.
unfoldable pub search : (fuel : ℕ) → Text → (max_bytes low high best : ℕ) → ℕ
search zero candidate max_bytes low high best = best
search (suc f) candidate max_bytes low high best =
    search_turn (λ low' high' best'. search f candidate max_bytes low' high' best') candidate
      max_bytes low high best

-- The interval shrinks in every turn, so that as many turns as there are units, and two, are enough.
unfoldable pub truncate_to_utf8_bytes : Text → ℕ → Text
truncate_to_utf8_bytes str zero = []
truncate_to_utf8_bytes str (suc n) =
    let candidate = take (suc n) str in
    if leb (utf8_length candidate) (suc n)
    then candidate
    else take (search (suc (suc (length candidate))) candidate (suc n) 0 (suc (length candidate)) 0)
        candidate

abbrev pub log_truncated_marker : Text
log_truncated_marker = codes "[LOG_TRUNCATED]"

pub record LogResult : Type 0 where
  pub output : Text
  pub truncated : Bool

unfoldable pub append_log : Limits → Text → Tracker → LogResult × Tracker
append_log limits chunk t =
    let total = t.current_log_bytes + utf8_length chunk in
    let slice = truncate_to_utf8_bytes chunk (limits.max_log_bytes - t.current_log_bytes) in
    if t.log_truncated
    then (record { output = []; truncated = true }, t)
    else (if leb total limits.max_log_bytes
        then (record { output = chunk; truncated = false }, record t { current_log_bytes = total })
        else (
          record { output = slice ++ log_truncated_marker; truncated = true },
          record t { current_log_bytes = limits.max_log_bytes; log_truncated = true },
        ))

-- `Number.parseInt(header, 10)`, on digits.
unfoldable pub parse_digits : (so_far : ℕ) → Text → ℕ
parse_digits so_far [] = so_far
parse_digits so_far (c ∷ cs) = parse_digits (so_far * 10 + (c - 48)) cs

-- A missing header and an empty one are the first hop.
unfoldable pub check_call_depth : Limits → Option Text → Result ℕ
check_call_depth limits none = ok 1
check_call_depth limits (some []) = ok 1
check_call_depth limits (some (c ∷ cs)) =
    let next_hop = parse_digits 0 (c ∷ cs) + 1 in
    if all is_digit (c ∷ cs)
    then (if ltb limits.max_call_depth next_hop
        then err ErrorCode.call_depth_exceeded
        else ok next_hop)
    else err ErrorCode.validation_failed
