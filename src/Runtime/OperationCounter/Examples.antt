-- ===== src/Runtime/OperationCounter/Examples.antt =====
-- runtime/limits/operation-counter.ts: the theorems at concrete trackers, and tests by evaluation.
use railfog.Prelude.{◌+◌, ◌≤◌, ◌≡◌, refl, some, [], ◌∷◌, codes}
use railfog.Errors.{ErrorCode, ok, err}
use railfog.Runtime.OperationCounter.{
  Limits, default_limits, new_tracker, truncate_to_utf8_bytes, utf8_length, search, search_turn,
  check_call_depth, parse_digits,
}
use railfog.Runtime.OperationCounter.Logs.{bytes_logged, log_bounded}

abbrev tight : Limits
tight = record {
  max_kv_ops = 1;
  max_object_ops = 0;
  max_queue_ops = 2;
  max_log_bytes = 4;
  max_call_depth = 8;
}

log_bounded_example :
    bytes_logged tight (codes "abc" ∷ codes "def" ∷ codes "g" ∷ []) new_tracker ≤ 4 + 15
log_bounded_example = log_bounded tight (codes "abc" ∷ codes "def" ∷ codes "g" ∷ [])

-- `a` and a pair of surrogates, cut to four bytes, leave the `a`.
pair_kept_whole : truncate_to_utf8_bytes (97 ∷ 55_357 ∷ 56_832 ∷ []) 4 ≡ 97 ∷ []
unfolding truncate_to_utf8_bytes search search_turn utf8_length
pair_kept_whole = refl

eighth_hop : check_call_depth default_limits (some (codes "7")) ≡ ok 8
unfolding check_call_depth parse_digits
eighth_hop = refl

ninth_hop : check_call_depth default_limits (some (codes "8")) ≡ err ErrorCode.call_depth_exceeded
unfolding check_call_depth parse_digits
ninth_hop = refl

no_number : check_call_depth default_limits (some (codes "1x")) ≡ err ErrorCode.validation_failed
unfolding check_call_depth parse_digits
no_number = refl
