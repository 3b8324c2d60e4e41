-- ===== src/Policy/RateLimiter/Examples.antt =====
-- packages/policy/rate-limiter.ts: the theorems at concrete limiters, and tests by evaluation.
use railfog.Prelude.{
  ℕ, ◌*◌, ◌+◌, ◌-◌, ◌≤◌, ◌≡◌, ◌↔◌, refl, Bool, true, false, Option, none, some, List, [], ◌∷◌, Text,
  codes, arith,
}
use railfog.Policy.RateLimiter.{Scope, bucket_key, Limiter, replenish, take_token, consume}
use railfog.Policy.RateLimiter.Buckets.{admitted, admitted_bounded}

abbrev client : Text
client = codes "10.0.0.1"

abbrev fresh : Limiter
fresh = record { buckets = []; concurrency_counts = [] }

-- The client's bucket holds half a token since second 5.
abbrev drained : Limiter
drained = record {
  buckets = (bucket_key Scope.ip client, record { tokens = 500; last_replenished_at = 5000 }) ∷ [];
  concurrency_counts = (codes "f", 1) ∷ [];
}

first_request :
    (consume client Scope.ip 5000 fresh).0
    ≡ record { allowed = true; remaining = 19; retry_after_seconds = none }
unfolding consume take_token replenish railfog.Prelude.find_entry
first_request = refl

drained_request : (consume client Scope.ip 5000 drained).0.retry_after_seconds ≡ some 1
unfolding consume take_token replenish bucket_key railfog.Prelude.find_entry railfog.Prelude.text_eq
drained_request = refl

admitted_bounded_example :
    1000 * admitted client Scope.ip (5000 ∷ 5001 ∷ 5100 ∷ []) drained ≤ 1000 * 20 + 10 * 100
admitted_bounded_example =
    admitted_bounded client Scope.ip 5000 5100 (5000 ∷ 5001 ∷ 5100 ∷ []) drained
      (omega arith, (omega arith, (omega arith, omega arith)))
