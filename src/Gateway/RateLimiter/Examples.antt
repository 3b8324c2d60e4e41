-- ===== src/Gateway/RateLimiter/Examples.antt =====
-- apps/gateway/rate-limiter.ts: the theorems at concrete buckets, and tests by evaluation.
use railfog.Prelude.{
  ℕ, ◌+◌, ◌*◌, ◌≤◌, ◌≡◌, ◌↔◌, refl, Bool, true, false, Option, none, some, List, [], ◌∷◌, Text,
  codes, arith,
}
use railfog.Gateway.RateLimiter.{
  RateLimitScope, default_rate_limits, bucket_key, Buckets, refill, decide, check, reset, prune,
}

abbrev client : Text
client = codes "10.0.0.1"

abbrev drained : Buckets
drained =
    (
      bucket_key RateLimitScope.ip client,
      record { tokens = 500; last_refill_time = 5000; last_access_time = 5000 },
    )
    ∷ []

refused : (check default_rate_limits RateLimitScope.ip client 5000 drained).0 ≡ record {
  allowed = false;
  remaining = 0;
  limit = 20;
  reset_ms = 1950;
  retry_after_seconds = some 1;
}
unfolding check decide refill bucket_key railfog.Prelude.find_entry railfog.Prelude.text_eq
refused = refl

pruned : (prune 60_000 66_000 drained).0 ≡ 1
unfolding prune
pruned = refl

forgotten : reset RateLimitScope.ip client drained ≡ []
unfolding reset railfog.Prelude.drop_entry railfog.Prelude.text_eq bucket_key
forgotten = refl
