-- ===== src/Gateway/RateLimiter.antt =====
-- apps/gateway/rate-limiter.ts. Tokens are counted in thousandths, exactly, where the source uses
-- floating point; a rate is above 0. `now - last` stops at 0, as the source's `Math.max(0, …)` does.
pub mod Timing
pub mod Examples
use railfog.Prelude.{
  ℕ, ◌+◌, ◌-◌, ◌*◌, ◌/◌, min, Bool, true, false, not, Option, none, some, List, [], ◌∷◌, ◌++◌, Text,
  ltb, leb, if◌then◌else◌, or_default, find_entry, put_entry, drop_entry, filterb, length, div_ceil,
}

pub data RateLimitScope : Type 0 where
  ip identity project : RateLimitScope

pub record BucketConfig : Type 0 where
  pub rate : ℕ
  pub burst : ℕ

abbrev pub default_rate_limits : RateLimitScope → BucketConfig
default_rate_limits RateLimitScope.ip = record { rate = 10; burst = 20 }
default_rate_limits RateLimitScope.identity = record { rate = 50; burst = 100 }
default_rate_limits RateLimitScope.project = record { rate = 200; burst = 400 }

-- The constructor: a scope without a configuration of its own has the default.
abbrev pub configure :
    (custom : RateLimitScope → Option BucketConfig) → RateLimitScope → BucketConfig
configure custom scope = or_default (custom scope) (default_rate_limits scope)

abbrev pub scope_name : RateLimitScope → Text
scope_name RateLimitScope.ip = b'i' ∷ b'p' ∷ []
scope_name RateLimitScope.identity = b'i' ∷ b'd' ∷ b'e' ∷ b'n' ∷ b't' ∷ b'i' ∷ b't' ∷ b'y' ∷ []
scope_name RateLimitScope.project = b'p' ∷ b'r' ∷ b'o' ∷ b'j' ∷ b'e' ∷ b'c' ∷ b't' ∷ []

unfoldable pub bucket_key : RateLimitScope → Text → Text
bucket_key scope key = scope_name scope ++ b':' ∷ key

pub record BucketState : Type 0 where
  -- Thousandths of a token.
  pub tokens : ℕ
  pub last_refill_time : ℕ
  pub last_access_time : ℕ

pub record RateLimitDecision : Type 0 where
  pub allowed : Bool
  pub remaining : ℕ
  pub limit : ℕ
  pub reset_ms : ℕ
  pub retry_after_seconds : Option ℕ

abbrev pub Buckets : Type 0
Buckets = List (Text × BucketState)

-- The bucket at `now`, before the request is counted.
unfoldable pub refill : BucketConfig → (now : ℕ) → Option BucketState → BucketState
refill config now none = record {
  tokens = config.burst * 1000;
  last_refill_time = now;
  last_access_time = now;
}
refill config now (some b) = record {
  tokens = min (config.burst * 1000) (b.tokens + config.rate * (now - b.last_refill_time));
  last_refill_time = now;
  last_access_time = now;
}

-- `Math.ceil(Math.max(0, (config.burst - tokens) / config.rate) * 1000)`
abbrev pub reset_after : BucketConfig → (tokens : ℕ) → ℕ
reset_after config tokens = div_ceil (config.burst * 1000 - tokens) config.rate

-- The end of `check`: what it decides and what the bucket is then.
unfoldable pub decide : BucketConfig → BucketState → RateLimitDecision × BucketState
decide config b =
    if leb 1000 b.tokens
    then (
      record {
        allowed = true;
        remaining = (b.tokens - 1000) / 1000;
        limit = config.burst;
        reset_ms = reset_after config (b.tokens - 1000);
        retry_after_seconds = none;
      },
      record b { tokens = b.tokens - 1000 },
    )
    else (
      record {
        allowed = false;
        remaining = 0;
        limit = config.burst;
        reset_ms = reset_after config b.tokens;
        retry_after_seconds = some (div_ceil (1000 - b.tokens) (1000 * config.rate));
      },
      b,
    )

unfoldable pub check :
    (configs : RateLimitScope → BucketConfig)
    → RateLimitScope
    → Text
    → (now : ℕ) → Buckets
    → RateLimitDecision × Buckets
check configs scope key now buckets =
    let name = bucket_key scope key in
    let (decision, b) =
      decide (configs scope) (refill (configs scope) now (find_entry name buckets)) in
    (decision, put_entry name b buckets)

unfoldable pub reset : RateLimitScope → Text → Buckets → Buckets
reset scope key = drop_entry (bucket_key scope key)

-- `now - lastAccessTime > maxIdleMs`
abbrev pub is_idle : (max_idle_ms now : ℕ) → Text × BucketState → Bool
is_idle max_idle_ms now (name, b) = ltb (b.last_access_time + max_idle_ms) now

unfoldable pub prune : (max_idle_ms now : ℕ) → Buckets → ℕ × Buckets
prune max_idle_ms now buckets = (
  length (filterb (is_idle max_idle_ms now) buckets),
  filterb (λ e. not (is_idle max_idle_ms now e)) buckets,
)
