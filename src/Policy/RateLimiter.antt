-- ===== src/Policy/RateLimiter.antt =====
-- packages/policy/rate-limiter.ts. A bucket's tokens are counted in thousandths, so that a
-- replenishment of `rate` tokens a second for a whole number of milliseconds is exact; the source
-- counts them in floating point. `now - last` stops at 0, as the source's `Math.max(0, …)` does.
pub mod Buckets
pub mod Waiting
pub mod Slots
pub mod Examples
use railfog.Prelude.{
  div_ceil, ℕ, ◌+◌, ◌-◌, ◌*◌, ◌/◌, min, Bool, true, false, not, Option, none, some, List, [], ◌∷◌,
  ◌++◌, Text, ltb, leb, if◌then◌else◌, or_default, find_entry, put_entry, drop_entry, filterb,
  length,
}

pub data Scope : Type 0 where
  ip identity project : Scope

pub record Tier : Type 0 where
  pub rate : ℕ
  pub burst : ℕ

abbrev pub rate_limit_tiers : Scope → Tier
rate_limit_tiers Scope.ip = record { rate = 10; burst = 20 }
rate_limit_tiers Scope.identity = record { rate = 50; burst = 100 }
rate_limit_tiers Scope.project = record { rate = 200; burst = 400 }

abbrev pub scope_name : Scope → Text
scope_name Scope.ip = b'i' ∷ b'p' ∷ []
scope_name Scope.identity = b'i' ∷ b'd' ∷ b'e' ∷ b'n' ∷ b't' ∷ b'i' ∷ b't' ∷ b'y' ∷ []
scope_name Scope.project = b'p' ∷ b'r' ∷ b'o' ∷ b'j' ∷ b'e' ∷ b'c' ∷ b't' ∷ []

-- `${scope}:${key}`
unfoldable pub bucket_key : Scope → Text → Text
bucket_key scope key = scope_name scope ++ b':' ∷ key

pub record Bucket : Type 0 where
  -- Thousandths of a token.
  pub tokens : ℕ
  pub last_replenished_at : ℕ

pub record Limiter : Type 0 where
  pub buckets : List (Text × Bucket)
  pub concurrency_counts : List (Text × ℕ)

pub record RateLimitResult : Type 0 where
  pub allowed : Bool
  pub remaining : ℕ
  pub retry_after_seconds : Option ℕ

-- The tokens at `now`, before the request is counted.
unfoldable pub replenish : Tier → ℕ → Option Bucket → ℕ
replenish tier now none = tier.burst * 1000
replenish tier now (some b) =
    min (tier.burst * 1000) (b.tokens + tier.rate * (now - b.last_replenished_at))

-- What `consume` makes of the tokens at `now`.
unfoldable pub take_token : Tier → ℕ → ℕ → RateLimitResult × Bucket
take_token tier now tokens =
    if leb 1000 tokens
    then (
      record { allowed = true; remaining = (tokens - 1000) / 1000; retry_after_seconds = none },
      record { tokens = tokens - 1000; last_replenished_at = now },
    )
    else (
      record {
        allowed = false;
        remaining = tokens / 1000;
        retry_after_seconds = some (div_ceil (1000 - tokens) (1000 * tier.rate));
      },
      record { tokens = tokens; last_replenished_at = now },
    )

unfoldable pub consume : Text → Scope → (now : ℕ) → Limiter → RateLimitResult × Limiter
consume key scope now s =
    let tier = rate_limit_tiers scope in
    let name = bucket_key scope key in
    let (result, bucket) = take_token tier now (replenish tier now (find_entry name s.buckets)) in
    (result, record s { buckets = put_entry name bucket s.buckets })

pub record ConcurrencyResult : Type 0 where
  pub allowed : Bool
  pub active : ℕ

unfoldable pub acquire_concurrency : Text → ℕ → Limiter → ConcurrencyResult × Limiter
acquire_concurrency fn max_concurrency s =
    let current = or_default (find_entry fn s.concurrency_counts) 0 in
    if ltb current max_concurrency
    then (
      record { allowed = true; active = current + 1 },
      record s { concurrency_counts = put_entry fn (current + 1) s.concurrency_counts },
    )
    else (record { allowed = false; active = current }, s)

unfoldable pub release_concurrency : Text → Limiter → Limiter
release_concurrency fn s =
    let current = or_default (find_entry fn s.concurrency_counts) 0 in
    if ltb 1 current
    then record s { concurrency_counts = put_entry fn (current - 1) s.concurrency_counts }
    else record s { concurrency_counts = drop_entry fn s.concurrency_counts }

-- `now - last > maxIdleMs`
abbrev pub is_idle : (max_idle_ms now : ℕ) → Text × Bucket → Bool
is_idle max_idle_ms now (name, b) = ltb (b.last_replenished_at + max_idle_ms) now

unfoldable pub prune : (max_idle_ms now : ℕ) → Limiter → ℕ × Limiter
prune max_idle_ms now s =
    let dropped = filterb (is_idle max_idle_ms now) s.buckets in
    (
      length dropped,
      record s { buckets = filterb (λ e. not (is_idle max_idle_ms now e)) s.buckets },
    )
