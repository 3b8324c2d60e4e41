-- ===== src/Gateway/RateLimiter/Timing.antt =====
-- apps/gateway/rate-limiter.ts: the times that a decision tells are exact.
use railfog.Prelude.{
  ℕ, ◌+◌, ◌-◌, ◌*◌, ◌≤◌, ◌<◌, ◌≡◌, ◌↔◌, refl, ◌∙◌, ap, Option, none, some, Text, arith, leb,
  find_entry, find_entry-put_entry, text_eq_refl, div_ceil_le, Bool-cases, inl, inr,
}
use railfog.Gateway.RateLimiter.{
  RateLimitScope, BucketConfig, bucket_key, BucketState, Buckets, refill, reset_after, decide,
  check,
}

-- The tokens that a request at `now` finds.
abbrev pub tokens_at : BucketConfig → RateLimitScope → Text → (now : ℕ) → Buckets → ℕ
tokens_at config scope key now buckets =
    (refill config now (find_entry (bucket_key scope key) buckets)).tokens

decide-tokens :
    (config : BucketConfig) (b : BucketState)
    → let (decision, b') = decide config b in
      (b'.last_refill_time ≡ b.last_refill_time)
      × (decision.reset_ms ≡ reset_after config b'.tokens)
      × (decision.allowed ≡ leb 1000 b.tokens)
unfolding decide
decide-tokens config b = elim (Bool-cases (leb 1000 b.tokens)) [
  | inl enough ↦ rw (enough, decide) (refl, refl, refl)
  | inr short ↦ rw (short, decide) (refl, refl, refl)
]

check-bucket :
    (configs : RateLimitScope → BucketConfig) (scope : RateLimitScope) (key : Text) (now : ℕ)
    (buckets : Buckets)
    → find_entry (bucket_key scope key) (check configs scope key now buckets).1
      ≡ some
          (decide
            (configs scope)
            (refill (configs scope) now (find_entry (bucket_key scope key) buckets))).1
unfolding check
check-bucket configs scope key now buckets =
    find_entry-put_entry (bucket_key scope key) (bucket_key scope key) _ buckets
    ∙ rw (text_eq_refl (bucket_key scope key))

check-decision :
    (configs : RateLimitScope → BucketConfig) (scope : RateLimitScope) (key : Text) (now : ℕ)
    (buckets : Buckets)
    → (check configs scope key now buckets).0
      ≡ (decide
          (configs scope)
          (refill (configs scope) now (find_entry (bucket_key scope key) buckets))).0
unfolding check
check-decision configs scope key now buckets = refl

refill-time :
    (config : BucketConfig) (now : ℕ) (o : Option BucketState)
    → (refill config now o).last_refill_time ≡ now
unfolding refill
refill-time config now none = refl
refill-time config now (some b) = refl

filled :
    (config : BucketConfig) (now later : ℕ) (b : BucketState)
    → 0 < config.rate
    → b.last_refill_time ≡ now
    → ((refill config (now + later) (some b)).tokens ≡ config.burst * 1000)
      ↔ (reset_after config b.tokens ≤ later)
unfolding refill
filled config now later b rate at =
    let (to, from) = div_ceil_le (config.burst * 1000 - b.tokens) config.rate later rate in
    let gain : config.rate * (now + later - b.last_refill_time) ≡ later * config.rate =
      ap (λ x. config.rate * x) {y = later} (omega (arith, at)) ∙ omega arith in
    (λ full. from (ground (arith, gain)), λ waited. ground (arith, gain, to))

-- For a rate above 0, the `resetMs` of a decision, allowed or not, is exact: if nothing else is
-- asked for the key, its bucket is full again after so many milliseconds or more, and not before.
pub reset_ms_exact :
    (configs : RateLimitScope → BucketConfig) (scope : RateLimitScope) (key : Text) (now later : ℕ)
    (buckets : Buckets)
    → 0 < (configs scope).rate
    → let (decision, buckets') = check configs scope key now buckets in
      (tokens_at (configs scope) scope key (now + later) buckets' ≡ (configs scope).burst * 1000)
      ↔ (decision.reset_ms ≤ later)
reset_ms_exact configs scope key now later buckets rate =
    let b = refill (configs scope) now (find_entry (bucket_key scope key) buckets) in
    let (stamp, told, _) = decide-tokens (configs scope) b in
    let (to, from) =
      filled (configs scope) now later (decide (configs scope) b).1 rate
        (stamp ∙ refill-time (configs scope) now (find_entry (bucket_key scope key) buckets)) in
    rw
      (
        tokens_at,
        check-bucket configs scope key now buckets,
        check-decision configs scope key now buckets,
        told,
      )
      (to, from)
