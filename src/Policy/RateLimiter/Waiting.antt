-- ===== src/Policy/RateLimiter/Waiting.antt =====
-- packages/policy/rate-limiter.ts: the time to wait that a rejection names.
use railfog.Prelude.{
  div_ceil_le, ◌<◌, sym, ℕ, ◌+◌, ◌-◌, ◌*◌, ◌≤◌, ◌≡◌, ◌↔◌, ◌∙◌, ap, true, some, Text, arith,
  Bool-cases, inl, inr, leb,
}
use railfog.Policy.RateLimiter.{
  div_ceil, Scope, Tier, rate_limit_tiers, Limiter, replenish, take_token, consume,
}
use railfog.Policy.RateLimiter.Buckets.{consume-bucket, consume-result}

IsOpen : Tier → Type 0
IsOpen tier = (0 < tier.rate) × (0 < tier.burst)

tiers-IsOpen : (scope : Scope) → IsOpen (rate_limit_tiers scope)
unfolding IsOpen
tiers-IsOpen Scope.ip = ground arith
tiers-IsOpen Scope.identity = ground arith
tiers-IsOpen Scope.project = ground arith

take_token-allowed : (tier : Tier) (now k : ℕ) → (take_token tier now k).0.allowed ≡ leb 1000 k
unfolding take_token
take_token-allowed tier now k = ground arith

take_token-told :
    (tier : Tier) (now r k : ℕ)
    → (take_token tier now k).0.retry_after_seconds ≡ some r
    → (k < 1000)
      × (r ≡ div_ceil (1000 - k) (1000 * tier.rate))
      × ((take_token tier now k).1 ≡ record { tokens = k; last_replenished_at = now })
unfolding take_token
take_token-told tier now r k e = elim (Bool-cases (leb 1000 k)) [
  | inl enough ↦ absurd (ground (arith, rw enough at e))
  | inr short ↦ (ground arith, ground (arith, rw short at e), rw short)
]

seconds_gain : (rate now n : ℕ) → rate * (now + 1000 * n - now) ≡ n * (1000 * rate)
seconds_gain rate now n = ap (λ x. rate * x) {y = 1000 * n} (omega arith) ∙ omega arith

waited :
    (tier : Tier) (now n k : ℕ)
    → IsOpen tier
    → k < 1000
    → (1000
        ≤ replenish tier (now + 1000 * n) (some (record { tokens = k; last_replenished_at = now })))
      ↔ (1000 - k ≤ n * (1000 * tier.rate))
unfolding replenish IsOpen
waited tier now n k (rate, burst) short = (
  λ h. ground (arith, seconds_gain tier.rate now n),
  λ h. ground (arith, seconds_gain tier.rate now n),
)

tier-retry :
    (tier : Tier) (now n r k : ℕ)
    → IsOpen tier
    → let (result, bucket) = take_token tier now k in
      result.retry_after_seconds ≡ some r
      → ((take_token tier
            (now + 1000 * n)
            (replenish tier (now + 1000 * n) (some bucket))).0.allowed
          ≡ true)
        ↔ (r ≤ n)
unfolding IsOpen
tier-retry tier now n r k opens e =
    let (short, told, kept) = take_token-told tier now r k e in
    let (to, from) = div_ceil_le (1000 - k) (1000 * tier.rate) n (omega (arith, opens.0)) in
    let (to', from') = waited tier now n k opens short in
    rw (kept, take_token-allowed)
      (λ h. ground (arith, to', from, told), λ h. ground (arith, from', to, told))

-- When a rejected request names the seconds to wait, waiting that long is enough, and waiting
-- fewer whole seconds is not: the next request for the key, `n` seconds later, is allowed exactly
-- when `n` is at least the number named.
pub retry_after_exact :
    (key : Text) (scope : Scope) (now n r : ℕ) (s : Limiter)
    → let (result, s') = consume key scope now s in
      result.retry_after_seconds ≡ some r
      → ((consume key scope (now + 1000 * n) s').0.allowed ≡ true) ↔ (r ≤ n)
retry_after_exact key scope now n r s e =
    rw
      (
        consume-result key scope (now + 1000 * n) (consume key scope now s).1,
        consume-bucket key scope now s,
      )
      (tier-retry (rate_limit_tiers scope) now n r _ (tiers-IsOpen scope)
        (sym (ap (λ x. x.retry_after_seconds) (consume-result key scope now s)) ∙ e))
