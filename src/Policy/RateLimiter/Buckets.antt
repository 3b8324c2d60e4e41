-- ===== src/Policy/RateLimiter/Buckets.antt =====
-- packages/policy/rate-limiter.ts: whose bucket `consume` changes, and what it admits over time.
use railfog.Prelude.{
  mul-add, sym, subst, text_eq_refl, text_eq-false, ℕ, ◌+◌, ◌-◌, ◌*◌, ◌≤◌, ◌≡◌, refl, ◌∙◌, ap,
  Option, none, some, List, [], ◌∷◌, Text, arith, if◌then◌else◌, find_entry, find_entry-put_entry,
}
use railfog.Policy.RateLimiter.{
  Scope, Tier, rate_limit_tiers, bucket_key, Bucket, Limiter, replenish, take_token, consume,
}

bucket_key_inj :
    (scope scope' : Scope) (key key' : Text)
    → bucket_key scope key ≡ bucket_key scope' key'
    → (scope ≡ scope') × (key ≡ key')
unfolding bucket_key
bucket_key_inj Scope.ip Scope.ip key key' e = (refl, cc)
bucket_key_inj Scope.identity Scope.identity key key' e = (refl, cc)
bucket_key_inj Scope.project Scope.project key key' e = (refl, cc)
bucket_key_inj Scope.ip Scope.identity key key' e = absurd (grind arith)
bucket_key_inj Scope.identity Scope.ip key key' e = absurd (grind arith)
bucket_key_inj Scope.ip Scope.project key key' e = absurd (grind arith)
bucket_key_inj Scope.project Scope.ip key key' e = absurd (grind arith)
bucket_key_inj Scope.identity Scope.project key key' e = absurd (grind arith)
bucket_key_inj Scope.project Scope.identity key key' e = absurd (grind arith)

-- The bucket that belongs to a scope and a key.
abbrev pub bucket_of : Scope → Text → Limiter → Option Bucket
bucket_of scope key s = find_entry (bucket_key scope key) s.buckets

-- A request leaves the bucket of every other pair of scope and key as it was.
pub consume_isolated :
    (scope scope' : Scope) (key key' : Text) (now : ℕ) (s : Limiter)
    → ¬ ((scope ≡ scope') × (key ≡ key'))
    → bucket_of scope' key' (consume key scope now s).1 ≡ bucket_of scope' key' s
unfolding consume
consume_isolated scope scope' key key' now s differ =
    find_entry-put_entry (bucket_key scope key) (bucket_key scope' key') _ s.buckets
    ∙ rw (text_eq-false (λ e. differ (bucket_key_inj scope scope' key key' e)))

-- How many of the requests, made for one key at these times, are admitted.
pub admitted : Text → Scope → List ℕ → Limiter → ℕ
admitted key scope [] s = 0
admitted key scope (t ∷ ts) s =
    let (result, s') = consume key scope t s in
    (if result.allowed then 1 else 0) + admitted key scope ts s'

pub consume-bucket :
    (key : Text) (scope : Scope) (now : ℕ) (s : Limiter)
    → bucket_of scope key (consume key scope now s).1
      ≡ some
          (take_token
            (rate_limit_tiers scope)
            now
            (replenish (rate_limit_tiers scope) now (bucket_of scope key s))).1
unfolding consume
consume-bucket key scope now s =
    find_entry-put_entry _ _ _ s.buckets ∙ rw (text_eq_refl (bucket_key scope key))

-- Ascending times between `lo` and `hi`.
abbrev pub Within : ℕ → ℕ → List ℕ → Type 0
Within lo hi [] = lo ≤ hi
Within lo hi (t ∷ ts) = (lo ≤ t) × Within t hi ts

-- What a request takes from the bucket is what it admits.
take_token-spends :
    (tier : Tier) (now k : ℕ)
    → let (result, bucket) = take_token tier now k in
      (1000 * (if result.allowed then 1 else 0) + bucket.tokens ≡ k)
      × (bucket.last_replenished_at ≡ now)
unfolding take_token
take_token-spends tier now k = ground arith

replenish_capped :
    (tier : Tier) (now : ℕ) (o : Option Bucket) → replenish tier now o ≤ 1000 * tier.burst
unfolding replenish
replenish_capped tier now none = ground arith
replenish_capped tier now (some b) = ground arith

pub consume-result :
    (key : Text) (scope : Scope) (now : ℕ) (s : Limiter)
    → (consume key scope now s).0
      ≡ (take_token
          (rate_limit_tiers scope)
          now
          (replenish (rate_limit_tiers scope) now (bucket_of scope key s))).0
unfolding consume
consume-result key scope now s = refl

Within-le : (lo hi : ℕ) (ts : List ℕ) → Within lo hi ts → lo ≤ hi
Within-le lo hi [] w = w
Within-le lo hi (t ∷ ts) (le, w) = omega (arith, le, Within-le t hi ts w)

mul_gap : (r a b c : ℕ) → a ≤ b → b ≤ c → r * (b - a) + r * (c - b) ≡ r * (c - a)
mul_gap r a b c ab bc = sym (mul-add r (b - a) (c - b)) ∙ ap (λ x. r * x) (omega (arith, ab, bc))

replenish_gains :
    (tier : Tier) (now : ℕ) (b : Bucket)
    → replenish tier now (some b) ≤ b.tokens + tier.rate * (now - b.last_replenished_at)
unfolding replenish
replenish_gains tier now b = ground arith

-- One request and what is admitted afterwards, by the tokens that the request finds.
admitted_step :
    (key : Text) (scope : Scope) (hi t : ℕ) (ts : List ℕ) (s : Limiter)
    → ((b : Bucket)
        → b.last_replenished_at ≡ t
        → bucket_of scope key (consume key scope t s).1 ≡ some b
        → 1000 * admitted key scope ts (consume key scope t s).1
          ≤ b.tokens + (rate_limit_tiers scope).rate * (hi - t))
    → 1000 * admitted key scope (t ∷ ts) s
      ≤ replenish (rate_limit_tiers scope) t (bucket_of scope key s)
        + (rate_limit_tiers scope).rate * (hi - t)
unfolding admitted
admitted_step key scope hi t ts s later =
    let (spends, stamped) =
      take_token-spends (rate_limit_tiers scope) t
        (replenish (rate_limit_tiers scope) t (bucket_of scope key s)) in
    rw (consume-result key scope t s)
      (omega (arith, spends, later _ stamped (consume-bucket key scope t s)))

admitted_from :
    (key : Text) (scope : Scope) (hi : ℕ) (ts : List ℕ) (b : Bucket) (s : Limiter)
    → bucket_of scope key s ≡ some b
    → Within b.last_replenished_at hi ts
    → 1000 * admitted key scope ts s
      ≤ b.tokens + (rate_limit_tiers scope).rate * (hi - b.last_replenished_at)
unfolding admitted
admitted_from key scope hi [] b s e w = ground arith
admitted_from key scope hi (t ∷ ts) b s e (le, w) = omega (
  arith,
  admitted_step key scope hi t ts s (λ b' at found.
      subst
        (λ x.
          1000 * admitted key scope ts (consume key scope t s).1
          ≤ b'.tokens + (rate_limit_tiers scope).rate * (hi - x))
        at (admitted_from key scope hi ts b' (consume key scope t s).1 found (rw at w))),
  ap (λ o. replenish (rate_limit_tiers scope) t o) e,
  replenish_gains (rate_limit_tiers scope) t b,
  mul_gap (rate_limit_tiers scope).rate b.last_replenished_at t hi le (Within-le t hi ts w),
)

-- Over any stretch of time, whatever the limiter's state, one key gets at most the tier's burst
-- and what its rate replenishes in the stretch: of requests made at ascending times between `lo`
-- and `hi`, at most `burst + rate * (hi - lo) / 1000` are admitted.
pub admitted_bounded :
    (key : Text) (scope : Scope) (lo hi : ℕ) (ts : List ℕ) (s : Limiter)
    → Within lo hi ts
    → let tier = rate_limit_tiers scope in
      1000 * admitted key scope ts s ≤ 1000 * tier.burst + tier.rate * (hi - lo)
unfolding admitted
admitted_bounded key scope lo hi [] s w = ground arith
admitted_bounded key scope lo hi (t ∷ ts) s (le, w) = omega (
  arith,
  admitted_step key scope hi t ts s (λ b' at found.
      subst
        (λ x.
          1000 * admitted key scope ts (consume key scope t s).1
          ≤ b'.tokens + (rate_limit_tiers scope).rate * (hi - x))
        at (admitted_from key scope hi ts b' (consume key scope t s).1 found (rw at w))),
  replenish_capped (rate_limit_tiers scope) t (bucket_of scope key s),
  mul_gap (rate_limit_tiers scope).rate lo t hi le (Within-le t hi ts w),
)
