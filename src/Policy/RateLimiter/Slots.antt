-- ===== src/Policy/RateLimiter/Slots.antt =====
-- packages/policy/rate-limiter.ts: the slots of concurrent executions, and the pruning of buckets.
use railfog.Policy.RateLimiter.Buckets.{bucket_of, consume-result}
use railfog.Prelude.{
  find_entry-filterb, not, sym, keep_entry, DistinctKeys, text_eq_iff, ◌&&◌, text_eq, ℕ, ◌+◌, ◌-◌,
  ◌≤◌, ◌≡◌, refl, true, Option, none, some, Text, arith, or_default, find_entry, put_entry,
  drop_entry, find_entry-put_entry, find_entry-drop_entry, text_eq_refl, ltb, if◌then◌else◌,
  Bool-cases, inl, inr, List,
}
use railfog.Policy.RateLimiter.{
  bucket_key, not, consume, rate_limit_tiers, replenish, Scope, Limiter, Bucket,
  acquire_concurrency, release_concurrency, prune, is_idle,
}

-- The executions of a function that hold a slot.
abbrev pub active_of : Text → Limiter → ℕ
active_of fn s = or_default (find_entry fn s.concurrency_counts) 0

active-put :
    (fn other : Text) (n : ℕ) (m : List (Text × ℕ))
    → or_default (find_entry other (put_entry fn n m)) 0
      ≡ (if text_eq fn other then n else or_default (find_entry other m) 0)
active-put fn other n m = ground (arith, find_entry-put_entry fn other n m)

active-drop :
    (fn other : Text) (m : List (Text × ℕ))
    → or_default (find_entry other (drop_entry fn m)) 0
      ≡ (if text_eq fn other then 0 else or_default (find_entry other m) 0)
active-drop fn other m = ground (arith, find_entry-drop_entry fn other m)

-- A slot is granted exactly when fewer than the maximum are held; then one more is held, and the
-- answer tells how many. A refusal changes nothing. No other function's slots change.
pub acquire_concurrency-counts :
    (fn other : Text) (max_concurrency : ℕ) (s : Limiter)
    → let (result, s') = acquire_concurrency fn max_concurrency s in
      (result.allowed ≡ ltb (active_of fn s) max_concurrency)
      × (result.active ≡ active_of fn s')
      × (active_of other s'
          ≡ active_of other s + (if text_eq fn other && result.allowed then 1 else 0))
unfolding acquire_concurrency
acquire_concurrency-counts fn other max_concurrency s =
    elim (Bool-cases (ltb (active_of fn s) max_concurrency)) [
      | inl free ↦
          rw (free, acquire_concurrency)
            (
              refl,
              ground (
                arith,
                active-put fn fn (active_of fn s + 1) s.concurrency_counts,
                active-put fn other (active_of fn s + 1) s.concurrency_counts,
                text_eq_refl fn,
                text_eq_iff fn other,
              ),
              ground (
                arith,
                active-put fn fn (active_of fn s + 1) s.concurrency_counts,
                active-put fn other (active_of fn s + 1) s.concurrency_counts,
                text_eq_refl fn,
                text_eq_iff fn other,
              ),
            )
      | inr full ↦ rw (full, acquire_concurrency) (refl, refl, ground arith)
    ]

-- A release gives back one slot, stops at none, and changes no other function's slots.
pub release_concurrency-counts :
    (fn other : Text) (s : Limiter)
    → active_of other (release_concurrency fn s)
      ≡ active_of other s - (if text_eq fn other then 1 else 0)
unfolding release_concurrency
release_concurrency-counts fn other s = elim (Bool-cases (ltb 1 (active_of fn s))) [
  | inl many ↦
      rw (many, release_concurrency)
        (ground (
          arith,
          active-put fn other (active_of fn s - 1) s.concurrency_counts,
          text_eq_iff fn other,
        ))
  | inr few ↦
      rw (few, release_concurrency)
        (ground (arith, active-drop fn other s.concurrency_counts, text_eq_iff fn other))
]

replenish_idle :
    (scope : Scope) (t now max_idle_ms : ℕ) (name : Text) (b : Bucket)
    → 2000 ≤ max_idle_ms
    → now ≤ t
    → is_idle max_idle_ms now (name, b) ≡ true
    → replenish (rate_limit_tiers scope) t (some b) ≡ replenish (rate_limit_tiers scope) t none
unfolding replenish
replenish_idle Scope.ip t now max_idle_ms name b long later idle = ground arith
replenish_idle Scope.identity t now max_idle_ms name b long later idle = ground arith
replenish_idle Scope.project t now max_idle_ms name b long later idle = ground arith

replenish_kept :
    (scope : Scope) (t now max_idle_ms : ℕ) (name : Text) (o : Option Bucket)
    → 2000 ≤ max_idle_ms
    → now ≤ t
    → replenish
        (rate_limit_tiers scope)
        t
        (keep_entry (λ e. not (is_idle max_idle_ms now e)) name o)
      ≡ replenish (rate_limit_tiers scope) t o
replenish_kept scope t now max_idle_ms name none long later = refl
replenish_kept scope t now max_idle_ms name (some b) long later =
    elim (Bool-cases (is_idle max_idle_ms now (name, b))) [
      | inl idle ↦ rw idle (sym (replenish_idle scope t now max_idle_ms name b long later idle))
      | inr busy ↦ rw busy
    ]

-- Pruning forgets nothing that a later request could tell: in a `Map` of distinct keys, where the
-- idle time that it allows is at least two seconds, the answer to a request made no earlier is the
-- one without the pruning.
pub prune_unobserved :
    (key : Text) (scope : Scope) (t now max_idle_ms : ℕ) (s : Limiter)
    → 2000 ≤ max_idle_ms
    → now ≤ t
    → DistinctKeys s.buckets
    → (consume key scope t (prune max_idle_ms now s).1).0 ≡ (consume key scope t s).0
unfolding prune
prune_unobserved key scope t now max_idle_ms s long later distinct = rw (
  consume-result key scope t (prune max_idle_ms now s).1,
  consume-result key scope t s,
  find_entry-filterb (λ e. not (is_idle max_idle_ms now e)) (bucket_key scope key) s.buckets
      distinct,
  replenish_kept scope t now max_idle_ms (bucket_key scope key) (bucket_of scope key s) long later,
)
