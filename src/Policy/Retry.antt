-- ===== src/Policy/Retry.antt =====
-- packages/policy/retry.ts. Sleeps are whole milliseconds; the random number generator is a field of
-- the policy. Of headers, a record is the list of its entries, and `Headers` is one whose names are
-- folded already.
pub mod Attempts
pub mod Examples
use railfog.Prelude.{
  length, ℕ, zero, suc, ◌+◌, ◌-◌, ◌*◌, min, max, Bool, true, false, ◌&&◌, ◌||◌, not, Option, none,
  some, List, [], ◌∷◌, map, Text, codes, text_eq, ltb, leb, ◌==◌, if◌then◌else◌, or_default, any,
  trim, upper, lower,
}

pub record RetryPolicy : Type 0 where
  pub base_ms : ℕ
  pub cap_ms : ℕ
  pub max_attempts : ℕ
  pub random_uniform : (least most : ℕ) → ℕ

-- The defaults, with a given generator.
abbrev pub default_policy : ((least most : ℕ) → ℕ) → RetryPolicy
default_policy random_uniform = record {
  base_ms = 100;
  cap_ms = 20_000;
  max_attempts = 5;
  random_uniform = random_uniform;
}

unfoldable pub calculate_next_sleep : RetryPolicy → (attempt last_sleep_ms : ℕ) → ℕ
calculate_next_sleep policy zero last_sleep_ms = policy.base_ms
calculate_next_sleep policy (suc attempt) last_sleep_ms =
    min policy.cap_ms
      (policy.random_uniform policy.base_ms (max policy.base_ms (last_sleep_ms * 3)))

-- How an attempt ends, and how `withRetry` does.
pub data Outcome {ℓ κ} (T : Type ℓ) (E : Type κ) : Type (ℓ ⊔ κ) where
  returned : T → Outcome T E
  thrown : E → Outcome T E

abbrev pub wants_retry {κ} : {E : Type κ} → Option (E → ℕ → Bool) → E → ℕ → Bool
wants_retry none error attempt = true
wants_retry (some should_retry) error attempt = should_retry error attempt

-- One more sleep in front.
abbrev pub slept {ℓ} : {A : Type ℓ} → ℕ → Option (A × List ℕ) → Option (A × List ℕ)
slept sleep_ms none = none
slept sleep_ms (some (outcome, sleeps)) = some (outcome, sleep_ms ∷ sleeps)

module _ {ℓ κ} {T : Type ℓ} {E : Type κ} (policy : RetryPolicy)
    (should_retry : Option (E → ℕ → Bool)) (operation : ℕ → Outcome T E) where
  -- The `while (true)` of `withRetry`, with at most `fuel` turns: the outcome and the sleeps before
  -- it; `none` is too little fuel.
  unfoldable pub retry_loop : (fuel attempt last_sleep_ms : ℕ) → Option (Outcome T E × List ℕ)
  retry_loop zero attempt last_sleep_ms = none
  retry_loop (suc f) attempt last_sleep_ms =
      let sleep_ms = calculate_next_sleep policy attempt last_sleep_ms in
      let later = retry_loop f (suc attempt) sleep_ms in
      elim (operation attempt) [
        | Outcome.returned value ↦ some (Outcome.returned value, [])
        | Outcome.thrown error ↦
            if not (wants_retry should_retry error attempt) || leb policy.max_attempts (suc attempt)
            then some (Outcome.thrown error, [])
            else slept sleep_ms later
      ]

  -- Enough turns for every policy, also one of no attempts.
  unfoldable pub with_retry : Option (Outcome T E × List ℕ)
  with_retry = retry_loop (suc policy.max_attempts) 0 0

pub data HeaderSource : Type 0 where
  -- `Headers`: the value of `idempotency-key`, if there is one.
  headers : (value : Option Text) → HeaderSource
  entries : List (Text × Text) → HeaderSource

abbrev idempotency_key_header : Text
idempotency_key_header = codes "idempotency-key"

abbrev is_present : Text → Bool
is_present value = ltb 0 (length (trim value))

abbrev pub present_in : List (Text × Text) → Bool
present_in [] = false
present_in ((name, value) ∷ rest) =
    if text_eq (map lower name) idempotency_key_header then is_present value else present_in rest

unfoldable pub has_valid_idempotency_key : Option HeaderSource → Bool
has_valid_idempotency_key none = false
has_valid_idempotency_key (some (HeaderSource.headers none)) = false
has_valid_idempotency_key (some (HeaderSource.headers (some value))) = is_present value
has_valid_idempotency_key (some (HeaderSource.entries list)) = present_in list

unfoldable pub is_idempotent_retry_allowed : (method : Text) → Option HeaderSource → Bool
is_idempotent_retry_allowed method source =
    let normalized = map upper (trim method) in
    if text_eq normalized (codes "GET") || text_eq normalized (codes "HEAD")
    then true
    else has_valid_idempotency_key source
