-- ===== src/Policy/Retry/Attempts.antt =====
-- packages/policy/retry.ts: how `withRetry` ends, after which attempts and sleeps.
use railfog.Prelude.{
  ℕ, zero, suc, ◌+◌, ◌*◌, ◌≤◌, ◌<◌, min, max, ◌≡◌, ◌⊎◌, inl, inr, refl, Bool, true, false, not,
  ◌||◌, Option, some, List, [], ◌∷◌, arith, leb, length, Bool-cases,
}
use railfog.Policy.Retry.{
  RetryPolicy, calculate_next_sleep, Outcome, wants_retry, retry_loop, with_retry,
}

-- A generator whose numbers lie in the range asked for.
abbrev pub IsUniform : RetryPolicy → Type 0
IsUniform policy =
    (least most : ℕ)
    → least ≤ most
    → (least ≤ policy.random_uniform least most) × (policy.random_uniform least most ≤ most)

-- For a generator whose numbers lie in the range asked for, every sleep lies between the base, or
-- the cap if that is less, and the cap, or the base where the base exceeds it (the first sleep is
-- the base, uncapped); and it is at most three times the last sleep, or the base if that is more.
pub calculate_next_sleep-bounds :
    (policy : RetryPolicy) (attempt last_sleep_ms : ℕ)
    → IsUniform policy
    → let sleep_ms = calculate_next_sleep policy attempt last_sleep_ms in
      (min policy.base_ms policy.cap_ms ≤ sleep_ms)
      × (sleep_ms ≤ max policy.base_ms policy.cap_ms)
      × (sleep_ms ≤ max policy.base_ms (last_sleep_ms * 3))
unfolding calculate_next_sleep
calculate_next_sleep-bounds policy zero last_sleep_ms uniform =
    (ground arith, ground arith, ground arith)
calculate_next_sleep-bounds policy (suc attempt) last_sleep_ms uniform =
    let (low, high) =
      uniform policy.base_ms (max policy.base_ms (last_sleep_ms * 3)) (omega arith) in
    (omega (arith, low), omega arith, omega (arith, high))

stop-reason : (wanted last : Bool) → (not wanted || last) ≡ true → (wanted ≡ false) ⊎ (last ≡ true)
stop-reason false last e = inl refl
stop-reason true last e = inr e

no_stop-reason :
    (wanted last : Bool) → (not wanted || last) ≡ false → (wanted ≡ true) × (last ≡ false)
no_stop-reason true last e = (refl, e)
no_stop-reason false last e = absurd cc

module _ {ℓ κ} {T : Type ℓ} {E : Type κ} (policy : RetryPolicy)
    (should_retry : Option (E → ℕ → Bool)) (operation : ℕ → Outcome T E) where
  -- The attempt failed, and another one is to follow.
  abbrev pub GoesOn : ℕ → Type (ℓ ⊔ κ)
  GoesOn n =
      (error : E) × (operation n ≡ Outcome.thrown error)
      × (wants_retry should_retry error n ≡ true)
      × (suc n < policy.max_attempts)

  -- The attempt returned, or is the last one allowed, or failed with an error that is not retried.
  abbrev pub Ends : Outcome T E → ℕ → Type (ℓ ⊔ κ)
  Ends (Outcome.returned value) n = operation n ≡ Outcome.returned value
  Ends (Outcome.thrown error) n =
      (operation n ≡ Outcome.thrown error)
      × ((wants_retry should_retry error n ≡ false) ⊎ (policy.max_attempts ≤ suc n))

  -- From `attempt` on, `count` attempts fail and are retried, and the next one is the last.
  abbrev pub Runs : (attempt count : ℕ) → Outcome T E → Type (ℓ ⊔ κ)
  Runs attempt zero outcome = Ends outcome attempt
  Runs attempt (suc count) outcome = GoesOn attempt × Runs (suc attempt) count outcome

  Answer : (attempt : ℕ) → Option (Outcome T E × List ℕ) → Type (ℓ ⊔ κ)
  Answer attempt answer =
      (outcome : Outcome T E) × (sleeps : List ℕ) × (answer ≡ some (outcome, sleeps))
      × Runs attempt (length sleeps) outcome

  retry_loop-Runs :
      (fuel attempt last_sleep_ms : ℕ)
      → policy.max_attempts ≤ fuel + attempt
      → 1 ≤ fuel
      → Answer attempt (retry_loop policy should_retry operation fuel attempt last_sleep_ms)
  unfolding retry_loop Answer
  retry_loop-Runs zero attempt last_sleep_ms enough some_left = absurd (omega (arith, some_left))
  retry_loop-Runs (suc f) attempt last_sleep_ms enough some_left =
      go (operation attempt) refl (λ more.
        retry_loop-Runs f (suc attempt) (calculate_next_sleep policy attempt last_sleep_ms)
          (omega (arith, enough)) more)
    where
      loop : Option (Outcome T E × List ℕ)
      loop = retry_loop policy should_retry operation (suc f) attempt last_sleep_ms

      sleep : ℕ
      sleep = calculate_next_sleep policy attempt last_sleep_ms

      later : Option (Outcome T E × List ℕ)
      later = retry_loop policy should_retry operation f (suc attempt) sleep

      go :
          (o : Outcome T E)
          → operation attempt ≡ o
          → (1 ≤ f → Answer (suc attempt) later)
          → Answer attempt loop
      go (Outcome.returned value) e rest = (Outcome.returned value, [], rw (e, retry_loop), e)
      go (Outcome.thrown error) e rest =
          elim (Bool-cases (
            not (wants_retry should_retry error attempt)
            || leb policy.max_attempts (suc attempt))) [
              | inl over ↦ (
                Outcome.thrown error,
                [],
                rw (e, retry_loop, over),
                (
                  e,
                  reason (
                      stop-reason (wants_retry should_retry error attempt)
                        (leb policy.max_attempts (suc attempt)) over),
                ),
              )
              | inr on ↦
                  let (wanted, more) =
                    no_stop-reason (wants_retry should_retry error attempt)
                      (leb policy.max_attempts (suc attempt)) on in
                  let (outcome, sleeps, found, runs) = rest (ground arith) in
                  (
                    outcome,
                    sleep ∷ sleeps,
                    rw (e, retry_loop, on, found),
                    ((error, e, wanted, ground arith), runs),
                  )
            ]
        where
          reason :
              (wants_retry should_retry error attempt ≡ false)
                ⊎ (leb policy.max_attempts (suc attempt) ≡ true)
              → (wants_retry should_retry error attempt ≡ false)
                ⊎ (policy.max_attempts ≤ suc attempt)
          reason (inl no_more) = inl no_more
          reason (inr last) = inr (ground arith)

  -- `withRetry` always ends. Its outcome is that of one attempt; all attempts before it failed, were
  -- to be retried and were not the last one allowed; and it returned, or failed for an error that is
  -- not retried, or was the last one allowed. There is one sleep between two attempts.
  pub with_retry-Runs :
      (outcome : Outcome T E) × (sleeps : List ℕ) × (with_retry policy should_retry operation
        ≡ some (outcome, sleeps))
      × Runs 0 (length sleeps) outcome
  unfolding with_retry Answer
  with_retry-Runs = retry_loop-Runs (suc policy.max_attempts) 0 0 (omega arith) (omega arith)
