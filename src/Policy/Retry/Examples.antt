-- ===== src/Policy/Retry/Examples.antt =====
-- packages/policy/retry.ts: the theorems at concrete policies, and tests by evaluation.
use railfog.Prelude.{
  ℕ, zero, suc, ◌*◌, ◌≤◌, min, max, ◌≡◌, refl, Bool, true, false, Option, none, some, List, [], ◌∷◌,
  Text, codes, arith, length,
}
use railfog.Policy.Retry.{
  RetryPolicy, default_policy, calculate_next_sleep, Outcome, retry_loop, with_retry, HeaderSource,
  is_idempotent_retry_allowed, has_valid_idempotency_key,
}
use railfog.Policy.Retry.Attempts.{with_retry-Runs, Runs}

-- A generator that always draws the greatest number.
abbrev greedy : RetryPolicy
greedy = default_policy (λ least most. most)

-- It fails twice, with the number of the attempt.
abbrev third_time : ℕ → Outcome Bool ℕ
third_time zero = Outcome.thrown 0
third_time (suc zero) = Outcome.thrown 1
third_time (suc (suc n)) = Outcome.returned true

third_run : with_retry greedy none third_time ≡ some (Outcome.returned true, 100 ∷ 300 ∷ [])
unfolding with_retry retry_loop calculate_next_sleep
third_run = refl

bare_post :
    is_idempotent_retry_allowed
      (codes "post")
      (some (HeaderSource.entries ((codes "Idempotency-Key", codes " ") ∷ [])))
    ≡ false
unfolding is_idempotent_retry_allowed has_valid_idempotency_key railfog.Prelude.text_eq
bare_post = refl

keyed_post :
    is_idempotent_retry_allowed
      (codes " post")
      (some (HeaderSource.entries ((codes "Idempotency-Key", codes "7") ∷ [])))
    ≡ true
unfolding is_idempotent_retry_allowed has_valid_idempotency_key railfog.Prelude.text_eq
keyed_post = refl

with_retry-Runs_example :
    (outcome : Outcome Bool ℕ) × (sleeps : List ℕ) × (with_retry greedy none third_time
      ≡ some (outcome, sleeps))
    × Runs greedy none third_time 0 (length sleeps) outcome
with_retry-Runs_example = with_retry-Runs greedy none third_time
